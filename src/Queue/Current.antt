-- ===== src/Queue/Current.antt =====
-- FindCurrent and FindActiveByUser (internal/repository/postgres/queue_attempt.go).
pub mod Sound
use good_queue.Base.{
  ℕ, ◌+◌, true, ◌&&◌, ◌||◌, Option, none, some, List, [], ◌∷◌, ltb, ◌==◌, if◌then◌else◌, bytes_eq,
}
use good_queue.Domain.{
  ProductId, ExternalUserId, QueueAttempt, QueueAttemptState, state_eq, Sentinel, Error, wrapped,
  errors_is, Result, ok, err, ◌>>=◌, CurrentQueueResult,
}
use good_queue.Store.Tables.{Database}
use good_queue.Queue.Repository.{Repository, TransactionState}
use good_queue.Queue.Lookup.{
  is_active_state, find_active_attempt, latest_attempt_for_user, count_waiting, count_waiting_ahead,
}
use good_queue.Queue.Transaction.{with_locked_product}
use good_queue.Queue.Reconcile.{reconcile_locked_product}

abbrev pub CurrentReply : Type 0
CurrentReply = (CurrentQueueResult × Option Error) × TransactionState

-- The active attempt of the user, else the latest.
unfoldable pub current_attempt : List QueueAttempt → ExternalUserId → Option QueueAttempt
current_attempt attempts user = elim (find_active_attempt attempts user) [
  | some a ↦ some a
  | none ↦ latest_attempt_for_user attempts user
]

unfoldable pub find_current_operation :
    Repository → ExternalUserId → TransactionState → Result CurrentReply
unfolding current_attempt
find_current_operation repository user state = do
  state' ← reconcile_locked_product repository state
  elim (current_attempt state'.attempts user) [
    | none ↦ ok (
      (
        record { attempt = none; position_ahead = 0; total_waiting = 0 },
        some (wrapped Sentinel.attempt_not_found),
      ),
      state',
    )
    | some a ↦ ok (
      (
        record {
          attempt = some a;
          position_ahead =
              if state_eq a.state QueueAttemptState.waiting
              then count_waiting_ahead state'.attempts a.queue_sequence
              else 0;
          total_waiting = count_waiting state'.attempts;
        },
        none,
      ),
      state',
    )
  ]

unfoldable pub find_current :
    Repository
    → ℕ
    → ProductId
    → ExternalUserId
    → Database
    → Result (CurrentQueueResult × Option Error) × Database
find_current repository now product_id user =
    with_locked_product now product_id
      (record {
        external_user_id = user;
        idempotency_key = [];
        attempt_id = 0;
        include_latest_for_user = true;
      })
      (find_current_operation repository user)

-- ORDER BY updated_at DESC, product_id
unfoldable pub insert_recent : QueueAttempt → List QueueAttempt → List QueueAttempt
insert_recent a [] = a ∷ []
insert_recent a (b ∷ bs) =
    if ltb a.updated_at b.updated_at
      || (a.updated_at == b.updated_at && ltb b.product_id a.product_id)
    then b ∷ insert_recent a bs
    else a ∷ b ∷ bs

unfoldable pub active_products : ExternalUserId → List QueueAttempt → List QueueAttempt
unfolding insert_recent
active_products user [] = []
active_products user (a ∷ rows) =
    let rest = active_products user rows in
    if bytes_eq a.external_user_id user && is_active_state a.state
    then insert_recent a rest
    else rest

abbrev pub append_active : CurrentQueueResult → List CurrentQueueResult → List CurrentQueueResult
append_active current rest = elim current.attempt [
  | none ↦ rest
  | some a ↦ if is_active_state a.state then current ∷ rest else rest
]

-- One FindCurrent for each product, each in a transaction of its own. `clock` is the database clock,
-- at its n-th reading.
unfoldable pub find_each :
    Repository
    → (ℕ → ℕ)
    → ℕ
    → ExternalUserId
    → List QueueAttempt
    → Database
    → Result (List CurrentQueueResult) × Database
find_each repository clock n user [] db = (ok [], db)
find_each repository clock n user (row ∷ rows) db =
    let (reply, db') = find_current repository (clock n) row.product_id user db in
    let (rest, db'') = find_each repository clock (n + 1) user rows db' in
    elim reply [
      | err e ↦ (err e, db')
      | ok (current, none) ↦ ((rest >>= λ others. ok (append_active current others)), db'')
      | ok (current, some e) ↦
          if errors_is e Sentinel.attempt_not_found then (rest, db'') else (err e, db')
    ]

unfoldable pub find_active_by_user :
    Repository → (ℕ → ℕ) → ExternalUserId → Database → Result (List CurrentQueueResult) × Database
find_active_by_user repository clock user db =
    find_each repository clock 0 user (active_products user db.attempts) db
