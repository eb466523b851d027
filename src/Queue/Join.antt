-- ===== src/Queue/Join.antt =====
-- Join, with createAttempt (internal/repository/postgres/queue_attempt.go).
pub mod Insertion
pub mod Sound
use good_queue.Base.{
  ℕ, ◌+◌, Bool, true, false, ◌&&◌, Option, none, some, [], ◌∷◌, ◌++◌, ltb, leb, ◌==◌, if◌then◌else◌,
  bytes_eq, count_where,
}
use good_queue.Domain.{
  AttemptId, QueueAttempt, QueueAttemptState, state_eq, Sentinel, Error, wrapped, errors_is, Result,
  ok, err, ◌>>=◌, ◌>>◌, guard, JoinQueueCommand, JoinQueueResult,
}
use good_queue.Domain.Capacity.{waiting_capacity, next_queue_sequence}
use good_queue.Base.{pos}
use good_queue.Store.Tables.{Database}
use good_queue.Queue.Repository.{Repository, TransactionState, reserved_invariant_error}
use good_queue.Queue.Lookup.{
  is_active_state, find_replay, find_active_attempt, count_waiting, count_waiting_ahead,
  is_effective_at,
}
use good_queue.Queue.Transaction.{with_locked_product}
use good_queue.Queue.Transitions.{update_product}
use good_queue.Queue.Reconcile.{reconcile_locked_product}

-- updateProductForNewAttempt
unfoldable pub update_product_for_new_attempt :
    TransactionState → ℕ → Bool → Result TransactionState
update_product_for_new_attempt state next_sequence reserve =
    let new_reserved = if reserve then state.product.reserved + 1 else state.product.reserved in
    do
      tx' ←
          update_product
            (λ row.
              row.id == state.product.id
              && (row.next_queue_sequence == state.product.next_queue_sequence
                  && (row.reserved == state.product.reserved
                      && leb new_reserved row.allocatable_stock)))
            (λ row. record row {
              next_queue_sequence = next_sequence;
              reserved = new_reserved;
              updated_at = state.now;
            })
            reserved_invariant_error state.tx
      ok (record state {
        tx = tx';
        product = record (state.product) {
          next_queue_sequence = next_sequence;
          reserved = new_reserved;
        };
      })

-- The three unique constraints of the schema, with the errors that mapPostgreSQLError makes of their
-- violations.
unfoldable pub respect_unique : QueueAttempt → Database → Result (Unit {0})
respect_unique a tx = do
  guard
      (count_where (λ row. row.product_id == a.product_id && row.queue_sequence == a.queue_sequence)
          tx.attempts
        == 0)
      (wrapped Sentinel.conflict)
  guard
      (count_where
          (λ row.
            row.product_id == a.product_id
            && (bytes_eq row.external_user_id a.external_user_id
                && bytes_eq row.idempotency_key a.idempotency_key))
          tx.attempts
        == 0)
      (wrapped Sentinel.conflict)
  guard
      (count_where
          (λ row.
            row.product_id == a.product_id
            && (bytes_eq row.external_user_id a.external_user_id
                && (is_active_state row.state && is_active_state a.state)))
          tx.attempts
        == 0)
      (wrapped Sentinel.conflict)

-- INSERT INTO queue_attempts under the primary key and the unique constraints.
unfoldable pub insert_attempt : QueueAttempt → Database → Result Database
insert_attempt a tx = do
  guard (count_where (λ row. row.id == a.id) tx.attempts == 0) Error.database_error
  respect_unique a tx
  ok (record tx { attempts = a ∷ tx.attempts })

-- The attempt before its state is decided; `id` is a new UUID.
abbrev pub new_attempt : TransactionState → JoinQueueCommand → AttemptId → QueueAttempt
new_attempt state command id = record {
  id = id;
  product_id = command.product_id;
  queue_sequence = state.product.next_queue_sequence;
  external_user_id = command.external_user_id;
  idempotency_key = command.idempotency_key;
  state = QueueAttemptState.waiting;
  created_at = state.now;
  updated_at = state.now;
  invited_at = none;
  invitation_deadline = none;
  checkout_started_at = none;
  checkout_deadline = none;
  terminal_at = none;
  purchased_at = none;
  accepted_provider = none;
  accepted_reference = none;
  terminal_reason = none;
  terminal_message = none;
  version = 1;
}

-- With free stock the attempt goes straight to checkout; else it waits, if the buffer has room.
unfoldable pub place_attempt :
    Repository → TransactionState → QueueAttempt → ℕ → Result (QueueAttempt × TransactionState)
place_attempt repository state attempt next_sequence =
    if ltb state.product.reserved state.product.allocatable_stock
    then (do
      state' ← update_product_for_new_attempt state next_sequence true
      ok (
        record attempt {
          state = QueueAttemptState.checkout;
          invited_at = some state.now;
          invitation_deadline = some (state.now + repository.invitation_ttl);
          checkout_started_at = some state.now;
          checkout_deadline = some (state.now + repository.checkout_ttl);
        },
        state',
      ))
    else (do
      capacity ←
          waiting_capacity (pos state.product.allocatable_stock) repository.waiting_buffer_percent
      guard (ltb (count_waiting state.attempts) capacity) (wrapped Sentinel.queue_full)
      state' ← update_product_for_new_attempt state next_sequence false
      ok (attempt, state'))

unfoldable pub create_attempt :
    Repository → TransactionState → JoinQueueCommand → Result (QueueAttempt × TransactionState)
create_attempt repository state command = do
  next ← next_queue_sequence state.product.next_queue_sequence
  let fresh = new_attempt state command (repository.uuid_new state.tx.issued)
  (attempt, state') ← place_attempt repository state fresh next
  tx' ← insert_attempt attempt state'.tx
  ok (
    attempt,
    record state' {
      tx = record tx' { issued = state.tx.issued + 1 };
      attempts = state'.attempts ++ attempt ∷ [];
    },
  )

-- What the closure leaves: the result, `outcomeError`, and the transaction.
abbrev pub Joined : Type 0
Joined = (JoinQueueResult × Option Error) × TransactionState

-- The deferred assignment of TotalWaiting.
abbrev pub finish_join : Option QueueAttempt → ℕ → Bool → Option Error → TransactionState → Joined
finish_join attempt position created outcome state = (
  (
    record {
      attempt = attempt;
      position_ahead = position;
      total_waiting = count_waiting state.attempts;
      created = created;
    },
    outcome,
  ),
  state,
)

-- The position of an attempt that waits; 0 of any other.
unfoldable pub position_of : TransactionState → QueueAttempt → ℕ
position_of state a =
    if state_eq a.state QueueAttemptState.waiting
    then count_waiting_ahead state.attempts a.queue_sequence
    else 0

abbrev pub report : TransactionState → QueueAttempt → Bool → Joined
report state a created = finish_join (some a) (position_of state a) created none state

abbrev pub created_or_full :
    TransactionState → Result (QueueAttempt × TransactionState) → Result Joined
created_or_full state (ok (a, state')) = ok (report state' a true)
created_or_full state (err e) =
    if errors_is e Sentinel.queue_full
    then ok (finish_join none 0 false (some (wrapped Sentinel.queue_full)) state)
    else err e

-- With the queue enabled.
unfoldable pub join_enabled : Repository → JoinQueueCommand → TransactionState → Result Joined
join_enabled repository command state =
    if state.product.allocatable_stock == 0
    then (do
      state' ← reconcile_locked_product repository state
      ok (finish_join none 0 false (some (wrapped Sentinel.out_of_stock)) state'))
    else (do
      state' ← reconcile_locked_product repository state
      created_or_full state' (create_attempt repository state' command))

-- From the test of `queueEnabled` on.
unfoldable pub join_new : Repository → JoinQueueCommand → TransactionState → Result Joined
join_new repository command state =
    if state.product.queue_enabled
    then join_enabled repository command state
    else ok (finish_join none 0 false (some (wrapped Sentinel.queue_disabled)) state)

-- After the reconciliation that ended the user's active attempt, or did not.
unfoldable pub join_expired : Repository → JoinQueueCommand → TransactionState → Result Joined
join_expired repository command state =
    elim (find_active_attempt state.attempts command.external_user_id) [
      | some a ↦ ok (report state a false)
      | none ↦ join_new repository command state
    ]

-- An active attempt whose deadline has come is reconciled away first.
unfoldable pub join_active :
    Repository → JoinQueueCommand → TransactionState → QueueAttempt → Result Joined
join_active repository command state active = do
  effective ← is_effective_at active state.now
  if effective then ok (report state active false) else (do
    state' ← reconcile_locked_product repository state
    join_expired repository command state')

unfoldable pub join_operation : Repository → JoinQueueCommand → TransactionState → Result Joined
join_operation repository command state =
    elim (find_replay state.attempts command.external_user_id command.idempotency_key) [
      | some replay ↦ ok (report state replay false)
      | none ↦ elim (find_active_attempt state.attempts command.external_user_id) [
        | some active ↦ join_active repository command state active
        | none ↦ join_new repository command state
      ]
    ]

unfoldable pub join :
    Repository
    → ℕ
    → JoinQueueCommand
    → Database
    → Result (JoinQueueResult × Option Error) × Database
join repository now command =
    with_locked_product now command.product_id
      (record {
        external_user_id = command.external_user_id;
        idempotency_key = command.idempotency_key;
        attempt_id = 0;
        include_latest_for_user = false;
      })
      (join_operation repository command)
