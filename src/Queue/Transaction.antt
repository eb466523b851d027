-- ===== src/Queue/Transaction.antt =====
-- lockProduct, lockProductAttempts and withLockedProduct
-- (internal/repository/postgres/queue_attempt.go). A transaction holds the product's row lock from
-- its first statement, so the calls on one product run one after the other; an error rolls back.
use good_queue.Base.{
  ℕ, Bool, false, ◌&&◌, ◌||◌, not, Option, none, some, List, [], ◌∷◌, ltb, ◌==◌, if◌then◌else◌,
  bytes_eq, is_empty,
}
use good_queue.Domain.{
  AttemptId, ProductId, ExternalUserId, QueueAttempt, Sentinel, wrapped, Result, ok, err,
}
use good_queue.Store.Rows.{find_row}
use good_queue.Store.Tables.{Database, product_key}
use good_queue.Queue.Repository.{LockedProduct, TransactionState, AttemptLockScope}
use good_queue.Queue.Lookup.{is_active_state}

-- SELECT … FROM products WHERE id = $1 FOR UPDATE
unfoldable pub lock_product : Database → ProductId → Result LockedProduct
unfolding find_row
lock_product db id = elim (find_row product_key id db.products) [
  | none ↦ err (wrapped Sentinel.not_found)
  | some row ↦ ok (record {
    id = id;
    allocatable_stock = row.allocatable_stock;
    reserved = row.reserved;
    next_queue_sequence = row.next_queue_sequence;
    queue_enabled = row.queue_enabled;
  })
]

-- ORDER BY queue_sequence, id
unfoldable pub precedes : QueueAttempt → QueueAttempt → Bool
precedes a b =
    ltb a.queue_sequence b.queue_sequence || (a.queue_sequence == b.queue_sequence && ltb a.id b.id)

unfoldable pub insert_sorted : QueueAttempt → List QueueAttempt → List QueueAttempt
unfolding precedes
insert_sorted a [] = a ∷ []
insert_sorted a (b ∷ bs) = if precedes b a then b ∷ insert_sorted a bs else a ∷ b ∷ bs

-- The rows that pass WHERE, in the order of ORDER BY.
unfoldable pub select_sorted : (QueueAttempt → Bool) → List QueueAttempt → List QueueAttempt
unfolding insert_sorted
select_sorted p [] = []
select_sorted p (a ∷ rows) =
    let rest = select_sorted p rows in if p a then insert_sorted a rest else rest

-- The subquery `ORDER BY latest.queue_sequence DESC, latest.id DESC LIMIT 1`.
unfoldable pub latest_row : (QueueAttempt → Bool) → List QueueAttempt → Option QueueAttempt
unfolding precedes
latest_row p [] = none
latest_row p (a ∷ rows) = elim (latest_row p rows) [
  | none ↦ if p a then some a else none
  | some b ↦ if p a && precedes b a then some a else some b
]

abbrev pub owned_by : ProductId → ExternalUserId → QueueAttempt → Bool
owned_by product user a = a.product_id == product && bytes_eq a.external_user_id user

abbrev pub is_id : Option QueueAttempt → AttemptId → Bool
is_id none id = false
is_id (some a) id = id == a.id

-- The WHERE clause of lockProductAttempts. The nil UUID of an absent `attempt_id` is 0.
unfoldable pub in_scope : Database → ProductId → AttemptLockScope → QueueAttempt → Bool
unfolding latest_row is_active_state
in_scope db product scope a =
    a.product_id == product
    && (is_active_state a.state
        || (not (is_empty scope.external_user_id)
            && not (is_empty scope.idempotency_key)
            && bytes_eq a.external_user_id scope.external_user_id
            && bytes_eq a.idempotency_key scope.idempotency_key)
        || (scope.include_latest_for_user
            && not (is_empty scope.external_user_id)
            && is_id (latest_row (owned_by product scope.external_user_id) db.attempts) a.id)
        || (not (scope.attempt_id == 0) && a.id == scope.attempt_id))

unfoldable pub lock_product_attempts : Database → ProductId → AttemptLockScope → List QueueAttempt
lock_product_attempts db product scope = select_sorted (in_scope db product scope) db.attempts

-- The database after the call is what the operation committed, or the one before it.
module _ {ℓ} {A : Type ℓ} where
  abbrev pub commit : Database → Result (A × TransactionState) → Result A × Database
  commit db (ok (value, state)) = (ok value, state.tx)
  commit db (err e) = (err e, db)

  unfoldable pub with_locked_product :
      ℕ
      → ProductId
      → AttemptLockScope
      → (TransactionState → Result (A × TransactionState))
      → Database
      → Result A × Database
  with_locked_product now product_id scope operation db = elim (lock_product db product_id) [
    | err e ↦ (err e, db)
    | ok product ↦ commit db (
        operation (record {
          tx = db;
          product = product;
          now = now;
          attempts = lock_product_attempts db product_id scope;
        }))
  ]
