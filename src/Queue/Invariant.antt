-- ===== src/Queue/Invariant.antt =====
-- What holds of the database between transactions, and of a transaction within a call.
pub mod Step
pub mod Ready
pub mod Sorted
pub mod Loading
pub mod Moves
use good_queue.Base.{
  ℕ, ◌≤◌, ◌≡◌, ◌≢◌, Bool, true, false, ◌&&◌, Option, none, some, List, [], ◌∷◌, ◌==◌, count_where,
  All,
}
use good_queue.Domain.{QueueAttempt, QueueAttemptState, ProductId}
use good_queue.Store.Rows.{find_row, Keyed}
use good_queue.Store.Updates.{Mirrors}
use good_queue.Store.Tables.{
  Database, ProductRow, OutboxRow, DeduplicationKey, invited_key, compensation_key, attempt_key,
  product_key,
}
use good_queue.Queue.Lookup.{reserves_stock}
use good_queue.Queue.Reconcile.{reserved_count}

abbrev pub is_set : Option ℕ → Bool
is_set none = false
is_set (some n) = true

-- The deadline that the state is read with is there (queue_attempts_state_timestamps).
unfoldable pub has_deadline : QueueAttempt → Bool
has_deadline a = elim a.state [
  | QueueAttemptState.invited ↦ is_set a.invitation_deadline
  | QueueAttemptState.checkout ↦ is_set a.checkout_deadline
  | _ ↦ true
]

-- A notification of an invitation names an attempt, at a version that it has had.
abbrev pub Known : List QueueAttempt → DeduplicationKey → Type 0
Known rows (invited_key i v) =
    (a : QueueAttempt) × (find_row attempt_key i rows ≡ some a) × (v ≤ a.version)
Known rows (compensation_key i) = Unit

pub record Valid (db : Database) : Type 0 where
  pub keyed : Keyed attempt_key db.attempts
  pub timed : All (λ a. has_deadline a ≡ true) db.attempts
  pub known : All (λ row. Known db.attempts row.deduplication_key) db.outbox

-- The reservations that the rows of a product stand for.
unfoldable pub held : ProductId → List QueueAttempt → ℕ
held q rows = count_where (λ a. a.product_id == q && reserves_stock a.state) rows

-- The invariant of a transaction on product `id` that began at `base`: memory mirrors the table,
-- and both hold as many reservations as the counter says.
pub record InTransaction (id : ProductId) (base tx : Database) (reserved : ℕ)
    (mem : List QueueAttempt) : Type 0 where
  pub valid : Valid tx
  pub mirrored : Mirrors attempt_key tx.attempts mem
  pub distinct : Keyed attempt_key mem
  pub owned : All (λ a. a.product_id ≡ id) mem
  pub counted : reserved_count mem ≡ reserved
  pub covered : held id tx.attempts ≡ reserved
  pub others : (q : ℕ) → q ≢ id → held q tx.attempts ≡ held q base.attempts
  pub products : tx.products ≡ base.products
