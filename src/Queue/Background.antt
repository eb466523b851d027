-- ===== src/Queue/Background.antt =====
-- ReconcileNextProduct and selectEligibleProduct (internal/repository/postgres/queue_attempt.go).
pub mod Sound
use good_queue.Base.{
  ℕ, zero, suc, ◌-◌, Bool, true, false, ◌&&◌, ◌||◌, not, Option, none, some, List, [], ◌∷◌, ltb,
  leb, ◌==◌, if◌then◌else◌, ℤ, pos, negsuc,
}
use good_queue.Domain.{
  ProductId, QueueAttempt, QueueAttemptState, state_eq, Sentinel, Error, wrapped, Result, ok, err,
  ReconciliationResult,
}
use good_queue.Store.Tables.{Database, ProductRow}
use good_queue.Queue.Repository.{Repository, TransactionState, LockedProduct}
use good_queue.Queue.Transaction.{lock_product_attempts}
use good_queue.Queue.Reconcile.{reconcile_locked_product_bounded, Reconciled}

unfoldable pub any_of {ℓ} : {A : Type ℓ} → (A → Bool) → List A → Bool
any_of p [] = false
any_of p (x ∷ xs) = p x || any_of p xs

-- `deadline <= clock_timestamp()`, which NULL does not satisfy.
abbrev pub is_due : ℕ → Option ℕ → Bool
is_due now none = false
is_due now (some deadline) = leb deadline now

-- The EXISTS subquery, for one attempt of the product.
unfoldable pub wants_work : ℕ → ProductRow → QueueAttempt → Bool
wants_work now p a =
    a.product_id == p.id
    && ((state_eq a.state QueueAttemptState.invited && is_due now a.invitation_deadline)
        || (state_eq a.state QueueAttemptState.checkout && is_due now a.checkout_deadline)
        || (state_eq a.state QueueAttemptState.waiting
            && (p.allocatable_stock == 0 || ltb 0 (p.allocatable_stock - p.reserved))))

-- WHERE; SKIP LOCKED passes over the rows that `is_locked` names.
unfoldable pub is_eligible : ℕ → (ProductId → Bool) → List ProductId → Database → ProductRow → Bool
unfolding any_of wants_work
is_eligible now is_locked excluded db p =
    not (any_of (λ id. id == p.id) excluded)
    && (not (is_locked p.id) && any_of (wants_work now p) db.attempts)

-- ORDER BY p.updated_at, p.id LIMIT 1
unfoldable pub first_eligible : (ProductRow → Bool) → List ProductRow → Option ProductRow
first_eligible p [] = none
first_eligible p (row ∷ rows) = elim (first_eligible p rows) [
  | none ↦ if p row then some row else none
  | some best ↦
      if p row
        && (ltb row.updated_at best.updated_at
            || (row.updated_at == best.updated_at && ltb row.id best.id))
      then some row
      else some best
]

unfoldable pub select_eligible_product :
    ℕ → (ProductId → Bool) → List ProductId → Database → Option LockedProduct
select_eligible_product now is_locked excluded db =
    elim (first_eligible (is_eligible now is_locked excluded db) db.products) [
      | none ↦ none
      | some row ↦ some (record {
        id = row.id;
        allocatable_stock = row.allocatable_stock;
        reserved = row.reserved;
        next_queue_sequence = row.next_queue_sequence;
        queue_enabled = row.queue_enabled;
      })
    ]

abbrev pub BackgroundReply : Type 0
BackgroundReply = (ReconciliationResult × Option Error) × Database

abbrev pub only_product : ProductId → ReconciliationResult
only_product id = record { product_id = id; transitions = 0; more_work = false }

abbrev pub finish_background : ProductId → Database → Result Reconciled → BackgroundReply
finish_background id db (err e) = ((only_product id, some e), db)
finish_background id db (ok r) = (
  (record { product_id = id; transitions = r.transitions; more_work = r.more_work }, none),
  r.state.tx,
)

-- `selected` and `now` are the clock at the selection and after the lock.
unfoldable pub reconcile_selected :
    Repository → ℕ → ℕ → Option LockedProduct → Database → BackgroundReply
reconcile_selected repository now limit none db = ((only_product 0, none), db)
reconcile_selected repository now limit (some product) db = finish_background product.id db (
    reconcile_locked_product_bounded repository limit (record {
      tx = db;
      product = product;
      now = now;
      attempts = lock_product_attempts db product.id (record {
        external_user_id = [];
        idempotency_key = [];
        attempt_id = 0;
        include_latest_for_user = false;
      });
    }))

unfoldable pub reconcile_next_product :
    Repository → ℕ → ℕ → (ProductId → Bool) → ℤ → List ProductId → Database → BackgroundReply
reconcile_next_product repository selected now is_locked (pos (suc limit)) excluded db =
    reconcile_selected repository now (suc limit)
      (select_eligible_product selected is_locked excluded db) db
reconcile_next_product repository selected now is_locked _ excluded db =
    ((only_product 0, some (wrapped Sentinel.invalid_input)), db)
