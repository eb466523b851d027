-- ===== src/Worker/Reconciliation.antt =====
-- internal/worker/worker.go, reconcileCycle, over any Reconciler, and over the repository of the queue.
pub mod Cycles
pub mod Products
use good_queue.Base.{
  ℕ, zero, suc, ◌+◌, ◌≢◌, ◌≡◌, Bool, true, false, ◌||◌, Option, none, some, List, [], ◌∷◌, ◌++◌,
  ◌==◌, if◌then◌else◌, pos,
}
use good_queue.Domain.{ProductId, Error, ReconciliationResult}
use good_queue.Store.Tables.{Database}
use good_queue.Queue.Repository.{Repository}
use good_queue.Queue.Background.{any_of, reconcile_next_product}
use good_queue.Worker.{CycleOutcome, Outcome}

-- The interface Reconciler, on a state `S`: the n-th call of a cycle, with the products to pass over.
-- A product that it names is none of those.
pub record Reconciler (S : Type 0) : Type 0 where
  pub reconcile_next_product : ℕ → List ProductId → S → (ReconciliationResult × Option Error) × S
  pub passes_over :
      (call : ℕ) (excluded : List ProductId) (state : S)
      → ((reconcile_next_product call excluded state).0.0.product_id) ≢ 0
      → any_of (λ id. id == (reconcile_next_product call excluded state).0.0.product_id) excluded
        ≡ false

-- A cycle's outcome, with what it observed, the products that its calls named, in order, those it
-- would pass over next, and the state it left.
pub record Cycle (S : Type 0) : Type 0 where
  pub outcome : CycleOutcome
  pub observed : List (ℕ × Outcome)
  pub tried : List ProductId
  pub excluded : List ProductId
  pub state : S

abbrev pub observing : {S : Type 0} → ℕ × Outcome → Cycle S → Cycle S
observing o c = record c { observed = o ∷ c.observed }

abbrev pub ended : {S : Type 0} → Bool → Bool → List ProductId → S → Cycle S
ended immediate failed excluded state = record {
  outcome = record { immediate = immediate; failed = failed };
  observed = [];
  tried = [];
  excluded = excluded;
  state = state;
}

abbrev pub trying : {S : Type 0} → ProductId → Cycle S → Cycle S
trying p c = record c { tried = p ∷ c.tried }

-- What the loop does with a reply, before it goes on with `next`.
unfoldable pub after_reconcile :
    {S : Type 0}
    → (List ProductId → Bool → Bool → S → Cycle S)
    → List ProductId
    → Bool
    → Bool
    → (ReconciliationResult × Option Error) × S
    → Cycle S
after_reconcile next excluded more_work failed ((result, some e), state) =
    if result.product_id == 0
    then observing (0, Outcome.error) (ended false true excluded state)
    else observing (0, Outcome.error)
        (trying result.product_id (next (excluded ++ result.product_id ∷ []) more_work true state))
after_reconcile next excluded more_work failed ((result, none), state) =
    if result.product_id == 0
    then observing (0, Outcome.empty) (ended more_work failed excluded state)
    else observing (result.transitions, Outcome.success)
        (trying result.product_id
          (next (excluded ++ result.product_id ∷ []) (more_work || result.more_work) failed state))

-- `alive n` is `ctx.Err() == nil` at the n-th test; a context that is done stays done.
module _ {S : Type 0} (reconciler : Reconciler S) (alive : ℕ → Bool) where
  -- The loop: `left` products may still be tried.
  unfoldable pub reconcile_from : ℕ → ℕ → List ProductId → Bool → Bool → S → Cycle S
  reconcile_from zero processed excluded more_work failed state =
      ended (alive processed) failed excluded state
  reconcile_from (suc left) processed excluded more_work failed state =
      let next = reconcile_from left (processed + 1) in
      if alive processed
      then after_reconcile next excluded more_work failed
          (reconciler.reconcile_next_product processed excluded state)
      else ended false failed excluded state

  unfoldable pub reconcile_cycle : ℕ → S → Cycle S
  reconcile_cycle max_reconciled_products state =
      reconcile_from max_reconciled_products 0 [] false false state

-- What one call finds around it: what other transactions have committed since the last one, the two
-- readings of the clock, and the products that others lock.
pub record Surroundings : Type 0 where
  pub meanwhile : Database → Database
  pub selected : ℕ
  pub now : ℕ
  pub is_locked : ProductId → Bool
