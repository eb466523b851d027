-- ===== src/Worker/Reconciliation/Products.antt =====
-- The reconciliation worker over the repository of the queue (internal/worker/worker.go,
-- reconcileCycle, and internal/repository/postgres/queue_attempt.go, ReconcileNextProduct).
use good_queue.Base.{
  ℕ, suc, ◌≡◌, ◌≢◌, refl, Bool, true, false, some, List, [], ◌∷◌, ◌==◌, arith, pos, Option-cases,
  inl, inr,
}
use good_queue.Domain.{ProductId, Result, ok, err}
use good_queue.Store.Tables.{Database, ProductRow}
use good_queue.Queue.Repository.{Repository}
use good_queue.Queue.Reconcile.{Reconciled}
use good_queue.Queue.Background.{
  any_of, first_eligible, is_eligible, select_eligible_product, reconcile_selected,
  reconcile_next_product, finish_background,
}
use good_queue.Queue.Background.Sound.{reconcile_next_product-Settles}
use good_queue.Queue.Invariant.Loading.{Consistent}
use good_queue.Worker.Reconciliation.{Reconciler, Surroundings, reconcile_cycle}
use good_queue.Worker.Reconciliation.Cycles.{Kept, Succeeds, reconcile_cycle-Succeeds}

first_eligible-passes :
    (p : ProductRow → Bool) (rows : List ProductRow) (row : ProductRow)
    → first_eligible p rows ≡ some row
    → p row ≡ true
unfolding first_eligible
first_eligible-passes p [] row f = ground arith
first_eligible-passes p (r ∷ rows) row f = elim (Option-cases (first_eligible p rows)) [
  | inl e ↦ let f' = rw e at f in ground arith
  | inr (best, e) ↦
      let f' = rw e at f in let ih = first_eligible-passes p rows best e in ground arith
]

finish_background-product :
    (id : ProductId) (db : Database) (r : Result Reconciled)
    → (finish_background id db r).0.0.product_id ≡ id
finish_background-product id db (err e) = refl
finish_background-product id db (ok r) = refl

-- ReconcileNextProduct names no product that is excluded.
pub passes_over :
    (repository : Repository) (around : Surroundings) (limit : ℕ) (excluded : List ProductId)
    → (db : Database) (p : ProductId)
    → (reconcile_next_product repository around.selected around.now around.is_locked
        (pos (suc limit))
        excluded
        db).0.0.product_id
      ≡ p
    → p ≢ 0
    → any_of (λ id. id == p) excluded ≡ false
unfolding reconcile_next_product select_eligible_product reconcile_selected is_eligible
passes_over repository around limit excluded db p h n =
    elim (Option-cases
      (first_eligible (is_eligible around.selected around.is_locked excluded db) db.products)) [
        | inl e ↦ let h' = rw (e, reconcile_selected) at h in ground arith
        | inr (row, e) ↦
            let h' = rw (e, reconcile_selected) at h in
            let passes = first_eligible-passes _ db.products row e in
            let same : row.id ≡ p = ground (arith, finish_background-product row.id db _) in
            ground arith
      ]

-- The repository as the Reconciler of the worker, with a batch of `suc limit` transitions.
abbrev pub queue_reconciler : Repository → (ℕ → Surroundings) → ℕ → Reconciler Database
queue_reconciler repository around limit = record {
  reconcile_next_product = λ n excluded db.
      reconcile_next_product repository ((around n).selected) ((around n).now)
        ((around n).is_locked) (pos (suc limit)) excluded ((around n).meanwhile db);
  passes_over = λ n excluded db p.
      passes_over repository (around n) limit excluded ((around n).meanwhile db) _ refl p;
}

-- A cycle of the reconciliation worker that starts on a consistent database, with a positive batch
-- size and other transactions that keep the database consistent between its calls, leaves a consistent
-- database, and no call of it fails on a guarded update or on the reserved-stock invariant. The CHECK
-- constraints on the times of an attempt are not modelled.
pub reconcile_cycle-Consistent :
    (repository : Repository) (around : ℕ → Surroundings) (limit : ℕ) (alive : ℕ → Bool)
    → (max_reconciled_products : ℕ) (db : Database)
    → ((n : ℕ) (d : Database) → Consistent d → Consistent ((around n).meanwhile d))
    → Consistent db
    → Succeeds Consistent (
        reconcile_cycle (queue_reconciler repository around limit) alive max_reconciled_products db)
reconcile_cycle-Consistent repository around limit alive most db others c =
    reconcile_cycle-Succeeds (queue_reconciler repository around limit) alive Consistent keeps most
      db c
  where
    keeps :
        (n : ℕ) (ids : List ProductId) (d : Database)
        → Consistent d
        → Kept Consistent
            ((queue_reconciler repository around limit).reconcile_next_product n ids d)
    keeps n ids d h =
        let s =
          reconcile_next_product-Settles repository ((around n).selected) ((around n).now) limit
            ((around n).is_locked) ids ((around n).meanwhile d) (others n d h) in
        record { no_error = s.no_error; kept = s.consistent }
