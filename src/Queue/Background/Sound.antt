-- ===== src/Queue/Background/Sound.antt =====
-- ReconcileNextProduct (internal/repository/postgres/queue_attempt.go) on a consistent database.
use good_queue.Base.{
  ℕ, suc, ◌≤◌, ◌≡◌, refl, Bool, false, none, some, List, [], ◌∷◌, arith, pos, Option-cases, inl,
  inr,
}
use good_queue.Domain.{ProductId}
use good_queue.Store.Rows.{find_row, Keyed}
use good_queue.Store.Tables.{Database, ProductRow, product_key}
use good_queue.Queue.Repository.{Repository, AttemptLockScope}
use good_queue.Queue.Reconcile.{reconcile_locked_product_bounded}
use good_queue.Queue.Reconcile.Succeeds.{reconcile-Reconciles}
use good_queue.Queue.Reconcile.Quiet.{reconciled_transitions-le}
use good_queue.Queue.Background.{
  first_eligible, is_eligible, select_eligible_product, reconcile_selected, reconcile_next_product,
  BackgroundReply, finish_background,
}
use good_queue.Queue.Invariant.Loading.{Consistent, begun, begun-Ready, Ready-Consistent}

first_eligible-found :
    (p : ProductRow → Bool) (rows : List ProductRow) (row : ProductRow)
    → Keyed product_key rows
    → first_eligible p rows ≡ some row
    → find_row product_key row.id rows ≡ some row
unfolding first_eligible find_row
first_eligible-found p [] row k f = ground arith
first_eligible-found p (r ∷ rows) row k f = elim (Option-cases (first_eligible p rows)) [
  | inl e ↦ let f' = rw e at f in ground arith
  | inr (best, e) ↦
      let f' = rw e at f in let ih = first_eligible-found p rows best k.1 e in ground arith
]

-- What the reply of a background reconciliation says: no error of the code's own guards, a bounded number of transitions,
-- and a consistent database.
pub record Settles (limit : ℕ) (reply : BackgroundReply) : Type 0 where
  pub no_error : reply.0.1 ≡ none
  pub bounded : reply.0.0.transitions ≤ limit
  pub consistent : Consistent reply.1

abbrev no_scope : AttemptLockScope
no_scope = record {
  external_user_id = [];
  idempotency_key = [];
  attempt_id = 0;
  include_latest_for_user = false;
}

selected-Settles :
    (repository : Repository) (now limit : ℕ) (row : ProductRow) (db : Database)
    → Consistent db
    → find_row product_key row.id db.products ≡ some row
    → Settles limit (
        finish_background row.id db
          (reconcile_locked_product_bounded repository limit (begun db row now no_scope)))
selected-Settles repository now limit row db c f =
    let state = begun db row now no_scope in
    let r =
      reconcile-Reconciles repository limit db.attempts state
        (begun-Ready db row now no_scope c f) in
    rw r.returns (record {
      no_error = refl;
      bounded = rw r.transitions (
          reconciled_transitions-le repository.invitation_ttl row.allocatable_stock now limit
            state.attempts);
      consistent = Ready-Consistent db.attempts r.result.state r.ready;
    })

-- With a positive limit and a consistent database, no guarded update of ReconcileNextProduct misses its
-- row and the reserved-stock invariant is never found broken; it makes at most `limit` transitions and
-- leaves a consistent database, whichever products are locked by others or excluded. The CHECK
-- constraints on the times of an attempt are not modelled.
pub reconcile_next_product-Settles :
    (repository : Repository) (selected now limit : ℕ) (is_locked : ProductId → Bool)
    → (excluded : List ProductId) (db : Database) → Consistent db
    → Settles
        (suc limit)
        (reconcile_next_product repository selected now is_locked (pos (suc limit)) excluded db)
unfolding reconcile_next_product select_eligible_product reconcile_selected
reconcile_next_product-Settles repository selected now limit is_locked excluded db c =
    elim (Option-cases (first_eligible (is_eligible selected is_locked excluded db) db.products)) [
      | inl e ↦
          rw (e, reconcile_next_product, select_eligible_product)
            (record { no_error = refl; bounded = omega arith; consistent = c })
      | inr (row, e) ↦
          rw (e, reconcile_next_product, select_eligible_product)
            (selected-Settles repository now (suc limit) row db c
              (first_eligible-found _ db.products row c.distinct e))
    ]
