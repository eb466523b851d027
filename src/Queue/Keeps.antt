-- ===== src/Queue/Keeps.antt =====
-- Operations that leave a consistent database wherever they return, and what withLockedProduct then
-- does (internal/repository/postgres/queue_attempt.go).
use good_queue.Base.{
  ℕ, ◌+◌, ◌*◌, ◌≡◌, refl, subst, sym, ◌||◌, not, Bool, true, false, some, List, ◌==◌, ltb, length,
  Bool-cases, Option-cases, inl, inr,
}
use good_queue.Domain.{QueueAttempt, ProductId, Result, Error, ok, err, ◌>>=◌, ◌>>◌, guard}
use good_queue.Store.Rows.{find_row, find_row-key}
use good_queue.Store.Tables.{Database, product_key}
use good_queue.Queue.Repository.{Repository, TransactionState, AttemptLockScope}
use good_queue.Queue.Transaction.{with_locked_product, lock_product, commit}
use good_queue.Queue.Reconcile.{
  reconcile_locked_product, reconcile_locked_product_bounded, reserved_count, run_loops,
  store_reserved, has_reconciliation_work, Reconciled,
}
use good_queue.Queue.Reconcile.Succeeds.{reconcile-Reconciles as reconcile_bounded}
use good_queue.Queue.Invariant.Ready.{Ready}
use good_queue.Queue.Invariant.Loading.{Consistent, begun, begun-Ready, lock_product-found}

-- What holds of a result that is no error.
abbrev pub Holds {ℓ κ} : {B : Type ℓ} → (B → Type κ) → Result B → Type κ
Holds P (err e) = Unit
Holds P (ok b) = P b

-- A chain has a property when what follows its first step has it.
pub bind-Holds {ℓ κ μ} :
    {B : Type ℓ} {C : Type κ} (P : C → Type μ) (m : Result B) (next : B → Result C)
    → ((b : B) → m ≡ ok b → Holds P (next b))
    → Holds P (m >>= next)
bind-Holds P (err e) next h = tt
bind-Holds P (ok b) next h = h b refl

pub guard-Holds {κ μ} :
    {C : Type κ} (P : C → Type μ) (b : Bool) (e : Error) (rest : Result C)
    → (b ≡ true → Holds P rest)
    → Holds P (guard b e >> rest)
guard-Holds P true e rest h = h refl
guard-Holds P false e rest h = tt

module _ {ℓ} {A : Type ℓ} where
  -- An outcome that is an error, or leaves a consistent database.
  abbrev pub Leaves : A × TransactionState → Type 0
  Leaves reply = Consistent reply.1.tx

  abbrev pub Keeps : Result (A × TransactionState) → Type 0
  Keeps = Holds Leaves

  commit-Consistent :
      (db : Database) (m : Result (A × TransactionState))
      → Consistent db
      → Keeps m
      → Consistent ((commit db m).1)
  commit-Consistent db (err e) c k = c
  commit-Consistent db (ok (value, state)) c k = k

  -- withLockedProduct, for a product that is there or not.
  pub with_locked_product-Consistent :
      (now : ℕ) (id : ProductId) (scope : AttemptLockScope)
      → (operation : TransactionState → Result (A × TransactionState)) (db : Database)
      → Consistent db
      → ((state : TransactionState)
          → Ready db.attempts state
          → state.product.id ≡ id
          → Keeps (operation state))
      → Consistent ((with_locked_product now id scope operation db).1)
  unfolding with_locked_product lock_product
  with_locked_product-Consistent now id scope operation db c keeps =
      elim (Option-cases (find_row product_key id db.products)) [
        | inl e ↦ rw (e, with_locked_product, lock_product) c
        | inr (row, e) ↦
            let same : row.id ≡ id = find_row-key product_key id db.products e in
            let found = subst (λ i. find_row product_key i db.products ≡ some row) (sym same) e in
            subst (λ i. Consistent ((with_locked_product now i scope operation db).1)) same
              (rw (lock_product-found db row found, with_locked_product)
                (commit-Consistent db (operation (begun db row now scope)) c
                  (keeps (begun db row now scope) (begun-Ready db row now scope c found) same)))
      ]

-- Reconciliation stays with its product and the product's stock.
abbrev SameProduct : TransactionState → Reconciled → Type 0
SameProduct state r =
    (r.state.product.id ≡ state.product.id)
    × (r.state.product.allocatable_stock ≡ state.product.allocatable_stock)

reconciled-SameProduct :
    (repository : Repository) (limit : ℕ) (state : TransactionState)
    → Holds (SameProduct state) (reconcile_locked_product_bounded repository limit state)
unfolding reconcile_locked_product_bounded
reconciled-SameProduct repository limit state =
    elim (Bool-cases (
      not (reserved_count state.attempts == state.product.reserved)
      || ltb state.product.allocatable_stock state.product.reserved)) [
        | inl e ↦ rw e tt
        | inr e ↦ rw e (
            bind-Holds (SameProduct state) (run_loops repository limit state) _ (λ pass h.
              bind-Holds (SameProduct state) (store_reserved state state.product.reserved pass.1) _
                (λ tx h'.
                  bind-Holds (SameProduct state) (has_reconciliation_work _) _
                    (λ more h''. (refl, refl)))))
      ]

-- Reconciliation of a ready transaction, as the operations use it.
pub record LockedReconciles (repository : Repository) (base : List QueueAttempt)
    (state : TransactionState) : Type 0 where
  pub result : TransactionState
  pub returns : reconcile_locked_product repository state ≡ ok result
  pub ready : Ready base result
  pub id : result.product.id ≡ state.product.id
  pub stock : result.product.allocatable_stock ≡ state.product.allocatable_stock

pub locked-LockedReconciles :
    (repository : Repository) (base : List QueueAttempt) (state : TransactionState)
    → Ready base state
    → LockedReconciles repository base state
unfolding reconcile_locked_product
locked-LockedReconciles repository base state v =
    let limit = length state.attempts * 2 + 1 in
    let r = reconcile_bounded repository limit base state v in
    let p =
      subst (Holds (SameProduct state)) r.returns (reconciled-SameProduct repository limit state) in
    record {
      result = r.result.state;
      returns = rw r.returns refl;
      ready = r.ready;
      id = p.0;
      stock = p.1;
    }
