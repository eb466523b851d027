-- ===== src/Queue/Returns.antt =====
-- Operations that return on a ready transaction, and what withLockedProduct then does.
use good_queue.Base.{ℕ, ◌+◌, ◌≡◌, refl, some, List, length, ◌*◌}
use good_queue.Domain.{QueueAttempt, Result, ok}
use good_queue.Store.Rows.{find_row}
use good_queue.Store.Tables.{Database, ProductRow, product_key}
use good_queue.Queue.Repository.{Repository, TransactionState, AttemptLockScope}
use good_queue.Queue.Transaction.{with_locked_product}
use good_queue.Queue.Reconcile.{reconcile_locked_product}
use good_queue.Queue.Reconcile.Succeeds.{reconcile-Reconciles}
use good_queue.Queue.Invariant.Ready.{Ready}
use good_queue.Queue.Invariant.Loading.{Consistent, begun, Ready-Consistent, lock_product-found}

-- Reconciliation without a limit on a ready state: it returns, and the state is ready again.
pub reconcile_locked_product-Ready :
    (repository : Repository) (base : List QueueAttempt) (state : TransactionState)
    → Ready base state
    → (state' : TransactionState) × (reconcile_locked_product repository state ≡ ok state')
      × Ready base state'
unfolding reconcile_locked_product
reconcile_locked_product-Ready repository base state v =
    let r = reconcile-Reconciles repository (length state.attempts * 2 + 1) base state v in
    (r.result.state, rw r.returns refl, r.ready)

-- An operation on a ready transaction has returned and left a consistent database.
pub record Returns {ℓ} {A : Type ℓ} (outcome : Result (A × TransactionState)) : Type ℓ where
  pub value : A
  pub state : TransactionState
  pub returns : outcome ≡ ok (value, state)
  pub consistent : Consistent state.tx

-- An operation that returns at once.
pub at_once {ℓ} :
    {A : Type ℓ} (base : List QueueAttempt) (state : TransactionState) (value : A)
    → Ready base state
    → Returns (ok (value, state))
at_once base state value v = record {
  value = value;
  state = state;
  returns = refl;
  consistent = Ready-Consistent base state v;
}

-- An operation under withLockedProduct, on a consistent database that has the product.
pub locked-Returns {ℓ} :
    {A : Type ℓ} (now : ℕ) (row : ProductRow) (scope : AttemptLockScope)
    → (operation : TransactionState → Result (A × TransactionState)) (db : Database)
    → find_row product_key row.id db.products ≡ some row
    → (r : Returns (operation (begun db row now scope)))
    → with_locked_product now row.id scope operation db ≡ (ok r.value, r.state.tx)
unfolding with_locked_product
locked-Returns now row scope operation db f r =
    rw (lock_product-found db row f, with_locked_product) (rw r.returns refl)
