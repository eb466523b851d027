-- ===== src/Queue/Current/Sound.antt =====
-- FindCurrent (internal/repository/postgres/queue_attempt.go) on a consistent database.
use good_queue.Base.{ℕ, List, Option-cases, inl, inr}
use good_queue.Domain.{ProductId, ExternalUserId, ◌>>=◌}
use good_queue.Store.Tables.{Database}
use good_queue.Queue.Repository.{Repository, TransactionState}
use good_queue.Queue.Current.{find_current, find_current_operation, current_attempt}
use good_queue.Queue.Keeps.{Keeps, with_locked_product-Consistent, locked-LockedReconciles}
use good_queue.Queue.Invariant.Ready.{Ready}
use good_queue.Queue.Invariant.Loading.{Consistent, Ready-Consistent}

find_current_operation-Keeps :
    (repository : Repository) (user : ExternalUserId) (base : List _) (state : TransactionState)
    → Ready base state
    → Keeps (find_current_operation repository user state)
unfolding find_current_operation
find_current_operation-Keeps repository user base state v =
    let r = locked-LockedReconciles repository base state v in
    let kept = Ready-Consistent base r.result r.ready in
    elim (Option-cases (current_attempt r.result.attempts user)) [
      | inl e ↦ rw (r.returns, find_current_operation) (rw (e, ◌>>=◌) kept)
      | inr (a, e) ↦ rw (r.returns, find_current_operation) (rw (e, ◌>>=◌) kept)
    ]

pub find_current-Consistent :
    (repository : Repository) (now : ℕ) (product_id : ProductId) (user : ExternalUserId)
    → (db : Database) → Consistent db
    → Consistent ((find_current repository now product_id user db).1)
unfolding find_current
find_current-Consistent repository now product_id user db c =
    with_locked_product-Consistent now product_id _ (find_current_operation repository user) db c
      (λ state v same. find_current_operation-Keeps repository user db.attempts state v)
