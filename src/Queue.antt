-- ===== src/Queue.antt =====
-- internal/repository/postgres/queue_attempt.go: the queue of a product, one transaction a call.
pub mod Repository
pub mod Lookup
pub mod Transaction
pub mod Transitions
pub mod Reconcile
pub mod Join
pub mod Checkout
pub mod Cancel
pub mod Current
pub mod Stock
pub mod Background
pub mod Invariant
pub mod Returns
pub mod Keeps
