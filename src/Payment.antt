-- ===== src/Payment.antt =====
-- internal/repository/postgres/payment.go: the payment inbox, its leases, and what an accepted or
-- failed payment does to the queue.
pub mod Claim
pub mod Leases
pub mod Replay
pub mod Fencing
pub mod Complete
pub mod Apply
pub mod Process
pub mod Sound
pub mod Flow
pub mod Whole
