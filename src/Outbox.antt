-- ===== src/Outbox.antt =====
-- internal/repository/postgres/notification_outbox.go: exponentialBackoff, the delay before the next
-- try of a notification. Durations are nanoseconds; the count of attempts is never negative.
pub mod Backoff
pub mod Claims
pub mod Leases
pub mod Fencing
pub mod Steps
pub mod Invitations
use good_queue.Base.{ℕ, ◌-◌, ◌*◌, ◌/◌, ◌^◌, ◌||◌, min, ltb, leb, if◌then◌else◌}

unfoldable pub exponential_backoff : ℕ → ℕ → ℕ → ℕ
exponential_backoff attempt_count base_backoff max_backoff =
    let exponent = attempt_count - 1 in
    if leb attempt_count 1
    then base_backoff
    else if leb 63 exponent || ltb (max_backoff / 2 ^ min exponent 62) base_backoff
    then max_backoff
    else min (base_backoff * 2 ^ exponent) max_backoff
