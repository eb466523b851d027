-- ===== src/Worker.antt =====
-- internal/worker/worker.go: the supervisor of the reconciliation and of the outbox. Its two loops share
-- the configuration, the outcome of a cycle and what happens between two cycles.
pub mod Reconciliation
pub mod Delivery
use good_queue.Base.{ℕ, Bool, true, false, ◌&&◌, not, if◌then◌else◌}
use good_queue.Domain.{Sentinel, Error, errors_is}

-- Durations are nanoseconds and the counts are not negative.
pub record Config : Type 0 where
  pub interval : ℕ
  pub reconciliation_batch_size : ℕ
  pub max_reconciled_products : ℕ
  pub max_outbox_items : ℕ
  pub outbox_lease_duration : ℕ
  pub outbox_retry_base : ℕ
  pub outbox_retry_max : ℕ
  pub publisher_timeout : ℕ

pub record CycleOutcome : Type 0 where
  pub immediate : Bool
  pub failed : Bool

-- The outcomes that the observer is told.
pub data Outcome : Type 0 where
  success empty claimed obsolete sent retry claim_error stale_claim error : Outcome

unfoldable pub stale_outcome : Error → Outcome
stale_outcome e = if errors_is e Sentinel.stale_claim then stale_claim else error

-- What runLoop does after a cycle; `alive` is `ctx.Err() == nil`.
pub data AfterCycle : Type 0 where
  stop again wait : AfterCycle

unfoldable pub after_cycle : Bool → CycleOutcome → AfterCycle
after_cycle alive outcome =
    if not alive then stop else if outcome.immediate && not outcome.failed then again else wait
