-- ===== src/Worker/Delivery.antt =====
-- internal/worker/worker.go, deliverNotification and outboxCycle, over the outbox repository and any publisher.
pub mod Settled
pub mod Window
pub mod Drained
use good_queue.Base.{
  ℕ, zero, suc, ◌+◌, ◌-◌, Bool, true, false, not, Option, none, some, List, [], ◌∷◌, ltb,
  if◌then◌else◌, Bytes, codes,
}
use good_queue.Domain.{Error, Result, ok, err}
use good_queue.Store.Tables.{Database}
use good_queue.Queue.Repository.{Repository}
use good_queue.Outbox.Claims.{
  NotificationClaim, claim_notification, classify_invitation, mark_notification_sent,
  mark_notification_obsolete, retry_notification,
}
use good_queue.Worker.{Config, CycleOutcome, Outcome, stale_outcome}

-- What one delivery finds around it: the clocks as they are read in turn, the rows that others lock,
-- what other clients commit before the finalization or the retry, an error of the database in the
-- classification or in the finalization, which then has no effect, the bytes that PostgreSQL takes as
-- TEXT, and the publisher, which is given the deadline of its context. Of the error of a classification or
-- of a publication only the text counts.
pub record Moment : Type 0 where
  pub claim_clock : ℕ
  pub is_locked : ℕ → Bool
  pub classify_clock : ℕ
  pub classify_error : Option Bytes
  pub deadline_clock : ℕ
  pub window_clock : ℕ
  pub publish : ℕ → NotificationClaim → Option Bytes
  pub meanwhile : Database → Database
  pub finalize_error : Option Error
  pub finalize_clock : ℕ
  pub is_text : Bytes → Bool

-- The observed outcome, the deadline under which the publisher was called, and the database.
pub record Delivery : Type 0 where
  pub outcome : Outcome
  pub published : Option ℕ
  pub db : Database

abbrev pub unless_failed {ℓ} :
    {A : Type ℓ} → Option Error → (Database → Result A × Database) → Database → Result A × Database
unless_failed none call db = call db
unless_failed (some e) call db = (err e, db)

-- A finalization or a retry, after what others have committed.
unfoldable pub finalizing {ℓ} :
    {A : Type ℓ} → Moment → (Database → Result A × Database) → Database → Result A × Database
finalizing moment call db = unless_failed moment.finalize_error call (moment.meanwhile db)

-- observeFinalize
abbrev pub observe_finalize : Outcome → Option ℕ → Result (Unit {0}) × Database → Delivery
observe_finalize outcome published (ok done, db) = record {
  outcome = outcome;
  published = published;
  db = db;
}
observe_finalize outcome published (err e, db) = record {
  outcome = stale_outcome e;
  published = published;
  db = db;
}

abbrev pub observe_retry : Option ℕ → Result ℕ × Database → Delivery
observe_retry published (ok backoff, db) = record {
  outcome = Outcome.retry;
  published = published;
  db = db;
}
observe_retry published (err e, db) = record {
  outcome = stale_outcome e;
  published = published;
  db = db;
}

-- retryNotification
abbrev pub retried : Config → Moment → NotificationClaim → Bytes → Option ℕ → Database → Delivery
retried config moment claim cause published db = observe_retry published (
    finalizing moment
      (retry_notification moment.is_text moment.finalize_clock claim cause config.outbox_retry_base
        config.outbox_retry_max)
      db)

unfoldable pub earlier_time : ℕ → ℕ → ℕ
earlier_time first second = if ltb first second then first else second

unfoldable pub publication_deadline : Config → Moment → NotificationClaim → ℕ
publication_deadline config moment claim =
    earlier_time (moment.deadline_clock + config.publisher_timeout)
      (claim.lease_until - config.publisher_timeout)

-- The call of the publisher and what follows.
unfoldable pub publish_notification : Config → Moment → NotificationClaim → ℕ → Database → Delivery
publish_notification config moment claim deadline db = elim (moment.publish deadline claim) [
  | some cause ↦ retried config moment claim cause (some deadline) db
  | none ↦
      observe_finalize Outcome.sent (some deadline)
        (finalizing moment (mark_notification_sent moment.finalize_clock claim) db)
]

unfoldable pub deliver_classified : Config → Moment → NotificationClaim → Bool → Database → Delivery
deliver_classified config moment claim obsolete db =
    let deadline = publication_deadline config moment claim in
    if obsolete
    then observe_finalize Outcome.obsolete none
        (finalizing moment (mark_notification_obsolete moment.finalize_clock claim) db)
    else if not (ltb moment.window_clock deadline)
    then retried config moment claim (codes "safe publication window elapsed before publish") none
        db
    else publish_notification config moment claim deadline db

-- What follows ClassifyInvitation, by its error.
unfoldable pub after_classify :
    Config → Moment → NotificationClaim → Option Bytes → Database → Delivery
after_classify config moment claim (some cause) db = retried config moment claim cause none db
after_classify config moment claim none db =
    deliver_classified config moment claim (classify_invitation moment.classify_clock claim db) db

unfoldable pub deliver_notification : Config → Moment → NotificationClaim → Database → Delivery
deliver_notification config moment claim db =
    after_classify config moment claim moment.classify_error db

pub record OutboxCycle : Type 0 where
  pub outcome : CycleOutcome
  pub observed : List Outcome
  pub db : Database

abbrev pub closed : Bool → Bool → List Outcome → Database → OutboxCycle
closed immediate failed observed db = record {
  outcome = record { immediate = immediate; failed = failed };
  observed = observed;
  db = db;
}

abbrev pub with_observed : List Outcome → OutboxCycle → OutboxCycle
with_observed observed cycle = record {
  outcome = cycle.outcome;
  observed = observed;
  db = cycle.db;
}

-- What is done with the reply of ClaimNotification, before the loop goes on with `next`.
unfoldable pub after_claim :
    Config
    → Moment
    → (Database → OutboxCycle)
    → Result (Option NotificationClaim) × Database
    → OutboxCycle
after_claim config moment next (err e, db) = closed false true (Outcome.claim_error ∷ []) db
after_claim config moment next (ok none, db) = closed false false (Outcome.empty ∷ []) db
after_claim config moment next (ok (some claim), db) =
    let delivery = deliver_notification config moment claim db in
    let rest = next delivery.db in
    with_observed (Outcome.claimed ∷ delivery.outcome ∷ rest.observed) rest

-- `alive n` is `ctx.Err() == nil` at the n-th test; `moments n` surrounds the n-th item.
module _ (repository : Repository) (config : Config) (alive : ℕ → Bool) (moments : ℕ → Moment) where
  unfoldable pub outbox_from : ℕ → ℕ → Database → OutboxCycle
  outbox_from zero item db = closed (alive item) false [] db
  outbox_from (suc left) item db =
      let next = outbox_from left (item + 1) in
      let moment = moments item in
      if alive item
      then after_claim config moment next (
          claim_notification repository moment.claim_clock moment.is_locked
            config.outbox_lease_duration db)
      else closed false false [] db

  unfoldable pub outbox_cycle : Database → OutboxCycle
  outbox_cycle db = outbox_from config.max_outbox_items 0 db
