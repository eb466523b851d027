-- ===== src/Worker/Delivery/Window.antt =====
-- When the worker calls the publisher (internal/worker/worker.go, deliverNotification).
use good_queue.Base.{
  ℕ, refl, Option, subst, ◌+◌, ◌≤◌, ◌<◌, ◌≡◌, Bool, true, false, none, some, arith, ltb, Bool-cases,
  Option-cases, inl, inr, Bytes, codes,
}
use good_queue.Domain.{Result, ok, err}
use good_queue.Store.Tables.{Database}
use good_queue.Outbox.Claims.{
  NotificationClaim, classify_invitation, mark_notification_obsolete, retry_notification,
}
use good_queue.Worker.{Config, Outcome}
use good_queue.Worker.Delivery.{
  Moment, finalizing, observe_finalize, observe_retry, earlier_time, publication_deadline,
  publish_notification, deliver_classified, after_classify, deliver_notification,
}

observe_finalize-published :
    (outcome : Outcome) (published : Option ℕ) (reply : Result (Unit {0}) × Database)
    → (observe_finalize outcome published reply).published ≡ published
observe_finalize-published outcome published (ok done, db) = refl
observe_finalize-published outcome published (err e, db) = refl

observe_retry-published :
    (published : Option ℕ) (reply : Result ℕ × Database)
    → (observe_retry published reply).published ≡ published
observe_retry-published published (ok backoff, db) = refl
observe_retry-published published (err e, db) = refl

-- A publication in the window that the lease leaves.
pub record InWindow (config : Config) (moment : Moment) (claim : NotificationClaim) (deadline : ℕ)
    : Type 0 where
  pub before_deadline : moment.window_clock < deadline
  pub timeout : deadline ≤ moment.deadline_clock + config.publisher_timeout
  pub lease : deadline + config.publisher_timeout ≤ claim.lease_until

publish_notification-published :
    (config : Config) (moment : Moment) (claim : NotificationClaim) (deadline : ℕ) (db : Database)
    → (publish_notification config moment claim deadline db).published ≡ some deadline
unfolding publish_notification
publish_notification-published config moment claim deadline db =
    elim (Option-cases (moment.publish deadline claim)) [
      | inl e ↦ rw (e, publish_notification) (observe_finalize-published _ _ _)
      | inr (cause, e) ↦ rw (e, publish_notification) (observe_retry-published _ _)
    ]

deadline-InWindow :
    (config : Config) (moment : Moment) (claim : NotificationClaim)
    → ltb moment.window_clock (publication_deadline config moment claim) ≡ true
    → InWindow config moment claim (publication_deadline config moment claim)
unfolding publication_deadline earlier_time
deadline-InWindow config moment claim h = record {
  before_deadline = ground arith;
  timeout = ground arith;
  lease = ground arith;
}

deliver_classified-InWindow :
    (config : Config) (moment : Moment) (claim : NotificationClaim) (obsolete : Bool)
    → (db : Database) (deadline : ℕ)
    → (deliver_classified config moment claim obsolete db).published ≡ some deadline
    → (obsolete ≡ false) × InWindow config moment claim deadline
unfolding deliver_classified
deliver_classified-InWindow config moment claim true db deadline h = ground (
  arith,
  observe_finalize-published Outcome.obsolete none
      (finalizing moment (mark_notification_obsolete moment.finalize_clock claim) db),
)
deliver_classified-InWindow config moment claim false db deadline h =
    let d = publication_deadline config moment claim in
    elim (Bool-cases (ltb moment.window_clock d)) [
      | inr w ↦
          let h' = rw w at h in
          ground (
            arith,
            observe_retry-published none (
                finalizing moment
                  (retry_notification moment.is_text moment.finalize_clock claim
                    (codes "safe publication window elapsed before publish")
                    config.outbox_retry_base config.outbox_retry_max)
                  db),
          )
      | inl w ↦
          let h' = rw w at h in
          let p = publish_notification-published config moment claim d db in
          let same : d ≡ deadline = ground arith in
          (
            refl,
            subst (InWindow config moment claim) same (deadline-InWindow config moment claim w),
          )
    ]

after_classify-InWindow :
    (config : Config) (moment : Moment) (claim : NotificationClaim) (failure : Option Bytes)
    → (db : Database) (deadline : ℕ)
    → (after_classify config moment claim failure db).published ≡ some deadline
    → (failure ≡ none)
      × (classify_invitation moment.classify_clock claim db ≡ false)
      × InWindow config moment claim deadline
unfolding after_classify
after_classify-InWindow config moment claim none db deadline h =
    let p = deliver_classified-InWindow config moment claim _ db deadline h in (refl, p.0, p.1)
after_classify-InWindow config moment claim (some cause) db deadline h = ground (
  arith,
  observe_retry-published none (
      finalizing moment
        (retry_notification moment.is_text moment.finalize_clock claim cause
          config.outbox_retry_base config.outbox_retry_max)
        db),
)

-- The publisher is called only for a notification that was classified as current without an error,
-- under a deadline that is still ahead, at most the publisher's timeout away, and at least that
-- timeout before the end of the claim's lease.
pub deliver_notification-InWindow :
    (config : Config) (moment : Moment) (claim : NotificationClaim) (db : Database) (deadline : ℕ)
    → (deliver_notification config moment claim db).published ≡ some deadline
    → (moment.classify_error ≡ none)
      × (classify_invitation moment.classify_clock claim db ≡ false)
      × InWindow config moment claim deadline
unfolding deliver_notification
deliver_notification-InWindow config moment claim db deadline h =
    after_classify-InWindow config moment claim moment.classify_error db deadline h
