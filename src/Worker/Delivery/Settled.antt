-- ===== src/Worker/Delivery/Settled.antt =====
-- What a delivery leaves of the notification that was claimed for it (internal/worker/worker.go,
-- deliverNotification).
use good_queue.Base.{
  ℕ, ◌≤◌, ◌<◌, ◌≡◌, refl, subst, Bool, true, false, Option, none, some, arith, ltb, Bytes,
  count_where, List, codes, Bool-cases, Option-cases, inl, inr,
}
use good_queue.Domain.{Error, errors_is, Result, ok, err}
use good_queue.Store.Rows.{find_row, Keyed}
use good_queue.Store.Tables.{Database, OutboxRow, OutboxStatus, outbox_key}
use good_queue.Outbox.{exponential_backoff}
use good_queue.Outbox.Claims.{
  NotificationClaim, update_claimed, holds_notification, bounded_error, classify_invitation,
  finalize_notification, mark_notification_sent, mark_notification_obsolete, retry_notification,
  sent_notification,
}
use good_queue.Outbox.Fencing.{
  held_row, update_claimed-stale, update_claimed-held, Scheduled, retry_notification-held,
  retry_notification-stale, retry_notification-unwritten,
}
use good_queue.Worker.{Config, Outcome, stale_outcome}
use good_queue.Worker.Delivery.{
  Moment, Delivery, finalizing, unless_failed, observe_finalize, observe_retry, retried,
  publication_deadline, publish_notification, deliver_classified, after_classify,
  deliver_notification,
}

-- Why a delivery is retried: the classification failed, the publication had no safe window, or the
-- publisher failed.
pub data Cause (config : Config) (moment : Moment) (c : NotificationClaim) : Bytes → Type 0 where
  of_classification :
      (text : Bytes) → moment.classify_error ≡ some text → Cause config moment c text
  of_window :
      ltb moment.window_clock (publication_deadline config moment c) ≡ false
      → Cause config moment c (codes "safe publication window elapsed before publish")
  of_publisher :
      (deadline : ℕ) (text : Bytes)
      → moment.publish deadline c ≡ some text
      → Cause config moment c text

-- The ends of a delivery, on the database that it starts from: dropped as obsolete without a
-- publication; delivered after the publisher returned without an error; left to be claimed again from
-- the end of its backoff on; or not finished, with the database as other clients left it, since the
-- lease was lost to one of them, since the database failed, or since the error of the delivery is not a
-- text that PostgreSQL takes.
pub data Settled (config : Config) (moment : Moment) (c : NotificationClaim) (db : Database)
    (d : Delivery) : Type 0 where
  dropped :
      (row : OutboxRow)
      → d.outcome ≡ Outcome.obsolete
      → d.published ≡ none
      → moment.classify_error ≡ none
      → classify_invitation moment.classify_clock c db ≡ true
      → find_row outbox_key c.id d.db.outbox ≡ some row
      → row.status ≡ OutboxStatus.sent
      → row.last_error ≡ some (codes "obsolete")
      → Settled config moment c db d
  delivered :
      (row : OutboxRow) (deadline : ℕ)
      → d.outcome ≡ Outcome.sent
      → d.published ≡ some deadline
      → moment.publish deadline c ≡ none
      → find_row outbox_key c.id d.db.outbox ≡ some row
      → row.status ≡ OutboxStatus.sent
      → row.last_error ≡ none
      → Settled config moment c db d
  postponed :
      (cause : Bytes)
      → Cause config moment c cause
      → d.outcome ≡ Outcome.retry
      → Scheduled moment.finalize_clock
          (exponential_backoff c.attempt_count config.outbox_retry_base config.outbox_retry_max)
          c.id
          d.db
      → Settled config moment c db d
  overtaken :
      d.outcome ≡ Outcome.stale_claim
      → d.db ≡ moment.meanwhile db
      → count_where (holds_notification c) (moment.meanwhile db).outbox ≡ 0
      → Settled config moment c db d
  failed :
      (e : Error)
      → moment.finalize_error ≡ some e
      → d.outcome ≡ stale_outcome e
      → d.db ≡ moment.meanwhile db
      → Settled config moment c db d
  unwritten :
      (cause : Bytes)
      → Cause config moment c cause
      → d.outcome ≡ Outcome.error
      → d.db ≡ moment.meanwhile db
      → moment.is_text (bounded_error cause) ≡ false
      → Settled config moment c db d

-- The configuration that the backoff accepts.
pub record RetryConfig (config : Config) : Type 0 where
  pub positive : 0 < config.outbox_retry_base
  pub ordered : config.outbox_retry_base ≤ config.outbox_retry_max

observe_retry-ok :
    (published : Option ℕ) (reply : Result ℕ × Database) (backoff : ℕ)
    → reply.0 ≡ ok backoff
    → ((observe_retry published reply).outcome ≡ Outcome.retry)
      × (reply.1 ≡ (observe_retry published reply).db)
observe_retry-ok published (ok b, db) backoff h = (refl, refl)
observe_retry-ok published (err e, db) backoff h = ground arith

module _ (config : Config) (valid : RetryConfig config) (moment : Moment) (c : NotificationClaim)
    (db : Database) (k : Keyed outbox_key (moment.meanwhile db).outbox) where
  finalizing-Settled {ℓ} :
      {A : Type ℓ} (call : Database → Result A × Database)
      (observe : Result A × Database → Delivery)
      → ((e : Error)
          → moment.finalize_error ≡ some e
          → Settled config moment c db (observe (err e, moment.meanwhile db)))
      → Settled config moment c db (observe (call (moment.meanwhile db)))
      → Settled config moment c db (observe (finalizing moment call db))
  unfolding finalizing
  finalizing-Settled call observe bad good = by_error moment.finalize_error refl
    where
      by_error :
          (failure : Option Error)
          → moment.finalize_error ≡ failure
          → Settled config moment c db (observe (unless_failed failure call (moment.meanwhile db)))
      by_error none e = good
      by_error (some x) e = bad x e

  -- What a retry leaves when the database does not fail.
  retry-Settled :
      (cause : Bytes) (published : Option ℕ)
      → Cause config moment c cause
      → Settled config moment c db (
          observe_retry published (
            retry_notification moment.is_text moment.finalize_clock c cause config.outbox_retry_base
              config.outbox_retry_max
              (moment.meanwhile db)))
  unfolding stale_outcome errors_is
  retry-Settled cause published why =
      let base = config.outbox_retry_base in
      let top = config.outbox_retry_max in
      let after = moment.meanwhile db in
      let reply = retry_notification moment.is_text moment.finalize_clock c cause base top after in
      elim (Bool-cases (moment.is_text (bounded_error cause))) [
        | inr t ↦
            rw
              (retry_notification-unwritten moment.is_text moment.finalize_clock base top cause c
                after t valid.positive valid.ordered)
              (unwritten cause why refl refl t)
        | inl t ↦ elim (held_row c after.outbox k) [
          | inl z ↦
              rw
                (retry_notification-stale moment.is_text moment.finalize_clock base top cause c
                  after t valid.positive valid.ordered z)
                (overtaken refl refl z)
          | inr (row, found, held) ↦
              let r =
                retry_notification-held moment.is_text moment.finalize_clock base top cause c after
                  row k found held t valid.positive valid.ordered in
              let o = observe_retry-ok published reply _ r.0 in
              postponed cause why o.0 (
                subst
                  (Scheduled moment.finalize_clock (exponential_backoff c.attempt_count base top)
                    c.id)
                  o.1 r.1)
        ]
      ]

  retried-Settled :
      (cause : Bytes) (published : Option ℕ)
      → Cause config moment c cause
      → Settled config moment c db (retried config moment c cause published db)
  retried-Settled cause published why =
      finalizing-Settled _ (observe_retry published) (λ e f. failed e f refl refl)
        (retry-Settled cause published why)

  -- What a finalization leaves when the database does not fail.
  update-Settled :
      (outcome : Outcome) (published : Option ℕ) (set : OutboxRow → OutboxRow)
      → ((r : OutboxRow) → (set r).id ≡ r.id)
      → ((row : OutboxRow) (rows : List OutboxRow)
          → find_row outbox_key c.id rows ≡ some (set row)
          → Settled config moment c db (record {
            outcome = outcome;
            published = published;
            db = record (moment.meanwhile db) { outbox = rows };
          }))
      → Settled config moment c db
          (observe_finalize outcome published (update_claimed c set (moment.meanwhile db)))
  unfolding stale_outcome errors_is
  update-Settled outcome published set stays done =
      let after = moment.meanwhile db in
      elim (held_row c after.outbox k) [
        | inl z ↦ rw (update_claimed-stale c set after z) (overtaken refl refl z)
        | inr (row, found, held) ↦
            let u = update_claimed-held c after row k found held set stays in
            rw (u.1) (done row u.0 u.2)
      ]

  published-Settled :
      (deadline : ℕ) → Settled config moment c db (publish_notification config moment c deadline db)
  unfolding publish_notification mark_notification_sent finalize_notification
  published-Settled deadline = elim (Option-cases (moment.publish deadline c)) [
    | inr (cause, e) ↦
        rw (e, publish_notification)
          (retried-Settled cause (some deadline) (of_publisher deadline cause e))
    | inl e ↦
        rw (e, publish_notification)
          (finalizing-Settled _ (observe_finalize Outcome.sent (some deadline))
            (λ x f. failed x f refl refl)
            (update-Settled Outcome.sent (some deadline)
              (sent_notification moment.finalize_clock none) (λ r. refl)
              (λ row rows g. delivered _ deadline refl refl e g refl refl)))
  ]

  classified-Settled :
      (obsolete : Bool)
      → moment.classify_error ≡ none
      → classify_invitation moment.classify_clock c db ≡ obsolete
      → Settled config moment c db (deliver_classified config moment c obsolete db)
  unfolding deliver_classified mark_notification_obsolete finalize_notification
  classified-Settled true n o =
      finalizing-Settled _ (observe_finalize Outcome.obsolete none) (λ x f. failed x f refl refl)
        (update-Settled Outcome.obsolete none
          (sent_notification moment.finalize_clock (some (codes "obsolete"))) (λ r. refl)
          (λ row rows g. dropped _ refl refl n o g refl refl))
  classified-Settled false n o =
      let deadline = publication_deadline config moment c in
      elim (Bool-cases (ltb moment.window_clock deadline)) [
        | inl e ↦ rw e (published-Settled deadline)
        | inr e ↦ rw e (
            retried-Settled (codes "safe publication window elapsed before publish") none
              (of_window e))
      ]

  after_classify-Settled :
      (failure : Option Bytes)
      → moment.classify_error ≡ failure
      → Settled config moment c db (after_classify config moment c failure db)
  unfolding after_classify
  after_classify-Settled none e = classified-Settled _ e refl
  after_classify-Settled (some cause) e = retried-Settled cause none (of_classification cause e)

  -- With a valid configuration of the backoff, and other clients that keep the ids of the outbox unique,
  -- a delivery of any claim ends in one of six ways. It is dropped after it was classified as
  -- obsolete, and never published; marked sent after the publisher returned without an error; or
  -- scheduled for a retry since the classification, the window or the publisher failed. Else it changes nothing: it is stale and no row is held by the claim any more,
  -- or the database fails, or that failure is not a text that PostgreSQL takes.
  pub deliver_notification-Settled :
      Settled config moment c db (deliver_notification config moment c db)
  unfolding deliver_notification
  deliver_notification-Settled = after_classify-Settled moment.classify_error refl
