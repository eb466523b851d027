-- ===== src/Outbox/Steps.antt =====
-- The outbox from its first row on: whatever is written to it, in any order, by the queue, the payments
-- and the worker (internal/repository/postgres: notification_outbox.go, and the INSERTs of
-- queue_attempt.go and payment.go).
pub mod Changes
pub mod Runs
use good_queue.Base.{ℕ, ◌≡◌, ◌≢◌, ◌↔◌, Bool, none, List, All, Bytes}
use good_queue.Domain.{AttemptId, QueueAttempt, ok}
use good_queue.Store.Rows.{find_row, Keyed}
use good_queue.Store.Tables.{
  Database, OutboxRow, OutboxStatus, EventType, DeduplicationKey, OutboxPayload, outbox_key,
}
use good_queue.Queue.Repository.{Repository}
use good_queue.Queue.Transitions.{insert_outbox}
use good_queue.Payment.Claim.{PaymentClaim}
use good_queue.Payment.Complete.{enqueue_compensation}
use good_queue.Outbox.Claims.{
  NotificationClaim, claim_notification, mark_notification_sent, mark_notification_obsolete,
  retry_notification,
}

-- The CHECK constraints on the status of a row: a lease stands with its token and exactly in
-- processing, the time of sending exactly when sent. Every claim counts as an attempt.
pub record Checks (row : OutboxRow) : Type 0 where
  pub lease : (row.lease_until ≡ none) ↔ (row.lease_token ≡ none)
  pub processing : (row.status ≡ OutboxStatus.processing) ↔ (row.lease_until ≢ none)
  pub sent : (row.status ≡ OutboxStatus.sent) ↔ (row.sent_at ≢ none)
  pub counted : row.attempt_count ≡ row.lease_generation

-- What every table of the outbox satisfies: its ids are distinct, and its rows pass their checks.
pub record Sound (rows : List OutboxRow) : Type 0 where
  pub keyed : Keyed outbox_key rows
  pub checks : All Checks rows

-- One call that writes to the outbox. A new row's id is new: the primary key refuses any other.
pub data Step (repository : Repository) (db : Database) : Database → Type 0 where
  claims :
      (now lease : ℕ) (is_locked : ℕ → Bool)
      → Step repository db ((claim_notification repository now is_locked lease db).1)
  sends :
      (now : ℕ) (claim : NotificationClaim)
      → Step repository db ((mark_notification_sent now claim db).1)
  drops :
      (now : ℕ) (claim : NotificationClaim)
      → Step repository db ((mark_notification_obsolete now claim db).1)
  retries :
      (is_text : Bytes → Bool) (now base max : ℕ) (claim : NotificationClaim)
      → (publication_error : Bytes)
      → Step repository db ((retry_notification is_text now claim publication_error base max db).1)
  notifies :
      (now : ℕ) (attempt : AttemptId) (event : EventType) (key : DeduplicationKey)
      → (payload : OutboxPayload) (db' : Database)
      → find_row outbox_key (repository.uuid_new db.issued) db.outbox ≡ none
      → insert_outbox repository attempt event key payload now db ≡ ok db'
      → Step repository db db'
  compensates :
      (now : ℕ) (claim : PaymentClaim) (attempt : QueueAttempt)
      → find_row outbox_key (repository.uuid_new db.issued) db.outbox ≡ none
      → Step repository db (enqueue_compensation repository now claim attempt db)

pub data Reaches (repository : Repository) (db : Database) : Database → Type 0 where
  here : Reaches repository db db
  next :
      {mid last : Database}
      → Reaches repository db mid
      → Step repository mid last
      → Reaches repository db last
