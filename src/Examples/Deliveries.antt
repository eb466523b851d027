-- ===== src/Examples/Deliveries.antt =====
-- The theorems on notifications and on the worker at concrete inputs.
use good_queue.Domain.Parsing.{all_bytes}
use good_queue.Base.{
  Bytes, ltb, ◌&&◌, ℕ, ◌≡◌, ◌≢◌, refl, Bool, false, none, some, [], ◌∷◌, codes, arith,
}
use good_queue.Domain.{ok, err, QueueAttempt, QueueAttemptState, state_eq}
use good_queue.Store.Rows.{update_rows, find_row}
use good_queue.Store.Tables.{
  Database, OutboxRow, OutboxStatus, EventType, invited_key, invitation_payload, outbox_key,
  update_attempt, require_one_row,
}
use good_queue.Queue.Transitions.{promote_waiting_attempt, insert_outbox}
use good_queue.Outbox.{exponential_backoff}
use good_queue.Outbox.Claims.{
  NotificationClaim, claim_notification, claim_candidate, first_candidate, is_claimable,
  sorts_before, finalize_notification, update_claimed, mark_notification_sent, retry_notification,
  stale_unless_one_row,
}
use good_queue.Outbox.Leases.{
  ClaimsEarliest, claim_notification-exclusive, claim_notification-ClaimsEarliest,
}
use good_queue.Outbox.Fencing.{
  Refused, Scheduled, claim_notification-fences, mark_notification_sent-once,
  retry_notification-Scheduled,
}
use good_queue.Outbox.Steps.{Sound, here, next, claims, sends}
use good_queue.Outbox.Steps.Runs.{new_row-Checks, Reaches-Sound, sent-kept, sent-unclaimed}
use good_queue.Outbox.Invitations.{Announced, promote_waiting_attempt-Announced}
use good_queue.Examples.Fixture.{repository, busy_database, attempt}

abbrev pub notification : ℕ → ℕ → OutboxRow
notification id at = record {
  id = id;
  attempt_id = some 2;
  event_type = EventType.queue_invited;
  deduplication_key = invited_key 2 id;
  payload = invitation_payload 2 7 90;
  payload_hash = 0;
  status = OutboxStatus.pending;
  attempt_count = 0;
  available_at = at;
  lease_until = none;
  lease_token = none;
  lease_generation = 0;
  created_at = at;
  updated_at = at;
  sent_at = none;
  last_error = none;
}

abbrev pub unlocked : ℕ → Bool
unlocked id = false

-- Two notifications, of which the second was there first.
abbrev pub two_notifications : Database
two_notifications = record busy_database { outbox = notification 201 10 ∷ notification 200 5 ∷ [] }

abbrev pub first_claim : NotificationClaim
first_claim = record {
  id = 200;
  attempt_id = some 2;
  event_type = EventType.queue_invited;
  deduplication_key = invited_key 2 200;
  payload = invitation_payload 2 7 90;
  payload_hash = 0;
  attempt_count = 1;
  lease_token = 100;
  lease_generation = 1;
  lease_until = 120;
}

abbrev other_claim : NotificationClaim
other_claim = record first_claim {
  id = 201;
  deduplication_key = invited_key 2 201;
  lease_token = 101;
  lease_until = 130;
}

-- The same notification, claimed again after the lease.
abbrev second_claim : NotificationClaim
second_claim = record first_claim {
  attempt_count = 2;
  lease_token = 101;
  lease_generation = 2;
  lease_until = 300;
}

abbrev pub claimed : Database
claimed = (claim_notification repository 20 unlocked 100 two_notifications).1

abbrev both_claimed : Database
both_claimed = (claim_notification repository 30 unlocked 100 claimed).1

abbrev reclaimed : Database
reclaimed = (claim_notification repository 200 unlocked 100 claimed).1

abbrev delivered : Database
delivered = (mark_notification_sent 40 first_claim claimed).1

-- What PostgreSQL takes as text in any encoding.
abbrev pub is_ascii : Bytes → Bool
is_ascii text = all_bytes (λ c. ltb 0 c && ltb c 128) text

pub first_run :
    claim_notification repository 20 unlocked 100 two_notifications
    ≡ (ok (some first_claim), claimed)
unfolding claim_notification claim_candidate first_candidate is_claimable sorts_before
first_run = refl

other_run :
    claim_notification repository 30 unlocked 100 claimed ≡ (ok (some other_claim), both_claimed)
unfolding claim_notification claim_candidate first_candidate is_claimable sorts_before update_rows
other_run = refl

second_run :
    claim_notification repository 200 unlocked 100 claimed ≡ (ok (some second_claim), reclaimed)
unfolding claim_notification claim_candidate first_candidate is_claimable sorts_before update_rows
second_run = refl

delivered_run : mark_notification_sent 40 first_claim claimed ≡ (ok tt, delivered)
unfolding claim_notification claim_candidate first_candidate is_claimable sorts_before update_rows
    mark_notification_sent finalize_notification update_claimed stale_unless_one_row
delivered_run = refl

pub two_notifications-Sound : Sound two_notifications.outbox
unfolding find_row
two_notifications-Sound = record {
  keyed = (refl, (refl, tt));
  checks = (
    new_row-Checks (notification 201 10) refl refl refl refl refl refl,
    (new_row-Checks (notification 200 5) refl refl refl refl refl refl, tt),
  );
}

pub claimed-Sound : Sound claimed.outbox
claimed-Sound =
    Reaches-Sound repository two_notifications claimed two_notifications-Sound
      (next here (claims 20 100 unlocked))

delivered-Sound : Sound delivered.outbox
delivered-Sound =
    Reaches-Sound repository claimed delivered claimed-Sound (next here (sends 40 first_claim))

claim_notification-exclusive_example : other_claim.id ≢ first_claim.id
claim_notification-exclusive_example =
    claim_notification-exclusive repository 20 30 100 100 unlocked unlocked two_notifications
      claimed both_claimed first_claim other_claim first_run two_notifications-Sound.keyed
      (omega arith) other_run

claim_notification-ClaimsEarliest_example :
    ClaimsEarliest 20 120 unlocked two_notifications claimed first_claim
claim_notification-ClaimsEarliest_example =
    claim_notification-ClaimsEarliest repository 20 100 unlocked two_notifications claimed
      first_claim first_run two_notifications-Sound.keyed

claim_notification-fences_example :
    Refused is_ascii 210 5 50 (codes "timeout") first_claim reclaimed
claim_notification-fences_example =
    claim_notification-fences repository is_ascii 200 210 100 5 50 unlocked (codes "timeout")
      claimed reclaimed second_claim first_claim second_run claimed-Sound.keyed refl (omega arith)
      (omega arith) (omega arith)

mark_notification_sent-once_example :
    Refused is_ascii 50 5 50 (codes "timeout") first_claim delivered
mark_notification_sent-once_example =
    mark_notification_sent-once is_ascii 40 50 5 50 (codes "timeout") first_claim claimed delivered
      delivered_run (omega arith) (omega arith)

retry_notification-Scheduled_example :
    ((retry_notification is_ascii 40 first_claim (codes "timeout") 5 50 claimed).0
      ≡ ok (exponential_backoff 1 5 50))
    × Scheduled 40
        (exponential_backoff 1 5 50)
        200
        (retry_notification is_ascii 40 first_claim (codes "timeout") 5 50 claimed).1
retry_notification-Scheduled_example =
    retry_notification-Scheduled repository is_ascii 20 40 100 5 50 unlocked (codes "timeout")
      two_notifications claimed first_claim first_run two_notifications-Sound.keyed refl
      (omega arith) (omega arith)

Reaches-Sound_example : Sound delivered.outbox
Reaches-Sound_example =
    Reaches-Sound repository two_notifications delivered two_notifications-Sound
      (next (next here (claims 20 100 unlocked)) (sends 40 first_claim))

abbrev sent_row : OutboxRow
sent_row = record (notification 200 5) {
  status = OutboxStatus.sent;
  attempt_count = 1;
  lease_generation = 1;
  updated_at = 40;
  sent_at = some 40;
}

abbrev later : Database
later = (claim_notification repository 200 unlocked 100 delivered).1

later_found : find_row outbox_key 200 delivered.outbox ≡ some sent_row
unfolding find_row claim_notification claim_candidate first_candidate is_claimable sorts_before
    update_rows mark_notification_sent finalize_notification update_claimed
later_found = refl

sent-kept_example : find_row outbox_key 200 later.outbox ≡ some sent_row
sent-kept_example =
    sent-kept repository delivered later delivered-Sound (next here (claims 200 100 unlocked)) 200
      sent_row later_found refl

abbrev third_claim : NotificationClaim
third_claim = record other_claim { lease_until = 300 }

sent-unclaimed_example : third_claim.id ≢ sent_row.id
unfolding claim_notification claim_candidate first_candidate is_claimable sorts_before update_rows
    mark_notification_sent finalize_notification update_claimed
sent-unclaimed_example =
    sent-unclaimed repository delivered delivered later delivered-Sound here 200 sent_row
      later_found refl 200 100 unlocked third_claim refl

abbrev waiting_attempt : QueueAttempt
waiting_attempt = attempt 3 QueueAttemptState.waiting none

abbrev promoted : Database
promoted = elim (promote_waiting_attempt repository 50 waiting_attempt busy_database) [
  | err e ↦ busy_database
  | ok (a, db) ↦ db
]

abbrev promoted_attempt : QueueAttempt
promoted_attempt = record waiting_attempt {
  state = QueueAttemptState.invited;
  invited_at = some 50;
  invitation_deadline = some 80;
  updated_at = 50;
  version = 2;
}

promote_waiting_attempt-Announced_example : Announced repository 50 busy_database promoted
unfolding find_row promote_waiting_attempt insert_outbox update_attempt require_one_row update_rows
    state_eq
promote_waiting_attempt-Announced_example =
    promote_waiting_attempt-Announced repository 50 waiting_attempt promoted_attempt busy_database
      promoted refl (refl, (refl, (refl, (refl, tt)))) refl refl
