-- ===== src/Outbox/Claims.antt =====
-- ClaimNotification, ClassifyInvitation, MarkNotificationSent, MarkNotificationObsolete and
-- RetryNotification (internal/repository/postgres/notification_outbox.go).
use good_queue.Base.{
  ℕ, ◌+◌, Bool, true, false, ◌&&◌, ◌||◌, not, Option, none, some, List, [], ◌∷◌, ltb, leb, ◌==◌,
  if◌then◌else◌, Bytes, codes, count_where, length, take,
}
use good_queue.Domain.{
  AttemptId, QueueAttempt, invited, state_eq, Sentinel, Error, wrapped, Result, ok, err, ◌>>◌,
}
use good_queue.Store.Rows.{update_rows}
use good_queue.Store.Tables.{
  Database, OutboxRow, OutboxStatus, EventType, DeduplicationKey, OutboxPayload, invitation_payload,
  compensation_payload,
}
use good_queue.Queue.Repository.{Repository}
use good_queue.Queue.Background.{any_of}
use good_queue.Outbox.{exponential_backoff}

-- maxOutboxErrorLength
abbrev pub max_outbox_error_length : ℕ
max_outbox_error_length = 500

-- The hash has the 32 bytes of sha256, by the schema and by scanNotificationClaim.
pub record NotificationClaim : Type 0 where
  pub id : ℕ
  pub attempt_id : Option AttemptId
  pub event_type : EventType
  pub deduplication_key : DeduplicationKey
  pub payload : OutboxPayload
  pub payload_hash : ℕ
  pub attempt_count : ℕ
  pub lease_token : ℕ
  pub lease_generation : ℕ
  pub lease_until : ℕ

-- `lease_until <= $1`, which NULL does not satisfy.
abbrev pub lease_over : ℕ → Option ℕ → Bool
lease_over now none = false
lease_over now (some until) = leb until now

-- The WHERE of the candidate.
unfoldable pub is_claimable : ℕ → OutboxRow → Bool
is_claimable now row = elim row.status [
  | OutboxStatus.pending ↦ leb row.available_at now
  | OutboxStatus.failed ↦ leb row.available_at now
  | OutboxStatus.processing ↦ lease_over now row.lease_until
  | OutboxStatus.sent ↦ false
]

-- available_at, created_at, id: the row sorts before the other.
unfoldable pub sorts_before : OutboxRow → OutboxRow → Bool
sorts_before row other =
    ltb row.available_at other.available_at
    || (row.available_at == other.available_at
        && (ltb row.created_at other.created_at
            || (row.created_at == other.created_at && ltb row.id other.id)))

-- ORDER BY … LIMIT 1, over the rows that pass.
unfoldable pub first_candidate : (OutboxRow → Bool) → List OutboxRow → Option OutboxRow
first_candidate p [] = none
first_candidate p (row ∷ rows) = elim (first_candidate p rows) [
  | none ↦ if p row then some row else none
  | some best ↦ if p row && sorts_before row best then some row else some best
]

-- The columns that the UPDATE sets.
abbrev pub leased_notification : ℕ → ℕ → ℕ → OutboxRow → OutboxRow
leased_notification now token until row = record row {
  status = OutboxStatus.processing;
  lease_token = some token;
  lease_generation = row.lease_generation + 1;
  lease_until = some until;
  attempt_count = row.attempt_count + 1;
  updated_at = now;
  last_error = none;
}

-- scanNotificationClaim, of the columns that the UPDATE returns for the candidate.
abbrev pub scan_notification_claim : ℕ → ℕ → OutboxRow → NotificationClaim
scan_notification_claim token until row = record {
  id = row.id;
  attempt_id = row.attempt_id;
  event_type = row.event_type;
  deduplication_key = row.deduplication_key;
  payload = row.payload;
  payload_hash = row.payload_hash;
  attempt_count = row.attempt_count + 1;
  lease_token = token;
  lease_generation = row.lease_generation + 1;
  lease_until = until;
}

-- FOR UPDATE SKIP LOCKED passes over the rows that `is_locked` names.
unfoldable pub claim_candidate : ℕ → (ℕ → Bool) → Database → Option OutboxRow
claim_candidate now is_locked db =
    first_candidate (λ row. is_claimable now row && not (is_locked row.id)) db.outbox

unfoldable pub claim_notification :
    Repository → ℕ → (ℕ → Bool) → ℕ → Database → Result (Option NotificationClaim) × Database
claim_notification repository now is_locked lease_duration db =
    let token = repository.uuid_new db.issued in
    let until = now + lease_duration in
    let numbered = record db { issued = db.issued + 1 } in
    if leb lease_duration 0
    then (err (wrapped Sentinel.invalid_input), db)
    else elim (claim_candidate now is_locked db) [
      | none ↦ (ok none, numbered)
      | some row ↦ (
        ok (some (scan_notification_claim token until row)),
        record numbered {
          outbox =
              update_rows (λ r. r.id == row.id) (leased_notification now token until) db.outbox;
        },
      )
    ]

-- `invitation_deadline` of the payload; a missing one is the zero time.
abbrev pub payload_deadline : OutboxPayload → ℕ
payload_deadline (invitation_payload attempt product deadline) = deadline
payload_deadline (compensation_payload inbox provider event attempt reference) = 0

abbrev pub deadline_is : Option ℕ → ℕ → Bool
deadline_is none deadline = false
deadline_is (some d) deadline = d == deadline

-- The WHERE of the EXISTS subquery.
unfoldable pub invites_until : ℕ → AttemptId → ℕ → QueueAttempt → Bool
invites_until now attempt deadline row =
    row.id == attempt
    && (state_eq row.state invited
        && (deadline_is row.invitation_deadline deadline && ltb now deadline))

-- Whether a notification is obsolete, by its type, its attempt and the deadline of its payload.
unfoldable pub is_obsolete : ℕ → EventType → Option AttemptId → ℕ → Database → Bool
is_obsolete now EventType.payment_compensation_required attempt_id deadline db = false
is_obsolete now EventType.queue_invited none deadline db = true
is_obsolete now EventType.queue_invited (some attempt) deadline db =
    if deadline == 0 then true else not (any_of (invites_until now attempt deadline) db.attempts)

unfoldable pub classify_invitation : ℕ → NotificationClaim → Database → Bool
classify_invitation now claim db =
    is_obsolete now claim.event_type claim.attempt_id (payload_deadline claim.payload) db

abbrev pub in_progress : OutboxStatus → Bool
in_progress OutboxStatus.processing = true
in_progress _ = false

abbrev pub token_matches : Option ℕ → ℕ → Bool
token_matches none token = false
token_matches (some t) token = t == token

-- WHERE id AND status='processing' AND lease_token AND lease_generation AND payload_hash
abbrev pub holds_notification : NotificationClaim → OutboxRow → Bool
holds_notification claim row =
    row.id == claim.id
    && (in_progress row.status
        && (token_matches row.lease_token claim.lease_token
            && (row.lease_generation == claim.lease_generation
                && row.payload_hash == claim.payload_hash)))

unfoldable pub stale_unless_one_row : ℕ → Result (Unit {0})
stale_unless_one_row affected =
    if affected == 0
    then err (wrapped Sentinel.stale_claim)
    else if affected == 1
    then ok tt
    else err (wrapped Sentinel.internal)

-- An UPDATE of the row that the claim holds: its count of rows decides.
unfoldable pub update_claimed :
    NotificationClaim → (OutboxRow → OutboxRow) → Database → Result (Unit {0}) × Database
update_claimed claim set db =
    let hit = holds_notification claim in
    (
      stale_unless_one_row (count_where hit db.outbox),
      record db { outbox = update_rows hit set db.outbox },
    )

abbrev pub sent_notification : ℕ → Option Bytes → OutboxRow → OutboxRow
sent_notification now last_error row = record row {
  status = OutboxStatus.sent;
  sent_at = some now;
  updated_at = now;
  lease_until = none;
  lease_token = none;
  last_error = last_error;
}

unfoldable pub finalize_notification :
    ℕ → NotificationClaim → Option Bytes → Database → Result (Unit {0}) × Database
finalize_notification now claim last_error db =
    update_claimed claim (sent_notification now last_error) db

unfoldable pub mark_notification_sent :
    ℕ → NotificationClaim → Database → Result (Unit {0}) × Database
mark_notification_sent now claim db = finalize_notification now claim none db

unfoldable pub mark_notification_obsolete :
    ℕ → NotificationClaim → Database → Result (Unit {0}) × Database
mark_notification_obsolete now claim db =
    finalize_notification now claim (some (codes "obsolete")) db

-- `publication_error` is the text of the error.
abbrev pub bounded_error : Bytes → Bytes
bounded_error publication_error =
    if ltb max_outbox_error_length (length publication_error)
    then take max_outbox_error_length publication_error
    else publication_error

abbrev pub failed_notification : ℕ → ℕ → Bytes → OutboxRow → OutboxRow
failed_notification now backoff last_error row = record row {
  status = OutboxStatus.failed;
  available_at = now + backoff;
  updated_at = now;
  lease_until = none;
  lease_token = none;
  last_error = some last_error;
}

abbrev pub delayed : ℕ → Result (Unit {0}) × Database → Result ℕ × Database
delayed backoff (outcome, db) = (outcome >> ok backoff, db)

-- `is_text` says which bytes PostgreSQL takes as TEXT: it refuses the statement when the cut error is
-- not valid UTF-8.
unfoldable pub retry_notification :
    (Bytes → Bool) → ℕ → NotificationClaim → Bytes → ℕ → ℕ → Database → Result ℕ × Database
retry_notification is_text now claim publication_error base_backoff max_backoff db =
    let backoff = exponential_backoff claim.attempt_count base_backoff max_backoff in
    if leb base_backoff 0 || ltb max_backoff base_backoff
    then (err (wrapped Sentinel.invalid_input), db)
    else if not (is_text (bounded_error publication_error))
    then (err Error.database_error, db)
    else delayed backoff (
        update_claimed claim (failed_notification now backoff (bounded_error publication_error)) db)
