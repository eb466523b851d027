-- ===== src/Store/Tables.antt =====
-- The tables of migrations/00005_two_stage_queue_foundation.sql, as far as the repositories read
-- them, and the guarded UPDATE of one attempt. A transaction works on a value `Database` and is
-- rolled back by dropping it. The texts of errors and JSON bodies are kept as data.
use good_queue.Base.{ℕ, Bool, false, ◌&&◌, Option, List, ◌==◌, if◌then◌else◌, Bytes, ℤ, count_where}
use good_queue.Domain.{
  AttemptId, ProductId, QueueAttempt, QueueAttemptState, state_eq, Sentinel, wrapped, Result, ok,
  err, IdempotencyKey, ◌>>◌,
}
use good_queue.Domain.Payment.{PaymentOutcome, PaymentCommand}
use good_queue.Store.Rows.{update_rows}

pub record ProductRow : Type 0 where
  pub id : ProductId
  pub allocatable_stock : ℕ
  pub reserved : ℕ
  pub next_queue_sequence : ℕ
  pub queue_enabled : Bool
  pub updated_at : ℕ

-- `"queue.invited:<attempt>:v<version>"` and `"payment.compensation:<inbox>"`.
pub data DeduplicationKey : Type 0 where
  invited_key : AttemptId → ℕ → DeduplicationKey
  compensation_key : ℕ → DeduplicationKey

abbrev pub key_eq : DeduplicationKey → DeduplicationKey → Bool
key_eq (invited_key a v) (invited_key b w) = a == b && v == w
key_eq (invited_key a v) (compensation_key j) = false
key_eq (compensation_key i) (invited_key b w) = false
key_eq (compensation_key i) (compensation_key j) = i == j

-- The JSON objects that the outbox carries.
pub data OutboxPayload : Type 0 where
  invitation_payload : AttemptId → ProductId → ℕ → OutboxPayload
  compensation_payload : ℕ → Bytes → Bytes → AttemptId → Bytes → OutboxPayload

pub data OutboxStatus : Type 0 where
  pending processing sent failed : OutboxStatus

pub data EventType : Type 0 where
  queue_invited payment_compensation_required : EventType

pub record OutboxRow : Type 0 where
  pub id : ℕ
  pub attempt_id : Option AttemptId
  pub event_type : EventType
  pub deduplication_key : DeduplicationKey
  pub payload : OutboxPayload
  pub payload_hash : ℕ
  pub status : OutboxStatus
  pub attempt_count : ℕ
  pub available_at : ℕ
  pub lease_until : Option ℕ
  pub lease_token : Option ℕ
  pub lease_generation : ℕ
  pub created_at : ℕ
  pub updated_at : ℕ
  pub sent_at : Option ℕ
  pub last_error : Option Bytes

-- `payload` is the canonical JSON object, whose fields are those of the command; the body of a
-- response is its code.
pub data InboxStatus : Type 0 where
  received processing retry completed rejected : InboxStatus

pub record InboxRow : Type 0 where
  pub id : ℕ
  pub provider : Bytes
  pub event_id : Bytes
  pub attempt_id : AttemptId
  pub outcome : PaymentOutcome
  pub payment_reference : Option Bytes
  pub payload : PaymentCommand
  pub payload_hash : ℕ
  pub status : InboxStatus
  pub attempt_count : ℕ
  pub next_attempt_at : ℕ
  pub lease_until : Option ℕ
  pub claim_token : Option ℕ
  pub claim_generation : ℕ
  pub response_status : Option ℕ
  pub response_code : Bytes
  pub completed_at : Option ℕ
  pub updated_at : ℕ

pub data AdjustmentBody : Type 0 where
  applied_body : ℕ → ℕ → AdjustmentBody
  rejected_body : Sentinel → AdjustmentBody

pub record AdjustmentRow : Type 0 where
  pub id : ℕ
  pub product_id : ProductId
  pub adjustment_key : IdempotencyKey
  pub delta : ℤ
  pub payload_hash : ℕ
  pub applied : Bool
  pub stock_before : Option ℕ
  pub stock_after : Option ℕ
  pub response_status : ℕ
  pub response_body : AdjustmentBody
  pub completed_at : ℕ

-- `issued` counts the calls of uuid.New so far.
pub record Database : Type 0 where
  pub products : List ProductRow
  pub attempts : List QueueAttempt
  pub outbox : List OutboxRow
  pub inbox : List InboxRow
  pub adjustments : List AdjustmentRow
  pub issued : ℕ

abbrev pub attempt_key : QueueAttempt → ℕ
attempt_key a = a.id

abbrev pub inbox_key : InboxRow → ℕ
inbox_key row = row.id

abbrev pub outbox_key : OutboxRow → ℕ
outbox_key row = row.id

abbrev pub product_key : ProductRow → ℕ
product_key p = p.id

-- `WHERE id=… AND state=… AND version=…`
abbrev pub attempt_hit : AttemptId → QueueAttemptState → ℕ → QueueAttempt → Bool
attempt_hit id state version row =
    row.id == id && (state_eq row.state state && row.version == version)

-- requireOneRow
unfoldable pub require_one_row : ℕ → Result (Unit {0})
require_one_row affected = if affected == 1 then ok tt else err (wrapped Sentinel.conflict)

-- The UPDATE of queue_attempts that every transition makes, and its requireOneRow, where the CHECK
-- constraints on the times of the new row hold. A row that breaks one is an error of PostgreSQL, and
-- the transaction is rolled back.
unfoldable pub update_attempt :
    AttemptId → QueueAttemptState → ℕ → (QueueAttempt → QueueAttempt) → Database → Result Database
unfolding require_one_row
update_attempt id state version set db =
    require_one_row (count_where (attempt_hit id state version) db.attempts)
    >> ok (record db { attempts = update_rows (attempt_hit id state version) set db.attempts })
