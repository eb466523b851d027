-- ===== src/Queue/Repository.antt =====
-- The receiver of the repository's methods and the state of one transaction
-- (internal/repository/postgres/queue_attempt.go, QueueAttemptRepository and transactionState).
use good_queue.Base.{ℕ, Bool, List, Bytes, ℤ, codes}
use good_queue.Domain.{
  AttemptId, ProductId, ExternalUserId, IdempotencyKey, QueueAttempt, Sentinel, Error, wrapped,
}
use good_queue.Store.Tables.{Database, OutboxPayload}

-- The configuration, and the functions of other packages that the methods call: the n-th value of
-- uuid.New, UUID.String, strings.TrimSpace, strings.ToLower, strconv.FormatInt, sha256.Sum256, and sha256 over
-- json.Marshal of a notification. Durations
-- are nanoseconds; `waiting_buffer_percent` is what the percent source returns during the call.
pub record Repository : Type 0 where
  pub invitation_ttl : ℕ
  pub checkout_ttl : ℕ
  pub waiting_buffer_percent : ℤ
  pub uuid_new : ℕ → ℕ
  pub uuid_string : ℕ → Bytes
  pub trim_space : Bytes → Bytes
  pub to_lower : Bytes → Bytes
  pub format_int : ℤ → Bytes
  pub sha256 : Bytes → ℕ
  pub payload_sum : OutboxPayload → ℕ

abbrev pub terminal_invite_expired : Bytes
terminal_invite_expired = codes "invite_expired"

abbrev pub terminal_checkout_expired : Bytes
terminal_checkout_expired = codes "checkout_expired"

abbrev pub terminal_sold_out : Bytes
terminal_sold_out = codes "sold_out"

abbrev pub terminal_cancelled : Bytes
terminal_cancelled = codes "cancelled"

pub record LockedProduct : Type 0 where
  pub id : ProductId
  pub allocatable_stock : ℕ
  pub reserved : ℕ
  pub next_queue_sequence : ℕ
  pub queue_enabled : Bool

-- `tx` is the database as this transaction sees it.
pub record TransactionState : Type 0 where
  pub tx : Database
  pub product : LockedProduct
  pub now : ℕ
  pub attempts : List QueueAttempt

pub record AttemptLockScope : Type 0 where
  pub external_user_id : ExternalUserId
  pub idempotency_key : IdempotencyKey
  pub attempt_id : AttemptId
  pub include_latest_for_user : Bool

abbrev pub reserved_invariant_error : Error
reserved_invariant_error = wrapped Sentinel.reserved_invariant
