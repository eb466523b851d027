-- ===== src/Payment/Complete.antt =====
-- completePayment and completeWithCompensation (internal/repository/postgres/payment.go).
use good_queue.Base.{
  ℕ, ◌+◌, false, none, some, ◌∷◌, leb, ◌==◌, if◌then◌else◌, Bytes, codes, count_where,
}
use good_queue.Domain.{QueueAttempt, wrapped, Sentinel, Result, ok, err, ◌>>=◌}
use good_queue.Store.Rows.{update_rows}
use good_queue.Store.Tables.{
  Database, InboxStatus, OutboxRow, OutboxStatus, EventType, key_eq, compensation_key,
  compensation_payload, OutboxPayload,
}
use good_queue.Queue.Repository.{Repository, TransactionState}
use good_queue.Payment.Claim.{PaymentResult, PaymentClaim, payment_result, holds_lease}

-- The response is stored with the row and returned; a row that another claim holds is stale.
unfoldable pub complete_payment :
    ℕ → PaymentClaim → ℕ → Bytes → Database → Result (PaymentResult × Database)
complete_payment now claim http_status code db =
    if count_where (holds_lease claim) db.inbox == 1
    then ok (
      payment_result claim.inbox_id http_status code false,
      record db {
        inbox =
            update_rows (holds_lease claim)
              (λ r. record r {
                status =
                    if leb 400 http_status then InboxStatus.rejected else InboxStatus.completed;
                response_status = some http_status;
                response_code = code;
                completed_at = some now;
                updated_at = now;
                lease_until = none;
                claim_token = none;
              })
              db.inbox;
      },
    )
    else err (wrapped Sentinel.stale_claim)

-- A transaction that answers with a payment result.
abbrev pub PaymentReply : Type 0
PaymentReply = PaymentResult × TransactionState

unfoldable pub complete_in : TransactionState → PaymentClaim → ℕ → Bytes → Result PaymentReply
complete_in state claim http_status code = do
  (result, tx') ← complete_payment state.now claim http_status code state.tx
  ok (result, record state { tx = tx' })

-- INSERT … ON CONFLICT (deduplication_key) DO NOTHING
unfoldable pub enqueue_compensation :
    Repository → ℕ → PaymentClaim → QueueAttempt → Database → Database
enqueue_compensation repository now claim attempt db =
    let key = compensation_key claim.inbox_id in
    let payload : OutboxPayload =
      compensation_payload claim.inbox_id claim.command.provider claim.command.event_id
        claim.command.attempt_id claim.command.payment_reference in
    let row : OutboxRow = record {
      id = repository.uuid_new db.issued;
      attempt_id = some attempt.id;
      event_type = EventType.payment_compensation_required;
      deduplication_key = key;
      payload = payload;
      payload_hash = repository.payload_sum payload;
      status = OutboxStatus.pending;
      attempt_count = 0;
      available_at = now;
      lease_until = none;
      lease_token = none;
      lease_generation = 0;
      created_at = now;
      updated_at = now;
      sent_at = none;
      last_error = none;
    } in
    if count_where (λ r. key_eq r.deduplication_key key) db.outbox == 0
    then record db { outbox = row ∷ db.outbox; issued = db.issued + 1 }
    else record db { issued = db.issued + 1 }

unfoldable pub complete_with_compensation :
    Repository → TransactionState → PaymentClaim → QueueAttempt → Result PaymentReply
complete_with_compensation repository state claim attempt =
    complete_in
      (record state { tx = enqueue_compensation repository state.now claim attempt state.tx }) claim
      200 (codes "compensation_required")
