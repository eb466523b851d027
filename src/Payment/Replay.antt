-- ===== src/Payment/Replay.antt =====
-- Completions of a payment event and later claims of it (internal/repository/postgres/payment.go).
use good_queue.Base.{
  ℕ, ◌+◌, ◌≡◌, refl, true, false, ◌&&◌, none, some, leb, ◌==◌, if◌then◌else◌, arith, Bytes,
  bytes_eq, count_where, Bool-cases, inl, inr,
}
use good_queue.Domain.{wrapped, Sentinel, ok, err}
use good_queue.Domain.Payment.{PaymentCommand, Text, canonical_payment_hash}
use good_queue.Store.Rows.{update_rows}
use good_queue.Store.Tables.{Database, InboxRow, InboxStatus}
use good_queue.Queue.Repository.{Repository}
use good_queue.Payment.Claim.{
  PaymentResult, PaymentClaim, responded, payment_result, find_stored_payment, claim_stored,
  claim_payment, holds_lease, is_finished, replay_stored_payment,
}
use good_queue.Payment.Complete.{complete_payment}
use good_queue.Store.Rows.{count_where-hit_once}
use good_queue.Payment.Leases.{find_first-updated, claim_payment-present}

-- The columns that a completion sets.
abbrev completed_row : ℕ → ℕ → Bytes → InboxRow → InboxRow
completed_row now http_status code r = record r {
  status = if leb 400 http_status then InboxStatus.rejected else InboxStatus.completed;
  response_status = some http_status;
  response_code = code;
  completed_at = some now;
  updated_at = now;
  lease_until = none;
  claim_token = none;
}

complete_payment-returns :
    (now : ℕ) (claim : PaymentClaim) (http_status : ℕ) (code : Bytes) (db db' : Database)
    → (result : PaymentResult) → complete_payment now claim http_status code db ≡ ok (result, db')
    → record db {
      inbox = update_rows (holds_lease claim) (completed_row now http_status code) db.inbox;
    }
      ≡ db'
unfolding complete_payment
complete_payment-returns now claim http_status code db db' result h =
    elim (Bool-cases (count_where (holds_lease claim) db.inbox == 1)) [
      | inr n ↦ let h' = rw n at h in ground arith
      | inl y ↦ let h' = rw y at h in cc
    ]

completed-released :
    (now : ℕ) (claim : PaymentClaim) (http_status : ℕ) (code : Bytes) (r : InboxRow)
    → holds_lease claim (completed_row now http_status code r) ≡ false
completed-released now claim http_status code r = elim (Bool-cases (leb 400 http_status)) [
  | inl e ↦ rw e (ground arith)
  | inr e ↦ rw e (ground arith)
]

-- On the database that a completion left, a second completion under the same claim, with any answer
-- and at any time, is refused as stale.
pub complete_payment-once :
    (now now' : ℕ) (claim : PaymentClaim) (http_status http_status' : ℕ) (code code' : Bytes)
    → (db db' : Database) (result : PaymentResult)
    → complete_payment now claim http_status code db ≡ ok (result, db')
    → complete_payment now' claim http_status' code' db' ≡ err (wrapped Sentinel.stale_claim)
unfolding complete_payment
complete_payment-once now now' claim http_status http_status' code code' db db' result h =
    let e = complete_payment-returns now claim http_status code db db' result h in
    let zero_rows =
      count_where-hit_once (holds_lease claim) (completed_row now http_status code) db.inbox
        (completed-released now claim http_status code) in
    rw (← e) (rw zero_rows refl)

claim_stored-finished :
    (repository : Repository) (now digest : ℕ) (command : PaymentCommand) (row : InboxRow)
    → (db : Database) → row.payload_hash ≡ digest
    → is_finished row.status ≡ true
    → claim_stored repository now digest command row db
      ≡ ok (responded (replay_stored_payment row), db)
unfolding claim_stored
claim_stored-finished repository now digest command row db e s =
    let same : (row.payload_hash == digest) ≡ true = ground arith in rw (same, s) refl

-- A claim that holds the lease of the event's row, whose hash is that of the command, is completed
-- with an answer. On the database that this leaves, any claim of the command gets that status and
-- code, marked as a replay, and changes nothing but the number of UUIDs issued.
pub claim_payment-replays :
    (repository : Repository) (text : Text) (now now' digest : ℕ) (command : PaymentCommand)
    → (claim : PaymentClaim) (http_status : ℕ) (code : Bytes) (db db' : Database)
    → (result : PaymentResult) (row : InboxRow) → canonical_payment_hash text command ≡ ok digest
    → find_stored_payment db command.provider command.event_id ≡ some row
    → row.payload_hash ≡ digest
    → holds_lease claim row ≡ true
    → complete_payment now claim http_status code db ≡ ok (result, db')
    → claim_payment repository text now' command db' ≡ (
      ok (responded (payment_result row.id http_status code true)),
      record db' { issued = db'.issued + 1 },
    )
unfolding find_stored_payment
claim_payment-replays repository text now now' digest command claim http_status code db db' result
      row hash f same holds h =
    let e = complete_payment-returns now claim http_status code db db' result h in
    let set = completed_row now http_status code in
    let found : find_stored_payment db' command.provider command.event_id ≡ some (set row) =
      rw (← e) (
        find_first-updated
          (λ r. bytes_eq r.provider command.provider && bytes_eq r.event_id command.event_id)
          (holds_lease claim) set db.inbox row (λ r. refl) f holds) in
    let finished : is_finished (set row).status ≡ true = elim (Bool-cases (leb 400 http_status)) [
      | inl b ↦ rw b refl
      | inr b ↦ rw b refl
    ] in
    claim_payment-present repository text now' digest command db' (set row) _ hash found
      (claim_stored-finished repository now' digest command (set row) _ same finished)
