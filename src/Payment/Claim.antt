-- ===== src/Payment/Claim.antt =====
-- ClaimPayment, RetryPaymentClaim, and the checks of a claim
-- (internal/repository/postgres/payment.go).
use good_queue.Base.{
  ℕ, ◌+◌, Bool, true, false, ◌&&◌, not, Option, none, some, [], ◌∷◌, ltb, ◌==◌, if◌then◌else◌,
  Bytes, bytes_eq, codes, count_where,
}
use good_queue.Domain.{Error, wrapped, joined, Sentinel, Result, ok, err, ◌>>=◌, ◌>>◌, guard}
use good_queue.Domain.Payment.{PaymentOutcome, PaymentCommand, Text, canonical_payment_hash}
use good_queue.Store.Rows.{update_rows, find_row}
use good_queue.Store.Tables.{Database, InboxRow, InboxStatus, inbox_key}
use good_queue.Queue.Repository.{Repository}
use good_queue.Queue.Lookup.{find_first}

-- paymentClaimLease and paymentRetryBackoff, in nanoseconds.
abbrev pub payment_claim_lease : ℕ
payment_claim_lease = 30000000000

abbrev pub payment_retry_backoff : ℕ
payment_retry_backoff = 5000000000

pub record PaymentResult : Type 0 where
  pub inbox_id : ℕ
  pub code : Bytes
  pub http_status : ℕ
  pub replayed : Bool

pub record PaymentClaim : Type 0 where
  pub inbox_id : ℕ
  pub token : ℕ
  pub generation : ℕ
  pub payload_hash : ℕ
  pub command : PaymentCommand

-- Exactly one of the two fields of the source's struct is set.
pub data PaymentClaimResult : Type 0 where
  claimed : PaymentClaim → PaymentClaimResult
  responded : PaymentResult → PaymentClaimResult

abbrev pub payment_result : ℕ → ℕ → Bytes → Bool → PaymentResult
payment_result inbox_id status code replayed = record {
  inbox_id = inbox_id;
  code = code;
  http_status = status;
  replayed = replayed;
}

-- replayStoredPayment
abbrev pub replay_stored_payment : InboxRow → PaymentResult
replay_stored_payment row =
    payment_result row.id (elim row.response_status [ none ↦ 0 | some s ↦ s ]) row.response_code
      true

-- nullablePaymentReference
abbrev pub nullable_payment_reference : PaymentCommand → Option Bytes
nullable_payment_reference command = elim command.outcome [
  | PaymentOutcome.payment_failed ↦ none
  | PaymentOutcome.payment_succeeded ↦ some command.payment_reference
]

-- The row that INSERT makes, with the defaults of the schema.
abbrev pub received_row : ℕ → ℕ → ℕ → PaymentCommand → InboxRow
received_row id now digest command = record {
  id = id;
  provider = command.provider;
  event_id = command.event_id;
  attempt_id = command.attempt_id;
  outcome = command.outcome;
  payment_reference = nullable_payment_reference command;
  payload = command;
  payload_hash = digest;
  status = InboxStatus.received;
  attempt_count = 0;
  next_attempt_at = now;
  lease_until = none;
  claim_token = none;
  claim_generation = 0;
  response_status = none;
  response_code = [];
  completed_at = none;
  updated_at = now;
}

-- lockStoredPayment
unfoldable pub find_stored_payment : Database → Bytes → Bytes → Option InboxRow
find_stored_payment db provider event_id =
    find_first (λ row. bytes_eq row.provider provider && bytes_eq row.event_id event_id) db.inbox

-- INSERT … ON CONFLICT (provider,event_id) DO NOTHING
unfoldable pub insert_received : Repository → ℕ → ℕ → PaymentCommand → Database → Database
insert_received repository now digest command db =
    let numbered = record db { issued = db.issued + 1 } in
    elim (find_stored_payment db command.provider command.event_id) [
      | some row ↦ numbered
      | none ↦ record numbered {
        inbox = received_row (repository.uuid_new db.issued) now digest command ∷ db.inbox;
      }
    ]

abbrev pub within_lease : ℕ → Option ℕ → Bool
within_lease now none = false
within_lease now (some until) = ltb now until

-- The lease that makes a claim: the UPDATE, and the claim that it returns.
unfoldable pub lease_payment :
    Repository
    → ℕ
    → ℕ
    → PaymentCommand
    → InboxRow
    → Database
    → Result (PaymentClaimResult × Database)
lease_payment repository now digest command row db =
    let hit = λ (r : InboxRow). r.id == row.id && r.payload_hash == digest in
    let token = repository.uuid_new db.issued in
    do
      guard (count_where hit db.inbox == 1) (wrapped Sentinel.conflict)
      ok (
        claimed (record {
          inbox_id = row.id;
          token = token;
          generation = row.claim_generation + 1;
          payload_hash = digest;
          command = command;
        }),
        record db {
          inbox =
              update_rows hit
                (λ r. record r {
                  status = InboxStatus.processing;
                  claim_token = some token;
                  claim_generation = row.claim_generation + 1;
                  lease_until = some (now + payment_claim_lease);
                  attempt_count = r.attempt_count + 1;
                  updated_at = now;
                })
                db.inbox;
          issued = db.issued + 1;
        },
      )

abbrev pub is_finished : InboxStatus → Bool
is_finished InboxStatus.completed = true
is_finished InboxStatus.rejected = true
is_finished _ = false

-- A lease that runs, or a retry whose time has not come.
abbrev pub is_busy : ℕ → InboxRow → Bool
is_busy now row = elim row.status [
  | InboxStatus.processing ↦ within_lease now row.lease_until
  | InboxStatus.retry ↦ ltb now row.next_attempt_at
  | _ ↦ false
]

-- What is done with the locked row.
unfoldable pub claim_stored :
    Repository
    → ℕ
    → ℕ
    → PaymentCommand
    → InboxRow
    → Database
    → Result (PaymentClaimResult × Database)
claim_stored repository now digest command row db =
    if not (row.payload_hash == digest)
    then ok (responded (payment_result row.id 409 (codes "event_conflict") false), db)
    else if is_finished row.status
    then ok (responded (replay_stored_payment row), db)
    else if is_busy now row
    then ok (responded (payment_result row.id 202 (codes "processing") false), db)
    else lease_payment repository now digest command row db

abbrev pub committed {ℓ} : {A : Type ℓ} → Database → Result (A × Database) → Result A × Database
committed db (ok (a, db')) = (ok a, db')
committed db (err e) = (err e, db)

unfoldable pub claim_with_digest :
    Repository → ℕ → ℕ → PaymentCommand → Database → Result PaymentClaimResult × Database
claim_with_digest repository now digest command db =
    let db' = insert_received repository now digest command db in
    elim (find_stored_payment db' command.provider command.event_id) [
      | none ↦ (err Error.no_rows, db)
      | some row ↦ committed db (claim_stored repository now digest command row db')
    ]

unfoldable pub claim_payment :
    Repository → Text → ℕ → PaymentCommand → Database → Result PaymentClaimResult × Database
claim_payment repository text now command db = elim (canonical_payment_hash text command) [
  | err e ↦ (err e, db)
  | ok digest ↦ claim_with_digest repository now digest command db
]

abbrev pub token_is : Option ℕ → ℕ → Bool
token_is none token = false
token_is (some t) token = t == token

abbrev pub is_processing : InboxStatus → Bool
is_processing InboxStatus.processing = true
is_processing _ = false

-- WHERE id AND status='processing' AND claim_token AND claim_generation
abbrev pub holds_lease : PaymentClaim → InboxRow → Bool
holds_lease claim row =
    row.id == claim.inbox_id
    && (is_processing row.status
        && (token_is row.claim_token claim.token && row.claim_generation == claim.generation))

unfoldable pub retry_payment_claim : ℕ → PaymentClaim → Database → Result (Unit {0}) × Database
retry_payment_claim now claim db =
    if count_where (holds_lease claim) db.inbox == 1
    then (
      ok tt,
      record db {
        inbox =
            update_rows (holds_lease claim)
              (λ r. record r {
                status = InboxStatus.retry;
                next_attempt_at = now + payment_retry_backoff;
                lease_until = none;
                claim_token = none;
                updated_at = now;
              })
              db.inbox;
      },
    )
    else (err (wrapped Sentinel.stale_claim), db)

-- paymentClaimIntegrityError
abbrev pub payment_claim_integrity_error : Error
payment_claim_integrity_error =
    joined (wrapped Sentinel.internal) (wrapped Sentinel.payment_claim_integrity)

-- validatePaymentClaim
unfoldable pub validate_payment_claim : Text → PaymentClaim → Result PaymentClaim
validate_payment_claim text claim = do
  digest ← canonical_payment_hash text claim.command
  guard (digest == claim.payload_hash) payment_claim_integrity_error
  ok claim

abbrev pub outcome_eq : PaymentOutcome → PaymentOutcome → Bool
outcome_eq PaymentOutcome.payment_succeeded PaymentOutcome.payment_succeeded = true
outcome_eq PaymentOutcome.payment_failed PaymentOutcome.payment_failed = true
outcome_eq _ _ = false

-- Two canonical JSON objects are the same bytes when their fields agree.
unfoldable pub payload_eq : PaymentCommand → PaymentCommand → Bool
payload_eq a b =
    bytes_eq a.provider b.provider
    && (bytes_eq a.event_id b.event_id
        && (a.attempt_id == b.attempt_id
            && (outcome_eq a.outcome b.outcome
                && bytes_eq a.payment_reference b.payment_reference)))

abbrev pub reference_is : Option Bytes → Bytes → Bool
reference_is none reference = false
reference_is (some stored) reference = bytes_eq stored reference

-- storedPaymentReferenceMatches
unfoldable pub stored_payment_reference_matches : Option Bytes → PaymentCommand → Bool
stored_payment_reference_matches stored command = elim command.outcome [
  | PaymentOutcome.payment_failed ↦ elim stored [ none ↦ true | some r ↦ false ]
  | PaymentOutcome.payment_succeeded ↦ reference_is stored command.payment_reference
]

abbrev pub fields_match : InboxRow → PaymentCommand → Bool
fields_match row command =
    bytes_eq row.provider command.provider
    && (bytes_eq row.event_id command.event_id
        && (row.attempt_id == command.attempt_id
            && (outcome_eq row.outcome command.outcome
                && stored_payment_reference_matches row.payment_reference command)))

-- lockAndValidatePaymentClaim
unfoldable pub lock_and_validate_payment_claim : Database → PaymentClaim → Result (Unit {0})
lock_and_validate_payment_claim db claim = elim (find_row inbox_key claim.inbox_id db.inbox) [
  | none ↦ err Error.no_rows
  | some row ↦ (do
    guard
        (is_processing row.status
          && (token_is row.claim_token claim.token && row.claim_generation == claim.generation))
        (wrapped Sentinel.stale_claim)
    guard (row.payload_hash == claim.payload_hash) payment_claim_integrity_error
    guard (payload_eq row.payload claim.command) payment_claim_integrity_error
    guard (fields_match row claim.command) payment_claim_integrity_error)
]
