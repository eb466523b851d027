-- ===== src/Domain/Payment.antt =====
-- internal/pkg/domain/payment.go: the payment command, its parsing and its canonical hash.
use good_queue.Base.{
  ℕ, not, Option, none, some, List, [], ◌∷◌, ltb, if◌then◌else◌, Bytes, bytes_eq, codes, length,
  is_empty,
}
use good_queue.Domain.Errors.{Error, wrapped, Sentinel, Result, ok, err, ◌>>=◌, ◌>>◌, guard}
use good_queue.Domain.Attempt.{AttemptId}
use good_queue.Domain.Framing.{frame_fields}

pub data PaymentOutcome : Type 0 where
  payment_succeeded payment_failed : PaymentOutcome

-- MaxPaymentProviderLength, MaxPaymentEventIDLength, MaxPaymentReferenceLength
abbrev pub max_payment_provider_length : ℕ
max_payment_provider_length = 64

abbrev pub max_payment_event_id_length : ℕ
max_payment_event_id_length = 200

abbrev pub max_payment_reference_length : ℕ
max_payment_reference_length = 200

pub record PaymentCommand : Type 0 where
  pub provider : Bytes
  pub event_id : Bytes
  pub attempt_id : AttemptId
  pub outcome : PaymentOutcome
  pub payment_reference : Bytes

-- strings.TrimSpace, strings.ToLower, uuid.Parse, UUID.String and sha256.
pub record Text : Type 0 where
  pub trim_space : Bytes → Bytes
  pub to_lower : Bytes → Bytes
  pub parse_uuid : Bytes → Option ℕ
  pub uuid_string : ℕ → Bytes
  pub sha256 : Bytes → ℕ

abbrev pub invalid_input_error : Error
invalid_input_error = wrapped Sentinel.invalid_input

-- normalizeRequiredPaymentField
unfoldable pub normalize_required_payment_field : Text → Bytes → ℕ → Result Bytes
normalize_required_payment_field text value max_length =
    let normalized = text.trim_space value in
    do
      guard (not (is_empty normalized)) invalid_input_error
      guard (not (ltb max_length (length normalized))) invalid_input_error
      ok normalized

-- ParseAttemptID
unfoldable pub parse_attempt_id : Text → Bytes → Result AttemptId
parse_attempt_id text raw = elim (text.parse_uuid raw) [
  | none ↦ err invalid_input_error
  | some id ↦ ok id
]

unfoldable pub outcome_text : PaymentOutcome → Bytes
outcome_text PaymentOutcome.payment_succeeded = codes "succeeded"
outcome_text PaymentOutcome.payment_failed = codes "failed"

unfoldable pub parse_outcome : Text → Bytes → Result PaymentOutcome
parse_outcome text raw =
    let normalized = text.to_lower (text.trim_space raw) in
    if bytes_eq normalized (outcome_text PaymentOutcome.payment_succeeded)
    then ok PaymentOutcome.payment_succeeded
    else if bytes_eq normalized (outcome_text PaymentOutcome.payment_failed)
    then ok PaymentOutcome.payment_failed
    else err invalid_input_error

-- A failed payment has no reference; a succeeded one needs one.
unfoldable pub normalize_reference : Text → PaymentOutcome → Bytes → Result Bytes
normalize_reference text PaymentOutcome.payment_failed raw = ok []
normalize_reference text PaymentOutcome.payment_succeeded raw =
    let normalized = text.trim_space raw in
    do
      guard (not (is_empty normalized)) invalid_input_error
      guard (not (ltb max_payment_reference_length (length normalized))) invalid_input_error
      ok normalized

unfoldable pub parse_payment_command :
    Text → Bytes → Bytes → Bytes → Bytes → Bytes → Result PaymentCommand
parse_payment_command text provider event_id attempt_id outcome payment_reference = do
  provider' ← normalize_required_payment_field text provider max_payment_provider_length
  event_id' ← normalize_required_payment_field text event_id max_payment_event_id_length
  attempt_id' ← parse_attempt_id text (text.trim_space attempt_id)
  outcome' ← parse_outcome text outcome
  reference' ← normalize_reference text outcome' payment_reference
  ok (record {
    provider = provider';
    event_id = event_id';
    attempt_id = attempt_id';
    outcome = outcome';
    payment_reference = reference';
  })

-- The fields that CanonicalPaymentHash frames, in order.
unfoldable pub canonical_payment_fields : Text → PaymentCommand → List Bytes
canonical_payment_fields text command =
    codes "v1"
    ∷ command.provider
    ∷ command.event_id
    ∷ text.to_lower (text.uuid_string command.attempt_id)
    ∷ outcome_text command.outcome
    ∷ command.payment_reference
    ∷ []

unfoldable pub canonical_payment_hash : Text → PaymentCommand → Result ℕ
canonical_payment_hash text command = do
  framed ← frame_fields (canonical_payment_fields text command)
  ok (text.sha256 framed)
