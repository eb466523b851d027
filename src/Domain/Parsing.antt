-- ===== src/Domain/Parsing.antt =====
-- internal/pkg/domain: ParseIdempotencyKey and ParseStockAdjustmentCommand (queue_attempt.go) and
-- ParseExternalUserID (user_id.go).
pub mod Valid
pub mod RoundTrip
use good_queue.Base.{
  ℕ, Bool, true, false, ◌&&◌, ◌||◌, not, Option, none, some, List, [], ◌∷◌, ltb, leb, ◌==◌,
  if◌then◌else◌, Bytes, bytes_eq, length, is_empty, ℤ, pos, negsuc,
}
use good_queue.Domain.Errors.{wrapped, Sentinel, Result, ok, err}
use good_queue.Domain.Attempt.{ProductId, ExternalUserId, IdempotencyKey, StockAdjustmentCommand}
use good_queue.Domain.Payment.{Text, invalid_input_error}

-- maxIdempotencyKeyLength
abbrev pub max_idempotency_key_length : ℕ
max_idempotency_key_length = 128

-- maxExternalUserIDLength
abbrev pub max_external_user_id_length : ℕ
max_external_user_id_length = 255

-- MaxStockAdjustmentReasonLength and MaxStockAdjustmentExternalReferenceLength
abbrev pub max_stock_adjustment_reason_length : ℕ
max_stock_adjustment_reason_length = 200

abbrev pub max_stock_adjustment_external_reference_length : ℕ
max_stock_adjustment_external_reference_length = 200

abbrev between : ℕ → ℕ → ℕ → Bool
between low high c = leb low c && leb c high

-- [A-Za-z0-9]
abbrev pub is_alphanumeric : ℕ → Bool
is_alphanumeric c = between 65 90 c || between 97 122 c || between 48 57 c

-- [A-Za-z0-9._:-]
abbrev pub is_key_byte : ℕ → Bool
is_key_byte c = is_alphanumeric c || c == 46 || c == 95 || c == 58 || c == 45

abbrev pub all_bytes : (ℕ → Bool) → Bytes → Bool
all_bytes p [] = true
all_bytes p (c ∷ rest) = p c && all_bytes p rest

-- idempotencyKeyPattern.MatchString
unfoldable pub matches_key_pattern : Bytes → Bool
matches_key_pattern [] = false
matches_key_pattern (c ∷ rest) =
    is_alphanumeric c && (all_bytes is_key_byte rest && leb (length rest) 127)

unfoldable pub parse_idempotency_key : Text → Bytes → Result IdempotencyKey
parse_idempotency_key text raw =
    let trimmed = text.trim_space raw in
    if ltb max_idempotency_key_length (length trimmed) || not (matches_key_pattern trimmed)
    then err invalid_input_error
    else ok trimmed

abbrev canonical : Text → Bytes → Option ℕ → Bool
canonical text raw none = false
canonical text raw (some id) = bytes_eq (text.uuid_string id) raw

unfoldable pub parse_external_user_id : Text → Bytes → Result ExternalUserId
parse_external_user_id text raw =
    if is_empty raw || ltb max_external_user_id_length (length raw)
    then err (wrapped Sentinel.invalid_identity)
    else if not (canonical text raw (text.parse_uuid raw))
    then err (wrapped Sentinel.invalid_identity)
    else ok raw

-- `delta == 0 || delta < math.MinInt32 || delta > math.MaxInt32`
unfoldable pub delta_out_of_range : ℤ → Bool
delta_out_of_range (pos n) = n == 0 || ltb 2147483647 n
delta_out_of_range (negsuc n) = ltb 2147483647 n

abbrev bad_length : ℕ → Bytes → Bool
bad_length most field = is_empty field || ltb most (length field)

unfoldable pub parse_stock_adjustment_command :
    Text → ProductId → IdempotencyKey → ℤ → Bytes → Bytes → Result StockAdjustmentCommand
parse_stock_adjustment_command text product_id key delta reason external_reference =
    let reason' = text.trim_space reason in
    let reference' = text.trim_space external_reference in
    if delta_out_of_range delta
    then err invalid_input_error
    else if bad_length max_stock_adjustment_reason_length reason'
    then err invalid_input_error
    else if bad_length max_stock_adjustment_external_reference_length reference'
    then err invalid_input_error
    else ok (record {
      product_id = product_id;
      idempotency_key = key;
      delta = delta;
      reason = reason';
      external_reference = reference';
    })
