-- ===== src/Domain/Framing.antt =====
-- The length-framed byte strings that CanonicalPaymentHash and CanonicalStockAdjustmentHash feed to
-- sha256 (internal/pkg/domain/payment.go, queue_attempt.go).
pub mod Injective
use good_queue.Base.{ℕ, ◌/◌, ◌%◌, List, [], ◌∷◌, ◌++◌, ltb, if◌then◌else◌, Bytes, length}
use good_queue.Domain.Errors.{Error, Result, ok, err, ◌>>=◌}

-- math.MaxUint32
abbrev pub max_uint32 : ℕ
max_uint32 = 4294967295

-- binary.BigEndian.PutUint32 over four bytes.
unfoldable pub put_uint32 : ℕ → Bytes
put_uint32 n = n / 16777216 % 256 ∷ n / 65536 % 256 ∷ n / 256 % 256 ∷ n % 256 ∷ []

-- One turn of the loop over the fields: the length, then the bytes; too long a field is a panic.
unfoldable pub frame_field : Bytes → Result Bytes
unfolding put_uint32
frame_field field =
    if ltb max_uint32 (length field)
    then err Error.panic
    else ok (put_uint32 (length field) ++ field)

unfoldable pub frame_fields : List Bytes → Result Bytes
unfolding frame_field
frame_fields [] = ok []
frame_fields (field ∷ fields) = do
  head ← frame_field field
  tail ← frame_fields fields
  ok (head ++ tail)
