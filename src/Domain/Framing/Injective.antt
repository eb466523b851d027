-- ===== src/Domain/Framing/Injective.antt =====
-- How the framing of fields separates them (internal/pkg/domain/payment.go, queue_attempt.go).
use good_queue.Base.{
  ℕ, ◌/◌, ◌%◌, ◌≤◌, ◌≡◌, refl, sym, ap, ◌∙◌, List, [], ◌∷◌, ◌++◌, arith, Bytes, length, inl, inr,
}
use good_queue.Domain.Errors.{ok, Result-cases}
use good_queue.Domain.Framing.{max_uint32, put_uint32, frame_field, frame_fields}

-- Two numbers of 32 bits with the same four bytes are equal.
put_uint32-digits :
    (a b : ℕ)
    → a ≤ max_uint32
    → b ≤ max_uint32
    → a / 16777216 % 256 ≡ b / 16777216 % 256
    → a / 65536 % 256 ≡ b / 65536 % 256
    → a / 256 % 256 ≡ b / 256 % 256
    → a % 256 ≡ b % 256
    → a ≡ b
put_uint32-digits a b ha hb e1 e2 e3 e4 = omega arith

append-cancel :
    (xs ys s t : Bytes) → length xs ≡ length ys → xs ++ s ≡ ys ++ t → (xs ≡ ys) × (s ≡ t)
append-cancel [] [] s t n e = (refl, e)
append-cancel [] (y ∷ ys) s t n e = ground arith
append-cancel (x ∷ xs) [] s t n e = ground arith
append-cancel (x ∷ xs) (y ∷ ys) s t n e = ground (arith, append-cancel xs ys s t)

-- A field that is framed, and what it is framed to.
frame_field-ok :
    (field head : Bytes)
    → frame_field field ≡ ok head
    → (length field ≤ max_uint32) × (head ≡ put_uint32 (length field) ++ field)
unfolding frame_field
frame_field-ok field head h = ground arith

frame_fields-ok :
    (field : Bytes) (fields : List Bytes) (framed : Bytes)
    → frame_fields (field ∷ fields) ≡ ok framed
    → (rest : Bytes) × (length field ≤ max_uint32)
      × (frame_fields fields ≡ ok rest)
      × (framed ≡ put_uint32 (length field) ++ field ++ rest)
unfolding frame_fields
frame_fields-ok field fields framed h = elim (Result-cases (frame_field field)) [
  | inr (e, bad) ↦ let h' = rw bad at h in ground arith
  | inl (head, good) ↦
      let h' = rw good at h in
      let f = frame_field-ok field head good in
      elim (Result-cases (frame_fields fields)) [
        | inr (e, bad) ↦ let h'' = rw bad at h' in ground arith
        | inl (rest, good') ↦
            let h'' = rw good' at h' in
            let joined : head ++ rest ≡ framed = ground arith in
            (rest, f.0, good', sym joined ∙ ap (λ b. b ++ rest) f.1)
      ]
]

put_uint32-cancel :
    (a b : ℕ) (s t : Bytes)
    → a ≤ max_uint32
    → b ≤ max_uint32
    → put_uint32 a ++ s ≡ put_uint32 b ++ t
    → (a ≡ b) × (s ≡ t)
unfolding put_uint32
put_uint32-cancel a b s t ha hb e = ground (arith, put_uint32-digits a b ha hb)

-- Fields whose framing succeeds with the same bytes are the same fields, however many there are:
-- what the canonical hashes feed to sha256 says where each field ends.
pub frame_fields-injective :
    (fields others : List Bytes) (framed : Bytes)
    → frame_fields fields ≡ ok framed
    → frame_fields others ≡ ok framed
    → fields ≡ others
unfolding frame_fields put_uint32
frame_fields-injective [] [] framed h h' = refl
frame_fields-injective [] (o ∷ others) framed h h' =
    let f = frame_fields-ok o others framed h' in ground arith
frame_fields-injective (f ∷ fields) [] framed h h' =
    let g = frame_fields-ok f fields framed h in ground arith
frame_fields-injective (f ∷ fields) (o ∷ others) framed h h' =
    let a = frame_fields-ok f fields framed h in
    let b = frame_fields-ok o others framed h' in
    let c = put_uint32-cancel (length f) (length o) (f ++ a.0) (o ++ b.0) a.1 b.1 (sym a.3 ∙ b.3) in
    let d = append-cancel f o a.0 b.0 c.0 c.1 in
    let ih = frame_fields-injective fields others a.0 a.2 (b.2 ∙ ap ok (sym d.1)) in cc
