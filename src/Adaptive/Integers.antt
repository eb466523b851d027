-- ===== src/Adaptive/Integers.antt =====
-- boundedStep and clamp, on integers (internal/adaptivequeue/controller.go).
use good_queue.Base.{
  ℕ, ◌+◌, ◌≤◌, ◌≡◌, refl, true, false, ℤ, pos, negsuc, ltb, ◌%◌, pos_part, neg_part, sub_ℕ, ◌≤ℤ◌,
  ◌+ℤ◌, ◌-ℤ◌, arith, inl, inr, ltb_ℤ, Bool-cases,
}
use good_queue.Adaptive.{wrap_int, bounded_step, clamp}

-- The difference that sub_ℕ stands for.
sub_ℕ-parts : (a b : ℕ) → pos_part (sub_ℕ a b) + b ≡ a + neg_part (sub_ℕ a b)
sub_ℕ-parts a b = ground arith

pub plus_parts :
    (a b : ℤ)
    → pos_part (a +ℤ b) + (neg_part a + neg_part b) ≡ pos_part a + pos_part b + neg_part (a +ℤ b)
unfolding ◌+ℤ◌
plus_parts a b = sub_ℕ-parts (pos_part a + pos_part b) (neg_part a + neg_part b)

pub minus_parts :
    (a b : ℤ)
    → pos_part (a -ℤ b) + (neg_part a + pos_part b) ≡ pos_part a + neg_part b + neg_part (a -ℤ b)
unfolding ◌-ℤ◌
minus_parts a b = sub_ℕ-parts (pos_part a + neg_part b) (neg_part a + pos_part b)

ltb_ℤ-true : (a b : ℤ) → ltb_ℤ a b ≡ true → pos_part a + neg_part b + 1 ≤ pos_part b + neg_part a
ltb_ℤ-true a b h = ground arith

ltb_ℤ-false : (a b : ℤ) → ltb_ℤ a b ≡ false → pos_part b + neg_part a ≤ pos_part a + neg_part b
ltb_ℤ-false a b h = ground arith

-- An int.
abbrev pub IsInt : ℤ → Type 0
IsInt z = (negsuc 9223372036854775807 ≤ℤ z) × (z ≤ℤ pos 9223372036854775807)

wrap_int-small : (z : ℤ) → IsInt z → wrap_int z ≡ z
unfolding wrap_int
wrap_int-small (pos n) h =
    let small : ltb n 9223372036854775808 ≡ true = ground (arith, h.1) in
    let same : n % 18446744073709551616 ≡ n = omega (arith, h.1) in rw (same, small) refl
wrap_int-small (negsuc n) h =
    let small : ltb n 9223372036854775808 ≡ true = ground (arith, h.0) in
    let same : n % 18446744073709551616 ≡ n = omega (arith, h.0) in rw (same, small) refl

pub bounded_step-near :
    (current target step : ℤ)
    → pos 0 ≤ℤ step
    → IsInt (current +ℤ step)
    → IsInt (current -ℤ step)
    → (current -ℤ step ≤ℤ bounded_step current target step)
      × (bounded_step current target step ≤ℤ current +ℤ step)
unfolding bounded_step
bounded_step-near current target step h iu id =
    rw (wrap_int-small (current +ℤ step) iu, wrap_int-small (current -ℤ step) id)
      (let p = plus_parts current step in
        let m = minus_parts current step in
        elim (Bool-cases (ltb_ℤ (current +ℤ step) target)) [
          | inl e ↦ rw e (omega (arith, p, m), omega (arith, p, m))
          | inr e ↦ elim (Bool-cases (ltb_ℤ target (current -ℤ step))) [
            | inl e' ↦ rw (e, e') (omega (arith, p, m), omega (arith, p, m))
            | inr e' ↦
                let lo = ltb_ℤ-false (current +ℤ step) target e in
                let hi = ltb_ℤ-false target (current -ℤ step) e' in
                rw (e, e') (omega (arith, p, m, lo, hi), omega (arith, p, m, lo, hi))
          ]
        ])

-- Between the old value and the target.
pub bounded_step-between :
    (current target step low high : ℤ)
    → pos 0 ≤ℤ step
    → IsInt (current +ℤ step)
    → IsInt (current -ℤ step)
    → low ≤ℤ current
    → current ≤ℤ high
    → low ≤ℤ target
    → target ≤ℤ high
    → (low ≤ℤ bounded_step current target step) × (bounded_step current target step ≤ℤ high)
unfolding bounded_step
bounded_step-between current target step low high h iu id lc ch lt th =
    rw (wrap_int-small (current +ℤ step) iu, wrap_int-small (current -ℤ step) id)
      (let p = plus_parts current step in
        let m = minus_parts current step in
        elim (Bool-cases (ltb_ℤ (current +ℤ step) target)) [
          | inl e ↦
              let lo = ltb_ℤ-true (current +ℤ step) target e in
              rw e (omega (arith, p, m, lo), omega (arith, p, m, lo))
          | inr e ↦ elim (Bool-cases (ltb_ℤ target (current -ℤ step))) [
            | inl e' ↦
                let hi = ltb_ℤ-true target (current -ℤ step) e' in
                rw (e, e') (omega (arith, p, m, hi), omega (arith, p, m, hi))
            | inr e' ↦ rw (e, e') (lt, th)
          ]
        ])

pub clamp-range :
    (value low high : ℤ)
    → low ≤ℤ high
    → (low ≤ℤ clamp value low high) × (clamp value low high ≤ℤ high)
unfolding clamp
clamp-range value low high h = elim (Bool-cases (ltb_ℤ value low)) [
  | inl e ↦ rw e (omega arith, h)
  | inr e ↦ elim (Bool-cases (ltb_ℤ high value)) [
    | inl e' ↦ rw (e, e') (h, omega arith)
    | inr e' ↦
        let lo = ltb_ℤ-false value low e in
        let hi = ltb_ℤ-false high value e' in rw (e, e') (omega (arith, lo), omega (arith, hi))
  ]
]
