-- ===== src/Outbox/Backoff.antt =====
-- The values of exponentialBackoff (internal/repository/postgres/notification_outbox.go).
use good_queue.Base.{
  ℕ, ◌-◌, ◌*◌, ◌/◌, ◌^◌, ◌≤◌, ◌<◌, ◌≡◌, refl, false, min, ltb, leb, arith, Bool-cases, inl, inr,
}
use native.Mathlib.Nat.{
  div-lt_iff_lt-mul, mul-le-mul_right, one-mul, mul-one, one-le-pow, pow-le-pow_right,
}
use good_queue.Domain.Capacity.{max_int64}
use good_queue.Outbox.{exponential_backoff}

large : (base e m : ℕ) → 0 < 2 ^ e → m / 2 ^ e < base → m < base * 2 ^ e
large base e m p h = (div-lt_iff_lt-mul {x = m} p).0 h

pow-positive : (e : ℕ) → 0 < 2 ^ e
pow-positive e = one-le-pow e 2 (omega arith)

-- Past 62 doublings the delay is past every duration.
huge : (base e m : ℕ) → 0 < base → 63 ≤ e → m ≤ max_int64 → m < base * 2 ^ e
huge base e m p h le =
    let power : 2 ^ 63 ≤ 2 ^ e = pow-le-pow_right {n = 2} (omega arith) h in
    let product : 1 * 2 ^ e ≤ base * 2 ^ e = mul-le-mul_right {m = 1} {n = base} (2 ^ e) p in
    let one : 1 * 2 ^ e ≡ 2 ^ e = one-mul (2 ^ e) in
    let number : 2 ^ 63 ≡ 9223372036854775808 = refl in omega (arith, power, product, one, number)

later :
    (n base m : ℕ)
    → 0 < base
    → m ≤ max_int64
    → leb n 1 ≡ false
    → exponential_backoff n base m ≡ min (base * 2 ^ (n - 1)) m
unfolding exponential_backoff
later n base m p le many =
    let e = n - 1 in
    elim (Bool-cases (leb 63 e)) [
      | inl far ↦
          let past = huge base e m p (ground arith) le in rw (many, far) (omega (arith, past))
      | inr near ↦
          let small : min e 62 ≡ e = ground arith in
          elim (Bool-cases (ltb (m / 2 ^ e) base)) [
            | inl over ↦
                let past = large base e m (pow-positive e) (ground arith) in
                rw (many, near, small, over) (omega (arith, past))
            | inr under ↦ rw (many, near, small, under) refl
          ]
    ]

-- For a positive base that is at most the maximum, a duration of int64, the delay is the base doubled
-- for every attempt after the first, and the maximum where that is more: the shift never
-- overflows.
pub exponential_backoff-doubles :
    (attempt_count base_backoff max_backoff : ℕ)
    → 0 < base_backoff
    → base_backoff ≤ max_backoff
    → max_backoff ≤ max_int64
    → exponential_backoff attempt_count base_backoff max_backoff
      ≡ min (base_backoff * 2 ^ (attempt_count - 1)) max_backoff
unfolding exponential_backoff
exponential_backoff-doubles n base m p le top = elim (Bool-cases (leb n 1)) [
  | inr many ↦ later n base m p top many
  | inl first ↦
      let none_yet : n - 1 ≡ 0 = ground arith in
      let once : base * 2 ^ 0 ≡ base = mul-one base in rw (first, none_yet) (omega (arith, once))
]
