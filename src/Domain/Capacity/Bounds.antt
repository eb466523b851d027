-- ===== src/Domain/Capacity/Bounds.antt =====
-- The range of WaitingCapacity (internal/pkg/domain/queue_attempt.go).
use good_queue.Base.{
  ℕ, ◌+◌, ◌-◌, ◌*◌, ◌/◌, ◌≤◌, ◌<◌, ◌≡◌, refl, true, false, ◌&&◌, not, ltb, ◌==◌, arith, pos,
  Bool-cases, inl, inr,
}
use native.Mathlib.Nat.{div-lt_iff_lt-mul, le-div_iff_mul-le, mul_comm}
use good_queue.Domain.Errors.{wrapped, Sentinel, ok, err}
use good_queue.Domain.Capacity.{max_int64, waiting_capacity}

-- A percentage above the quotient overflows.
overflows : (m stock percent : ℕ) → 0 < stock → m / stock < percent → m < stock * percent
overflows m stock percent h lt = rw (mul_comm stock percent) ((div-lt_iff_lt-mul {x = m} h).0 lt)

fits : (m stock percent : ℕ) → 0 < stock → stock * percent ≤ m → percent ≤ m / stock
fits m stock percent h le =
    (le-div_iff_mul-le {x = percent} {y = m} h).1 (rw (← mul_comm stock percent) le)

-- Where stock times percentage plus 99 is an int64, the capacity is that product over 100, rounded
-- up.
pub waiting_capacity-ceiling :
    (stock percent : ℕ)
    → stock * percent + 99 ≤ max_int64
    → (capacity : ℕ) × (waiting_capacity (pos stock) (pos percent) ≡ ok capacity)
      × (stock * percent ≤ capacity * 100)
      × (capacity * 100 < stock * percent + 100)
unfolding waiting_capacity
waiting_capacity-ceiling stock percent h =
    let small : ltb (max_int64 - 99) (stock * percent) ≡ false = ground arith in
    let room : (not (stock == 0) && ltb (max_int64 / stock) percent) ≡ false =
      elim (Bool-cases (stock == 0)) [
        | inl e ↦ rw e refl
        | inr e ↦ ground (arith, fits max_int64 stock percent)
      ] in
    ((stock * percent + 99) / 100, rw (room, small) refl, omega arith, omega arith)

-- Where it is not, the stock and percentage are refused as invalid input, before any product
-- that could wrap is used.
pub waiting_capacity-overflow :
    (stock percent : ℕ)
    → max_int64 < stock * percent + 99
    → waiting_capacity (pos stock) (pos percent) ≡ err (wrapped Sentinel.invalid_input)
unfolding waiting_capacity
waiting_capacity-overflow stock percent h =
    let large : ltb (max_int64 - 99) (stock * percent) ≡ true = ground arith in
    elim (Bool-cases (not (stock == 0) && ltb (max_int64 / stock) percent)) [
      | inl e ↦ rw e refl
      | inr e ↦ rw (e, large) refl
    ]
