-- ===== src/Domain/Errors.antt =====
-- internal/pkg/domain/error.go: the sentinel errors, and what wraps them.
use Prim.Native.Nat.{ℕ}
use good_queue.Base.{◌==◌, Bool, ◌||◌, arith, ◌≡◌, ◌⊎◌, inl, inr, refl}

-- The sentinels of error.go. `ErrX` is `x`.
pub data Sentinel : Type 0 where
  not_implemented not_found conflict invalid_input invalid_identity out_of_stock : Sentinel
  invitation_expired checkout_expired payment_failed queue_sequence_exhausted : Sentinel
  stale_claim payment_claim_integrity internal queue_disabled already_purchased : Sentinel
  queue_full attempt_not_found invalid_transition attempt_gone adjustment_conflict : Sentinel
  stock_below_reserved stock_below_zero stock_overflow reserved_invariant : Sentinel
  metrics_unavailable : Sentinel

-- `wrapped s` is any `fmt.Errorf` whose one `%w` is `s`, its text left out; `joined` has two `%w`.
-- `panic` is a run-time panic (`*p` at a nil pointer, an oversized field), `database_error` an error of PostgreSQL
-- that no sentinel wraps, and the last one the violation of the
-- unique index on accepted payment references, before `mapPostgreSQLError` names it.
pub data Error : Type 0 where
  wrapped : Sentinel → Error
  joined : Error → Error → Error
  no_rows panic database_error reference_conflict : Error

abbrev code_of : Sentinel → ℕ
code_of Sentinel.not_implemented = 0
code_of Sentinel.not_found = 1
code_of Sentinel.conflict = 2
code_of Sentinel.invalid_input = 3
code_of Sentinel.invalid_identity = 4
code_of Sentinel.out_of_stock = 5
code_of Sentinel.invitation_expired = 6
code_of Sentinel.checkout_expired = 7
code_of Sentinel.payment_failed = 8
code_of Sentinel.queue_sequence_exhausted = 9
code_of Sentinel.stale_claim = 10
code_of Sentinel.payment_claim_integrity = 11
code_of Sentinel.internal = 12
code_of Sentinel.queue_disabled = 13
code_of Sentinel.already_purchased = 14
code_of Sentinel.queue_full = 15
code_of Sentinel.attempt_not_found = 16
code_of Sentinel.invalid_transition = 17
code_of Sentinel.attempt_gone = 18
code_of Sentinel.adjustment_conflict = 19
code_of Sentinel.stock_below_reserved = 20
code_of Sentinel.stock_below_zero = 21
code_of Sentinel.stock_overflow = 22
code_of Sentinel.reserved_invariant = 23
code_of Sentinel.metrics_unavailable = 24

-- errors.Is, along every wrapped error.
unfoldable pub errors_is : Error → Sentinel → Bool
errors_is (wrapped s) target = code_of s == code_of target
errors_is (joined a b) target = errors_is a target || errors_is b target
errors_is no_rows target = Bool.false
errors_is panic target = Bool.false
errors_is database_error target = Bool.false
errors_is reference_conflict target = Bool.false

-- A Go pair `(value, error)` of which one part is meant.
pub data Result {ℓ} (A : Type ℓ) : Type ℓ where
  err : Error → Result A
  ok : A → Result A

abbrev pub guard : Bool → Error → Result (Unit {0})
guard Bool.true e = ok tt
guard Bool.false e = err e

infixl 5 ◌>>◌ ◌>>=◌
abbrev pub ◌>>=◌ {ℓ κ} : {A : Type ℓ} {B : Type κ} → Result A → (A → Result B) → Result B
err e >>= next = err e
ok value >>= next = next value

-- The first outcome is only an error or none.
abbrev pub ◌>>◌ {ℓ} : {B : Type ℓ} → Result (Unit {0}) → Result B → Result B
first >> rest = first >>= λ done. rest

pub Result-cases {ℓ} :
    {A : Type ℓ} (r : Result A) → ((a : A) × (r ≡ ok a)) ⊎ ((e : Error) × (r ≡ err e))
Result-cases (ok a) = inl (a, refl)
Result-cases (err e) = inr (e, refl)

-- A chain that succeeds has succeeded at its first step.
pub bind-ok {ℓ κ} :
    {A : Type ℓ} {B : Type κ} (m : Result A) (next : A → Result B) (b : B)
    → (m >>= next) ≡ ok b
    → (a : A) × (m ≡ ok a) × (next a ≡ ok b)
bind-ok (err e) next b h = ground arith
bind-ok (ok a) next b h = (a, refl, h)
