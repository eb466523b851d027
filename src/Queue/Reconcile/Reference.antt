-- ===== src/Queue/Reconcile/Reference.antt =====
-- The reference definitions of the loops of reconcileLockedProductBounded
-- (internal/repository/postgres/queue_attempt.go), as plain functions of lists.
use good_queue.Base.{
  ℕ, zero, suc, ◌+◌, ◌≡◌, refl, Bool, true, false, Option, none, some, List, [], ◌∷◌, ltb,
  if◌then◌else◌, arith, min, count_where, tally, length, ◌++◌, map, Option-cases, inl, inr, ap,
}
use mathlib.Core.Option.{get_or}
use good_queue.Domain.{QueueAttempt, QueueAttemptState, state_eq}
use good_queue.Queue.Repository.{terminal_sold_out}
use good_queue.Queue.Transitions.{mark_terminal, mark_invited}
use good_queue.Queue.Reconcile.{expiry_reason}

abbrev pub is_some {ℓ} : {A : Type ℓ} → Option A → Bool
is_some none = false
is_some (some a) = true

module _ {ℓ} {A : Type ℓ} (f : A → Option A) where
  -- The first `budget` members on which `f` is defined are replaced, in order.
  unfoldable pub rewrite_first : ℕ → List A → List A
  rewrite_first zero xs = xs
  rewrite_first (suc b) [] = []
  rewrite_first (suc b) (x ∷ xs) = elim (f x) [
    | none ↦ x ∷ rewrite_first (suc b) xs
    | some y ↦ y ∷ rewrite_first b xs
  ]

  -- How many members that are.
  abbrev pub spent : ℕ → List A → ℕ
  spent b xs = min b (count_where (λ x. is_some (f x)) xs)

  pub length-rewrite_first : (b : ℕ) (xs : List A) → length (rewrite_first b xs) ≡ length xs
  unfolding rewrite_first
  length-rewrite_first zero xs = refl
  length-rewrite_first (suc b) [] = refl
  length-rewrite_first (suc b) (x ∷ xs) =
      ground (arith, length-rewrite_first (suc b) xs, length-rewrite_first b xs)

  pub rewrite_first-nil : (b : ℕ) → rewrite_first b [] ≡ []
  unfolding rewrite_first
  rewrite_first-nil zero = refl
  rewrite_first-nil (suc b) = refl

  pub rewrite_first-none :
      (b : ℕ) (x : A) (xs : List A) → f x ≡ none → rewrite_first b (x ∷ xs) ≡ x ∷ rewrite_first b xs
  unfolding rewrite_first
  rewrite_first-none zero x xs h = refl
  rewrite_first-none (suc b) x xs h = rw (h, rewrite_first)

  pub rewrite_first-some :
      (b c : ℕ) (x y : A) (xs : List A)
      → b ≡ suc c
      → f x ≡ some y
      → rewrite_first b (x ∷ xs) ≡ y ∷ rewrite_first c xs
  unfolding rewrite_first
  rewrite_first-some b c x y xs e h = rw e (rw (h, rewrite_first))

  pub rewrite_first-zero : (b : ℕ) (xs : List A) → b ≡ 0 → rewrite_first b xs ≡ xs
  unfolding rewrite_first
  rewrite_first-zero b xs e = rw e

  pub rewrite_first-unspent : (b : ℕ) (xs : List A) → spent b xs ≡ 0 → rewrite_first b xs ≡ xs
  unfolding rewrite_first
  rewrite_first-unspent zero xs h = refl
  rewrite_first-unspent (suc b) [] h = refl
  rewrite_first-unspent (suc b) (x ∷ xs) h = ground (arith, rewrite_first-unspent (suc b) xs)

  -- The loop works from the front: a first part is rewritten throughout, the rest is untouched.
  pub rewrite_first-prefix :
      (b : ℕ) (xs : List A)
      → (front : List A) × (back : List A) × (xs ≡ front ++ back)
        × (rewrite_first b xs ≡ map (λ x. get_or (f x) x) front ++ back)
  unfolding rewrite_first
  rewrite_first-prefix zero xs = ([], xs, refl, refl)
  rewrite_first-prefix (suc b) [] = ([], [], refl, refl)
  rewrite_first-prefix (suc b) (x ∷ xs) = elim (Option-cases (f x)) [
    | inl e ↦
        let r = rewrite_first-prefix (suc b) xs in
        (x ∷ r.0, r.1, ap (λ l. x ∷ l) r.2, rw (e, rewrite_first) (ap (λ l. x ∷ l) r.3))
    | inr (y, e) ↦
        let r = rewrite_first-prefix b xs in
        (x ∷ r.0, r.1, ap (λ l. x ∷ l) r.2, rw (e, rewrite_first) (ap (λ l. y ∷ l) r.3))
  ]

  -- How the rewriting moves a count that each replacement moves by the same amount.
  pub count_where-rewrite_up :
      (q : A → Bool)
      → ((x y : A) → f x ≡ some y → tally (q y) ≡ tally (q x) + 1)
      → (b : ℕ) (xs : List A) → count_where q (rewrite_first b xs) ≡ count_where q xs + spent b xs
  unfolding rewrite_first
  count_where-rewrite_up q h zero xs = omega arith
  count_where-rewrite_up q h (suc b) [] = omega arith
  count_where-rewrite_up q h (suc b) (x ∷ xs) = elim (Option-cases (f x)) [
    | inl e ↦ rw (e, rewrite_first) (omega (arith, count_where-rewrite_up q h (suc b) xs))
    | inr (y, e) ↦ rw (e, rewrite_first) (omega (arith, h x y e, count_where-rewrite_up q h b xs))
  ]

  pub count_where-rewrite_down :
      (q : A → Bool)
      → ((x y : A) → f x ≡ some y → tally (q y) + 1 ≡ tally (q x))
      → (b : ℕ) (xs : List A) → count_where q (rewrite_first b xs) + spent b xs ≡ count_where q xs
  unfolding rewrite_first
  count_where-rewrite_down q h zero xs = omega arith
  count_where-rewrite_down q h (suc b) [] = omega arith
  count_where-rewrite_down q h (suc b) (x ∷ xs) = elim (Option-cases (f x)) [
    | inl e ↦ rw (e, rewrite_first) (omega (arith, count_where-rewrite_down q h (suc b) xs))
    | inr (y, e) ↦ rw (e, rewrite_first) (omega (arith, h x y e, count_where-rewrite_down q h b xs))
  ]

  pub count_where-rewrite_same :
      (q : A → Bool)
      → ((x y : A) → f x ≡ some y → tally (q y) ≡ tally (q x))
      → (b : ℕ) (xs : List A) → count_where q (rewrite_first b xs) ≡ count_where q xs
  unfolding rewrite_first
  count_where-rewrite_same q h zero xs = refl
  count_where-rewrite_same q h (suc b) [] = refl
  count_where-rewrite_same q h (suc b) (x ∷ xs) = elim (Option-cases (f x)) [
    | inl e ↦ rw (e, rewrite_first) (omega (arith, count_where-rewrite_same q h (suc b) xs))
    | inr (y, e) ↦ rw (e, rewrite_first) (omega (arith, h x y e, count_where-rewrite_same q h b xs))
  ]

-- The expiry that is due.
unfoldable pub due_state : ℕ → QueueAttempt → Option QueueAttemptState
due_state now a = elim a.state [
  | QueueAttemptState.invited ↦ elim a.invitation_deadline [
    | none ↦ none
    | some d ↦ if ltb now d then none else some QueueAttemptState.invite_expired
  ]
  | QueueAttemptState.checkout ↦ elim a.checkout_deadline [
    | none ↦ none
    | some d ↦ if ltb now d then none else some QueueAttemptState.checkout_expired
  ]
  | _ ↦ none
]

unfoldable pub expire : ℕ → QueueAttempt → Option QueueAttempt
expire now a = elim (due_state now a) [
  | none ↦ none
  | some s ↦ some (mark_terminal now s (expiry_reason s) a)
]

unfoldable pub sell_out : ℕ → QueueAttempt → Option QueueAttempt
sell_out now a =
    if state_eq a.state QueueAttemptState.waiting
    then some (mark_terminal now QueueAttemptState.sold_out terminal_sold_out a)
    else none

unfoldable pub invite : ℕ → ℕ → QueueAttempt → Option QueueAttempt
invite ttl now a =
    if state_eq a.state QueueAttemptState.waiting
    then some (mark_invited now (now + ttl) (a.version + 1) a)
    else none
