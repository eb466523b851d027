-- ===== src/Queue/Reconcile/Quiet.antt =====
-- The work that reconcileLockedProduct (internal/repository/postgres/queue_attempt.go) leaves.
use good_queue.Base.{
  ℕ, zero, suc, ◌+◌, ◌-◌, ◌*◌, ◌≤◌, ◌<◌, ◌≡◌, ◌⊎◌, refl, sym, subst, ◌∙◌, Bool, true, false, ◌||◌,
  Option, none, some, List, [], ◌∷◌, ◌==◌, arith, min, ltb, leb, Bool-cases, Option-cases, inl, inr,
  count_where, length, count_where-le,
}
use good_queue.Domain.{QueueAttempt, QueueAttemptState, state_eq, ok}
use good_queue.Queue.Repository.{Repository, TransactionState}
use good_queue.Queue.Lookup.{reserves_stock}
use good_queue.Queue.Reconcile.{reserved_count, reconcile_locked_product_bounded, Reconciled}
use good_queue.Queue.Reconcile.Reference.{
  is_some, rewrite_first, due_state, expire, sell_out, invite, length-rewrite_first,
  count_where-rewrite_up,
}
use good_queue.Queue.Reconcile.Total.{
  reconciled_attempts, reconciled_transitions, expired_attempts, left_over, free_after,
  invite_reserves,
}
use good_queue.Queue.Reconcile.Succeeds.{is_pending, any_pending, reconcile-Reconciles}
use good_queue.Queue.Invariant.Ready.{Ready}

module _ {ℓ} {A : Type ℓ} (f : A → Option A) (q : A → Bool) where
  -- With the budget for all, no member is left that passes a test which `f` answers.
  count_where-rewrite_all :
      ((x : A) → f x ≡ none → q x ≡ false)
      → ((x y : A) → f x ≡ some y → q y ≡ false)
      → (b : ℕ) (xs : List A) → count_where (λ x. is_some (f x)) xs ≤ b
      → count_where q (rewrite_first f b xs) ≡ 0
  unfolding rewrite_first
  count_where-rewrite_all hn hs zero [] le = refl
  count_where-rewrite_all hn hs (suc b) [] le = refl
  count_where-rewrite_all hn hs zero (x ∷ xs) le = elim (Option-cases (f x)) [
    | inl e ↦
        let le' = rw e at le in
        rw (hn x e) (omega (arith, count_where-rewrite_all hn hs zero xs (omega (arith, le'))))
    | inr (y, e) ↦ let le' = rw e at le in omega (arith, le')
  ]
  count_where-rewrite_all hn hs (suc b) (x ∷ xs) le = elim (Option-cases (f x)) [
    | inl e ↦
        let le' = rw e at le in
        rw (e, rewrite_first, hn x e)
          (omega (arith, count_where-rewrite_all hn hs (suc b) xs (omega (arith, le'))))
    | inr (y, e) ↦
        let le' = rw e at le in
        rw (e, rewrite_first, hs x y e)
          (omega (arith, count_where-rewrite_all hn hs b xs (omega (arith, le'))))
  ]

  count_where-rewrite_le :
      ((x y : A) → f x ≡ some y → q y ≡ false)
      → (b : ℕ) (xs : List A) → count_where q (rewrite_first f b xs) ≤ count_where q xs
  unfolding rewrite_first
  count_where-rewrite_le hs zero xs = omega arith
  count_where-rewrite_le hs (suc b) [] = omega arith
  count_where-rewrite_le hs (suc b) (x ∷ xs) = elim (Option-cases (f x)) [
    | inl e ↦ rw (e, rewrite_first) (omega (arith, count_where-rewrite_le hs (suc b) xs))
    | inr (y, e) ↦ rw (e, rewrite_first, hs x y e) (omega (arith, count_where-rewrite_le hs b xs))
  ]

abbrev due_now : ℕ → QueueAttempt → Bool
due_now now a = is_some (due_state now a)

abbrev is_waiting : QueueAttempt → Bool
is_waiting a = state_eq a.state QueueAttemptState.waiting

expire-not_due : (now : ℕ) (a : QueueAttempt) → expire now a ≡ none → due_now now a ≡ false
unfolding expire
expire-not_due now a e = ground arith

expire-settled : (now : ℕ) (a b : QueueAttempt) → expire now a ≡ some b → due_now now b ≡ false
unfolding expire due_state
expire-settled now a b e = ground arith

sell_out-not_waiting : (now : ℕ) (a : QueueAttempt) → sell_out now a ≡ none → is_waiting a ≡ false
unfolding sell_out
sell_out-not_waiting now a e = ground arith

sell_out-settled :
    (now : ℕ) (a b : QueueAttempt)
    → sell_out now a ≡ some b
    → (is_waiting b ≡ false) × (due_now now b ≡ false)
unfolding sell_out due_state state_eq
sell_out-settled now a b e = ground arith

invite-not_waiting :
    (ttl now : ℕ) (a : QueueAttempt) → invite ttl now a ≡ none → is_waiting a ≡ false
unfolding invite
invite-not_waiting ttl now a e = ground arith

invite-settled :
    (ttl now : ℕ) (a b : QueueAttempt)
    → 0 < ttl
    → invite ttl now a ≡ some b
    → (is_waiting b ≡ false) × (due_now now b ≡ false)
unfolding invite due_state state_eq
invite-settled ttl now a b h e = ground arith

-- Who is pending is due, or waits.
any_pending-none :
    (now stock available : ℕ) (mem : List QueueAttempt)
    → count_where (due_now now) mem ≡ 0
    → (count_where is_waiting mem ≡ 0) ⊎ ((stock == 0 || ltb 0 available) ≡ false)
    → count_where (is_pending now stock available) mem ≡ 0
unfolding is_pending
any_pending-none now stock available [] d w = refl
any_pending-none now stock available (a ∷ mem) d w =
    ground (arith, any_pending-none now stock available mem)

module _ (ttl stock now limit : ℕ) (mem : List QueueAttempt) (promptly : 0 < ttl)
    (enough : length mem * 2 ≤ limit) where
  abbrev expired : List QueueAttempt
  expired = expired_attempts now limit mem

  expired_settled : count_where (due_now now) expired ≡ 0
  expired_settled =
      count_where-rewrite_all (expire now) (due_now now) (expire-not_due now) (expire-settled now)
        limit mem (omega (arith, count_where-le (λ x. is_some (expire now x)) mem))

  spare : length expired ≤ left_over now limit mem
  spare = omega (
    arith,
    length-rewrite_first (expire now) limit mem,
    count_where-le (λ x. is_some (expire now x)) mem,
  )

  sold_out_pending :
      (stock == 0) ≡ true
      → (available : ℕ)
      → count_where (is_pending now stock available) (reconciled_attempts ttl stock now limit mem)
        ≡ 0
  unfolding reconciled_attempts
  sold_out_pending e available =
      let budget = left_over now limit mem in
      let none_waits =
        count_where-rewrite_all (sell_out now) is_waiting (sell_out-not_waiting now)
          (λ a b h. (sell_out-settled now a b h).0) budget expired
          (omega (arith, spare, count_where-le (λ x. is_some (sell_out now x)) expired)) in
      let none_due =
        count_where-rewrite_le (sell_out now) (due_now now)
          (λ a b h. (sell_out-settled now a b h).1) budget expired in
      rw e (
        any_pending-none now stock available _ (omega (arith, none_due, expired_settled))
          (inl none_waits))

  invited_pending :
      (stock == 0) ≡ false
      → count_where
          (is_pending now stock
            (stock - reserved_count (reconciled_attempts ttl stock now limit mem)))
          (reconciled_attempts ttl stock now limit mem)
        ≡ 0
  unfolding reconciled_attempts reserved_count
  invited_pending e =
      let free = free_after stock now limit mem in
      let budget = min free (left_over now limit mem) in
      let q = λ (a : QueueAttempt). reserves_stock a.state in
      let final = rewrite_first (invite ttl now) budget expired in
      let waits = count_where (λ x. is_some (invite ttl now x)) expired in
      let none_due =
        count_where-rewrite_le (invite ttl now) (due_now now)
          (λ a b h. (invite-settled ttl now a b promptly h).1) budget expired in
      let up = count_where-rewrite_up (invite ttl now) q (invite_reserves ttl now) budget expired in
      let fits = count_where-le (λ x. is_some (invite ttl now x)) expired in
      rw e (
        any_pending-none now stock _ final (omega (arith, none_due, expired_settled))
          (elim (Bool-cases (leb waits budget)) [
            | inl all ↦ inl (
                count_where-rewrite_all (invite ttl now) is_waiting (invite-not_waiting ttl now)
                  (λ a b h. (invite-settled ttl now a b promptly h).0) budget expired
                  (ground arith))
            | inr few ↦
                let full : count_where q final ≡ count_where q expired + free =
                  ground (arith, up, spare) in
                inr (rw e (ground arith))
          ]))

-- Reconciliation from a ready state, with the limit that reconcileLockedProduct passes (twice the
-- attempts, and one) and a positive invitation time, returns, and its flag says that no work is
-- left.
pub reconcile-quiet :
    (repository : Repository) (base : List QueueAttempt) (state : TransactionState)
    → Ready base state
    → 0 < repository.invitation_ttl
    → (r : Reconciled) × (reconcile_locked_product_bounded repository
          (length state.attempts * 2 + 1)
          state
        ≡ ok r)
      × (r.more_work ≡ false)
reconcile-quiet repository base state v h =
    let limit = length state.attempts * 2 + 1 in
    let stock = state.product.allocatable_stock in
    let enough : length state.attempts * 2 ≤ limit = omega arith in
    let c = reconcile-Reconciles repository limit base state v in
    let counted : c.result.state.product.reserved
        ≡ reserved_count
            (reconciled_attempts repository.invitation_ttl stock state.now limit state.attempts) =
      subst (λ l. c.result.state.product.reserved ≡ reserved_count l) c.attempts
        (sym c.ready.inside.counted) in
    let none_pending : count_where
          (is_pending state.now stock (stock - c.result.state.product.reserved))
          c.result.state.attempts
        ≡ 0 =
      rw (c.attempts, counted)
        (elim (Bool-cases (stock == 0)) [
          | inl e ↦
              sold_out_pending repository.invitation_ttl stock state.now limit state.attempts h
                enough e _
          | inr e ↦
              invited_pending repository.invitation_ttl stock state.now limit state.attempts h
                enough e
        ]) in
    (c.result, c.returns, c.flag ∙ unfold any_pending in rw none_pending refl)

-- A reconciliation makes at most as many transitions as its limit allows, whatever the state.
pub reconciled_transitions-le :
    (ttl stock now limit : ℕ) (mem : List QueueAttempt)
    → reconciled_transitions ttl stock now limit mem ≤ limit
unfolding reconciled_transitions
reconciled_transitions-le ttl stock now limit mem = ground arith
