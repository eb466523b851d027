-- ===== src/Queue/Reconcile/Turns.antt =====
-- The three loops of reconcileLockedProductBounded are instances of the rule for loops.
use good_queue.Base.{
  ℕ, ◌+◌, ◌-◌, ◌≤◌, ◌≡◌, ◌≢◌, refl, subst, true, false, none, some, List, [], ◌∷◌, ◌++◌, ◌==◌,
  arith, Bool-cases, Option-cases, inl, inr, All-append_right, Bytes, count_where-middle,
}
use good_queue.Domain.{QueueAttempt, QueueAttemptState, state_eq, eq_of_state_eq, ProductId, ok}
use good_queue.Store.Updates.{All-find_row}
use good_queue.Store.Tables.{Database, attempt_key}
use good_queue.Queue.Repository.{terminal_sold_out}
use good_queue.Queue.Lookup.{before, reserves_stock}
use good_queue.Queue.Transitions.{
  mark_terminal, transition_to_expired, transition_waiting_to_sold_out,
}
use good_queue.Queue.Reconcile.{
  Progress, expired_state, expire_attempt, expire_body, expire_loop, expiry_reason,
  sell_out_attempt, sold_out_loop, reserved_count,
}
use good_queue.Queue.Reconcile.Reference.{rewrite_first, spent, due_state, expire, sell_out}
use good_queue.Queue.Reconcile.Loops.{Looped, Turn, for_each-Looped}
use good_queue.Queue.Invariant.{has_deadline, InTransaction}
use good_queue.Queue.Invariant.Step.{
  updated, IsTransition, update_attempt-updated, InTransaction-updated, update_attempt-at, stored,
}

-- A deadline that is there can be read: the code's test is the reference's.
pub expired_state-due_state :
    (now : ℕ) (a : QueueAttempt)
    → has_deadline a ≡ true
    → expired_state now a ≡ ok (due_state now a)
unfolding expired_state due_state has_deadline before
expired_state-due_state now a h = ground arith

pub due_state-cases :
    (now : ℕ) (a : QueueAttempt) (s : QueueAttemptState)
    → due_state now a ≡ some s
    → (reserves_stock a.state ≡ true)
      × (reserves_stock s ≡ false)
      × (has_deadline (mark_terminal now s (expiry_reason s) a) ≡ true)
unfolding due_state reserves_stock state_eq has_deadline
due_state-cases now a s h = ground arith

-- Memory mirrors a valid table, so its members have their deadlines.
timed_member :
    {id : ProductId} {base tx : Database} {reserved : ℕ} (xs ys : List QueueAttempt)
    (a : QueueAttempt)
    → InTransaction id base tx reserved (xs ++ a ∷ ys)
    → has_deadline a ≡ true
timed_member {tx = tx} xs ys a v =
    All-find_row attempt_key (λ b. has_deadline b ≡ true) tx.attempts a.id a v.valid.timed
      ((All-append_right _ xs (a ∷ ys) v.mirrored).0)

terminal-IsTransition :
    (now : ℕ) (s : QueueAttemptState) (reason : Bytes) (a : QueueAttempt)
    → has_deadline (mark_terminal now s reason a) ≡ true
    → IsTransition a (mark_terminal now s reason)
terminal-IsTransition now s reason a h = record {
  same_id = λ r. refl;
  same_product = λ r. refl;
  later = omega arith;
  timed = h;
}

module _ (id : ProductId) (base : Database) (now limit : ℕ) where
  abbrev expire_budget : Progress → ℕ
  expire_budget p = limit - p.transitions

  expire_idle :
      (a : QueueAttempt) (xs ys : List QueueAttempt) (p : Progress)
      → InTransaction id base p.tx p.reserved (xs ++ a ∷ ys)
      → expire now a ≡ none
      → expire_body now a p ≡ ok (a, p)
  unfolding expire expire_attempt
  expire_idle a xs ys p v e = ground (arith, expired_state-due_state now a (timed_member xs ys a v))

  expire_due :
      (a : QueueAttempt) (s : QueueAttemptState) (xs ys : List QueueAttempt) (p : Progress)
      → InTransaction id base p.tx p.reserved (xs ++ a ∷ ys)
      → due_state now a ≡ some s
      → expire_budget p ≢ 0
      → Turn id base expire_budget
          (expire_body now a p)
          (mark_terminal now s (expiry_reason s) a)
          xs
          ys
          p
  unfolding expire_attempt transition_to_expired reserved_count
  expire_due a s xs ys p v due n =
      let set = mark_terminal now s (expiry_reason s) in
      let c = due_state-cases now a s due in
      let t = terminal-IsTransition now s (expiry_reason s) a c.2 in
      let some_held = count_where-middle (λ b. reserves_stock b.state) xs a ys c.0 in
      record {
        progress = record p {
          tx = updated a set p.tx;
          reserved = p.reserved - 1;
          transitions = p.transitions + 1;
        };
        returns = rw (
          expired_state-due_state now a (timed_member xs ys a v),
          due,
          update_attempt-updated a set t p.tx (stored a set t xs ys v) v.valid,
        );
        counts = refl;
        spends = omega arith;
        keeps =
            InTransaction-updated a set t (p.reserved - 1) xs ys v
              (rw (c.0, c.1) (omega (arith, some_held, v.counted)));
      }

  expire-Turn :
      (a b : QueueAttempt) (xs ys : List QueueAttempt) (p : Progress)
      → InTransaction id base p.tx p.reserved (xs ++ a ∷ ys)
      → expire now a ≡ some b
      → expire_budget p ≢ 0
      → Turn id base expire_budget (expire_body now a p) b xs ys p
  unfolding expire
  expire-Turn a b xs ys p v e n = elim (Option-cases (due_state now a)) [
    | inl none_due ↦ ground arith
    | inr (s, due) ↦
        subst (λ c. Turn id base expire_budget (expire_body now a p) c xs ys p) (ground arith)
          (expire_due a s xs ys p v due n)
  ]

  pub expire_loop-Looped :
      (mem : List QueueAttempt) (p : Progress)
      → p.transitions ≤ limit
      → InTransaction id base p.tx p.reserved mem
      → Looped id base
          (expire_loop now limit mem p)
          (rewrite_first (expire now) (limit - p.transitions) mem)
          (p.transitions + spent (expire now) (limit - p.transitions) mem)
  unfolding expire_loop
  expire_loop-Looped mem p le v =
      for_each-Looped id base (expire now) expire_budget (λ p. p.transitions == limit)
        (expire_body now) limit (λ p. omega arith) (λ p le. ground arith) expire_idle expire-Turn []
        mem p le v

  sell_out_idle :
      (a : QueueAttempt) (xs ys : List QueueAttempt) (p : Progress)
      → InTransaction id base p.tx p.reserved (xs ++ a ∷ ys)
      → sell_out now a ≡ none
      → sell_out_attempt now a p ≡ ok (a, p)
  unfolding sell_out sell_out_attempt
  sell_out_idle a xs ys p v e = ground arith

  sell_out-Turn :
      (a b : QueueAttempt) (xs ys : List QueueAttempt) (p : Progress)
      → InTransaction id base p.tx p.reserved (xs ++ a ∷ ys)
      → sell_out now a ≡ some b
      → expire_budget p ≢ 0
      → Turn id base expire_budget (sell_out_attempt now a p) b xs ys p
  unfolding sell_out sell_out_attempt transition_waiting_to_sold_out
  sell_out-Turn a b xs ys p v e n = elim (Bool-cases (state_eq a.state QueueAttemptState.waiting)) [
    | inr no_wait ↦ ground arith
    | inl waits ↦
        let is_waiting = eq_of_state_eq a.state QueueAttemptState.waiting waits in
        let set = mark_terminal now QueueAttemptState.sold_out terminal_sold_out in
        let t =
          terminal-IsTransition now QueueAttemptState.sold_out terminal_sold_out a
            (unfold has_deadline in refl) in
        let same : set a ≡ b = ground arith in
        subst (λ c. Turn id base expire_budget (sell_out_attempt now a p) c xs ys p) same
          (record {
            progress = record p { tx = updated a set p.tx; transitions = p.transitions + 1 };
            returns = rw (
              waits,
              update_attempt-at a set t QueueAttemptState.waiting p.tx is_waiting
                  (stored a set t xs ys v) v.valid,
            );
            counts = refl;
            spends = omega arith;
            keeps =
                InTransaction-updated a set t p.reserved xs ys v
                  (rw is_waiting (unfold reserves_stock state_eq in refl));
          })
  ]

  pub sold_out_loop-Looped :
      (mem : List QueueAttempt) (p : Progress)
      → p.transitions ≤ limit
      → InTransaction id base p.tx p.reserved mem
      → Looped id base
          (sold_out_loop now limit mem p)
          (rewrite_first (sell_out now) (limit - p.transitions) mem)
          (p.transitions + spent (sell_out now) (limit - p.transitions) mem)
  unfolding sold_out_loop
  sold_out_loop-Looped mem p le v =
      for_each-Looped id base (sell_out now) expire_budget (λ p. p.transitions == limit)
        (sell_out_attempt now) limit (λ p. omega arith) (λ p le. ground arith) sell_out_idle
        sell_out-Turn [] mem p le v
