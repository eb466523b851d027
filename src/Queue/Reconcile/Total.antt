-- ===== src/Queue/Reconcile/Total.antt =====
-- Both loops of reconcileLockedProductBounded (internal/repository/postgres/queue_attempt.go), one after the
-- other, against their reference definitions.
use good_queue.Base.{
  ℕ, ◌+◌, ◌-◌, ◌≤◌, ◌≡◌, ap, subst, ◌∙◌, some, List, ◌==◌, if◌then◌else◌, arith, min, Bool-cases,
  Option-cases, inl, inr, tally,
}
use good_queue.Domain.{QueueAttempt, state_eq, ok}
use good_queue.Store.Tables.{Database}
use good_queue.Queue.Repository.{Repository, TransactionState}
use good_queue.Queue.Lookup.{reserves_stock}
use good_queue.Queue.Reconcile.{
  run_loops, second_loop, start, expire_loop, sold_out_loop, promote_loop, reserved_count,
}
use good_queue.Queue.Reconcile.Reference.{
  rewrite_first, spent, due_state, expire, sell_out, invite, count_where-rewrite_up,
  count_where-rewrite_down, count_where-rewrite_same,
}
use good_queue.Queue.Reconcile.Loops.{Looped}
use good_queue.Queue.Reconcile.Turns.{expire_loop-Looped, sold_out_loop-Looped, due_state-cases}
use good_queue.Queue.Reconcile.Promote.{promote_loop-Looped}
use good_queue.Queue.Invariant.{InTransaction}

-- The attempts after both loops, by the reference definitions.
abbrev pub expired_attempts : ℕ → ℕ → List QueueAttempt → List QueueAttempt
expired_attempts now limit mem = rewrite_first (expire now) limit mem

-- What is left of the limit after the first loop.
abbrev pub left_over : ℕ → ℕ → List QueueAttempt → ℕ
left_over now limit mem = limit - spent (expire now) limit mem

-- What is available after the first loop.
abbrev pub free_after : ℕ → ℕ → ℕ → List QueueAttempt → ℕ
free_after stock now limit mem = stock - reserved_count (expired_attempts now limit mem)

unfoldable pub reconciled_attempts : ℕ → ℕ → ℕ → ℕ → List QueueAttempt → List QueueAttempt
reconciled_attempts ttl stock now limit mem =
    if stock == 0
    then rewrite_first (sell_out now) (left_over now limit mem) (expired_attempts now limit mem)
    else rewrite_first (invite ttl now)
        (min (free_after stock now limit mem) (left_over now limit mem))
        (expired_attempts now limit mem)

unfoldable pub reconciled_transitions : ℕ → ℕ → ℕ → ℕ → List QueueAttempt → ℕ
reconciled_transitions ttl stock now limit mem =
    spent (expire now) limit mem
    + (if stock == 0
        then spent (sell_out now) (left_over now limit mem) (expired_attempts now limit mem)
        else spent (invite ttl now) (min (free_after stock now limit mem) (left_over now limit mem))
            (expired_attempts now limit mem))

-- How the replacements move the reservations.
expire_releases :
    (now : ℕ) (a b : QueueAttempt)
    → expire now a ≡ some b
    → tally (reserves_stock b.state) + 1 ≡ tally (reserves_stock a.state)
unfolding expire
expire_releases now a b e = elim (Option-cases (due_state now a)) [
  | inl n ↦ ground arith
  | inr (s, d) ↦ ground (arith, due_state-cases now a s d)
]

sell_out_keeps :
    (now : ℕ) (a b : QueueAttempt)
    → sell_out now a ≡ some b
    → tally (reserves_stock b.state) ≡ tally (reserves_stock a.state)
unfolding sell_out reserves_stock state_eq
sell_out_keeps now a b e = ground arith

pub invite_reserves :
    (ttl now : ℕ) (a b : QueueAttempt)
    → invite ttl now a ≡ some b
    → tally (reserves_stock b.state) ≡ tally (reserves_stock a.state) + 1
unfolding invite reserves_stock state_eq
invite_reserves ttl now a b e = ground arith

-- Stock is never oversold by a reconciliation.
pub reserved_count-reconciled :
    (ttl stock now limit : ℕ) (mem : List QueueAttempt)
    → reserved_count mem ≤ stock
    → reserved_count (reconciled_attempts ttl stock now limit mem) ≤ stock
unfolding reconciled_attempts reserved_count
reserved_count-reconciled ttl stock now limit mem h =
    let q = λ (a : QueueAttempt). reserves_stock a.state in
    let expired = expired_attempts now limit mem in
    let n = left_over now limit mem in
    let free = min (free_after stock now limit mem) n in
    elim (Bool-cases (stock == 0)) [
      | inl e ↦ rw e (
          omega (
            arith,
            count_where-rewrite_same (sell_out now) q (sell_out_keeps now) n expired,
            count_where-rewrite_down (expire now) q (expire_releases now) limit mem,
          ))
      | inr e ↦ rw e (
          omega (
            arith,
            count_where-rewrite_up (invite ttl now) q (invite_reserves ttl now) free expired,
            count_where-rewrite_down (expire now) q (expire_releases now) limit mem,
          ))
    ]

module _ (repository : Repository) (limit : ℕ) (base : Database) (state : TransactionState)
    (v : InTransaction state.product.id base state.tx state.product.reserved state.attempts) where
  abbrev final_attempts : List QueueAttempt
  final_attempts =
      reconciled_attempts repository.invitation_ttl state.product.allocatable_stock state.now limit
        state.attempts

  abbrev final_transitions : ℕ
  final_transitions =
      reconciled_transitions repository.invitation_ttl state.product.allocatable_stock state.now
        limit state.attempts

  first_pass :
      Looped state.product.id base
        (expire_loop state.now limit state.attempts (start state))
        (expired_attempts state.now limit state.attempts)
        (spent (expire state.now) limit state.attempts)
  first_pass =
      let l =
        expire_loop-Looped state.product.id base state.now limit state.attempts (start state)
          (omega arith) v in
      let e : limit - 0 ≡ limit = omega arith in
      let t : 0 + spent (expire state.now) (limit - 0) state.attempts
          ≡ spent (expire state.now) limit state.attempts =
        omega arith in
      record {
        progress = l.progress;
        returns =
            l.returns
            ∙ ap (λ n. ok (rewrite_first (expire state.now) n state.attempts, l.progress)) e;
        counts = l.counts ∙ t;
        keeps =
            subst
              (λ n.
                InTransaction state.product.id base l.progress.tx l.progress.reserved
                  (rewrite_first (expire state.now) n state.attempts))
              e l.keeps;
      }

  sold_out_pass :
      Looped state.product.id base
        (sold_out_loop state.now limit
          (expired_attempts state.now limit state.attempts)
          first_pass.progress)
        (rewrite_first
          (sell_out state.now)
          (left_over state.now limit state.attempts)
          (expired_attempts state.now limit state.attempts))
        (spent (expire state.now) limit state.attempts
          + spent
              (sell_out state.now)
              (left_over state.now limit state.attempts)
              (expired_attempts state.now limit state.attempts))
  sold_out_pass = rw (← first_pass.counts) (
      sold_out_loop-Looped state.product.id base state.now limit
        (expired_attempts state.now limit state.attempts) first_pass.progress
        (omega (arith, first_pass.counts)) first_pass.keeps)

  promote_pass :
      Looped state.product.id base
        (promote_loop repository state.now limit
          (expired_attempts state.now limit state.attempts)
          (record (first_pass.progress) {
            available = state.product.allocatable_stock - first_pass.progress.reserved;
          }))
        (rewrite_first
          (invite repository.invitation_ttl state.now)
          (min
            (free_after state.product.allocatable_stock state.now limit state.attempts)
            (left_over state.now limit state.attempts))
          (expired_attempts state.now limit state.attempts))
        (spent (expire state.now) limit state.attempts
          + spent
              (invite repository.invitation_ttl state.now)
              (min
                (free_after state.product.allocatable_stock state.now limit state.attempts)
                (left_over state.now limit state.attempts))
              (expired_attempts state.now limit state.attempts))
  promote_pass =
      rw (← first_pass.counts, first_pass.keeps.counted)
        (promote_loop-Looped repository state.product.id base state.now limit
          (expired_attempts state.now limit state.attempts)
          (record (first_pass.progress) {
            available = state.product.allocatable_stock - first_pass.progress.reserved;
          })
          (omega (arith, first_pass.counts)) first_pass.keeps)

  pub run_loops-Looped :
      Looped state.product.id base
        (run_loops repository limit state)
        final_attempts
        final_transitions
  unfolding run_loops second_loop reconciled_attempts reconciled_transitions
  run_loops-Looped = elim (Bool-cases (state.product.allocatable_stock == 0)) [
    | inl e ↦ rw (first_pass.returns, e) sold_out_pass
    | inr e ↦ rw (first_pass.returns, e) promote_pass
  ]
