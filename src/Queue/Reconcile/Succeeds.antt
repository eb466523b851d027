-- ===== src/Queue/Reconcile/Succeeds.antt =====
-- The whole of reconcileLockedProductBounded (internal/repository/postgres/queue_attempt.go), guards and final
-- UPDATE included, against its reference definition.
use good_queue.Base.{
  ℕ, ◌-◌, ◌≤◌, ◌≡◌, refl, sym, ap, subst, ◌∙◌, Bool, true, false, ◌||◌, not, List, [], ◌∷◌, ◌==◌,
  arith, min, ltb, leb, Bool-cases, inl, inr, All, ◌&&◌, count_where,
}
use good_queue.Domain.{QueueAttempt, QueueAttemptState, state_eq, ok}
use good_queue.Store.Updates.{Mirrors, All-find_row}
use good_queue.Store.Tables.{Database, ProductRow, attempt_key}
use good_queue.Queue.Repository.{Repository, TransactionState, reserved_invariant_error}
use good_queue.Queue.Reconcile.{
  Progress, store_reserved, reserved_count, has_work, has_reconciliation_work, Reconciled,
  reconcile_locked_product_bounded, run_loops,
}
use good_queue.Queue.Reconcile.Reference.{
  is_some, due_state, expire, sell_out, invite, rewrite_first-unspent,
}
use good_queue.Queue.Reconcile.Loops.{Looped}
use good_queue.Queue.Reconcile.Turns.{expired_state-due_state}
use good_queue.Queue.Reconcile.Total.{
  reconciled_attempts, reconciled_transitions, reserved_count-reconciled, run_loops-Looped,
  expired_attempts, left_over, free_after,
}
use good_queue.Queue.Invariant.{has_deadline}
use good_queue.Queue.Invariant.Ready.{Stored, Ready, update_product-Stored}

-- Whether an attempt waits for a transition that reconciliation could make.
unfoldable pub is_pending : ℕ → ℕ → ℕ → QueueAttempt → Bool
is_pending now stock available a =
    is_some (due_state now a)
    || (state_eq a.state QueueAttemptState.waiting && (stock == 0 || ltb 0 available))

unfoldable pub any_pending : ℕ → ℕ → ℕ → List QueueAttempt → Bool
any_pending now stock available mem = not (count_where (is_pending now stock available) mem == 0)

has_work-pending :
    (now stock available : ℕ) (mem : List QueueAttempt)
    → All (λ a. has_deadline a ≡ true) mem
    → has_work now stock available mem ≡ ok (any_pending now stock available mem)
unfolding has_work any_pending is_pending
has_work-pending now stock available [] h = refl
has_work-pending now stock available (a ∷ mem) h =
    ground (arith, expired_state-due_state now a h.0, has_work-pending now stock available mem h.1)

members_timed :
    (tx : Database) (mem : List QueueAttempt)
    → All (λ a. has_deadline a ≡ true) tx.attempts
    → Mirrors attempt_key tx.attempts mem
    → All (λ a. has_deadline a ≡ true) mem
members_timed tx [] t m = tt
members_timed tx (a ∷ mem) t m = (
  All-find_row attempt_key (λ b. has_deadline b ≡ true) tx.attempts a.id a t m.0,
  members_timed tx mem t m.1,
)

-- With no transition the attempts are as they were.
unchanged :
    (ttl stock now limit : ℕ) (mem : List QueueAttempt)
    → reconciled_transitions ttl stock now limit mem ≡ 0
    → reconciled_attempts ttl stock now limit mem ≡ mem
unfolding reconciled_transitions reconciled_attempts
unchanged ttl stock now limit mem h =
    let first = rewrite_first-unspent (expire now) limit mem (omega (arith, h)) in
    let expired = expired_attempts now limit mem in
    elim (Bool-cases (stock == 0)) [
      | inl e ↦
          let h' = rw e at h in
          let n = left_over now limit mem in
          rw e (rewrite_first-unspent (sell_out now) n expired (omega (arith, h')) ∙ first)
      | inr e ↦
          let h' = rw e at h in
          let n = min (free_after stock now limit mem) (left_over now limit mem) in
          rw e (rewrite_first-unspent (invite ttl now) n expired (omega (arith, h')) ∙ first)
    ]

-- The counter that the UPDATE writes, and the product's row after it.
store_reserved-Stored :
    (base : List QueueAttempt) (state : TransactionState) (p : Progress)
    → Stored base state.product.id state.product.allocatable_stock state.product.reserved
        state.product.next_queue_sequence p.tx.products
    → p.reserved ≤ state.product.allocatable_stock
    → (p.transitions ≡ 0 → p.reserved ≡ state.product.reserved)
    → (products : List ProductRow) × (store_reserved state state.product.reserved p
        ≡ ok (record (p.tx) { products = products }))
      × Stored base state.product.id state.product.allocatable_stock p.reserved
          state.product.next_queue_sequence products
unfolding store_reserved
store_reserved-Stored base state p s le idle = elim (Bool-cases (p.transitions == 0)) [
  | inl e ↦
      let same : p.reserved ≡ state.product.reserved = idle (ground arith) in
      (p.tx.products, rw e, rw same s)
  | inr e ↦
      let u =
        update_product-Stored base state.product.id state.product.allocatable_stock
          state.product.reserved state.product.next_queue_sequence state.product.allocatable_stock
          p.reserved state.product.next_queue_sequence
          (λ row.
            row.id == state.product.id
            && (row.reserved == state.product.reserved && leb p.reserved row.allocatable_stock))
          (λ row. record row { reserved = p.reserved; updated_at = state.now })
          (λ r h. ground arith) (λ r. refl)
          (λ r i st rs sq. (ground arith, ground arith, refl, ground arith))
          reserved_invariant_error p.tx s in
      (_, rw e u.0, u.1)
]

-- A reconciliation has succeeded: `attempts` and `transitions` are the reference's, the flag says
-- whether work is left, and the next call can start.
pub record Reconciles (repository : Repository) (limit : ℕ) (base : List QueueAttempt)
    (state : TransactionState) : Type 0 where
  pub result : Reconciled
  pub returns : reconcile_locked_product_bounded repository limit state ≡ ok result
  pub attempts :
      result.state.attempts
      ≡ reconciled_attempts repository.invitation_ttl state.product.allocatable_stock state.now
          limit state.attempts
  pub transitions :
      result.transitions
      ≡ reconciled_transitions repository.invitation_ttl state.product.allocatable_stock state.now
          limit state.attempts
  pub flag :
      result.more_work
      ≡ any_pending state.now state.product.allocatable_stock
          (state.product.allocatable_stock - result.state.product.reserved)
          result.state.attempts
  pub ready : Ready base result.state
  pub same_time : result.state.now ≡ state.now
  pub same_product :
      result.state.product ≡ record (state.product) { reserved = result.state.product.reserved }

module _ (repository : Repository) (limit : ℕ) (base : List QueueAttempt) (state : TransactionState)
    (v : Ready base state) where
  abbrev loops :
      Looped state.product.id
        (record (state.tx) { attempts = base })
        (run_loops repository limit state)
        (reconciled_attempts repository.invitation_ttl state.product.allocatable_stock state.now
          limit state.attempts)
        (reconciled_transitions repository.invitation_ttl state.product.allocatable_stock state.now
          limit state.attempts)
  loops = run_loops-Looped repository limit (record (state.tx) { attempts = base }) state v.inside

  idle_counter : loops.progress.transitions ≡ 0 → loops.progress.reserved ≡ state.product.reserved
  idle_counter h =
      sym loops.keeps.counted
      ∙ ap reserved_count (
          unchanged repository.invitation_ttl state.product.allocatable_stock state.now limit
            state.attempts (sym loops.counts ∙ h))
      ∙ v.inside.counted

  counter_bounded : loops.progress.reserved ≤ state.product.allocatable_stock
  counter_bounded =
      subst (λ n. n ≤ state.product.allocatable_stock) loops.keeps.counted
        (reserved_count-reconciled repository.invitation_ttl state.product.allocatable_stock
          state.now limit state.attempts (omega (arith, v.inside.counted, v.bounded)))

  -- Reconciliation of a ready transaction, under any limit on the transitions, returns. The
  -- attempts in memory and the number of transitions are those of the reference definition: the
  -- first due attempts expire, then the first that wait are sold out or invited as far as the stock
  -- and the limit go. The flag says whether work is left, and the transaction is ready again: the
  -- table mirrors memory, and the counter of the product is what its attempts reserve and at most
  -- the stock.
  pub reconcile-Reconciles : Reconciles repository limit base state
  unfolding reconcile_locked_product_bounded has_reconciliation_work
  reconcile-Reconciles =
      let p = loops.progress in
      let kept : Stored base state.product.id state.product.allocatable_stock state.product.reserved
          state.product.next_queue_sequence p.tx.products =
        subst
          (Stored base state.product.id state.product.allocatable_stock state.product.reserved
            state.product.next_queue_sequence)
          (sym loops.keeps.products) v.stored in
      let w = store_reserved-Stored base state p kept counter_bounded idle_counter in
      let k = loops.keeps in
      let timed = members_timed p.tx _ k.valid.timed k.mirrored in
      let work =
        has_work-pending state.now state.product.allocatable_stock
          (state.product.allocatable_stock - p.reserved) _ timed in
      let guards : not (reserved_count state.attempts == state.product.reserved)
            || ltb state.product.allocatable_stock state.product.reserved
          ≡ false =
        ground (arith, v.inside.counted, v.bounded) in
      record {
        result = record {
          state = record state {
            tx = record (p.tx) { products = w.0 };
            product = record (state.product) { reserved = p.reserved };
            attempts =
                reconciled_attempts repository.invitation_ttl state.product.allocatable_stock
                  state.now limit state.attempts;
          };
          transitions = p.transitions;
          more_work =
              any_pending state.now state.product.allocatable_stock
                (state.product.allocatable_stock - p.reserved)
                (reconciled_attempts repository.invitation_ttl state.product.allocatable_stock
                  state.now limit state.attempts);
        };
        returns = rw (guards, loops.returns, w.1, work);
        attempts = refl;
        transitions = loops.counts;
        flag = refl;
        ready = record {
          inside = record {
            valid = record { keyed = k.valid.keyed; timed = k.valid.timed; known = k.valid.known };
            mirrored = k.mirrored;
            distinct = k.distinct;
            owned = k.owned;
            counted = k.counted;
            covered = k.covered;
            others = k.others;
            products = refl;
          };
          bounded = counter_bounded;
          stored = w.2;
        };
        same_time = refl;
        same_product = refl;
      }
