-- ===== src/Queue/Cancel/Sound.antt =====
-- Cancel (internal/repository/postgres/queue_attempt.go) on a consistent database.
use good_queue.Base.{
  ℕ, ◌-◌, ◌<◌, ◌≡◌, refl, ap, subst, ◌∙◌, true, Option, none, some, List, [], ◌∷◌, ◌++◌, arith,
  Bool-cases, Option-cases, inl, inr, bytes_eq, count_where-middle,
}
use good_queue.Domain.{
  QueueAttempt, QueueAttemptState, state_eq, Error, wrapped, Sentinel, ok, ◌>>=◌,
  CancelQueueCommand,
}
use good_queue.Store.Rows.{find_row}
use good_queue.Store.Tables.{Database, ProductRow, product_key}
use good_queue.Queue.Repository.{Repository, TransactionState, AttemptLockScope, terminal_cancelled}
use good_queue.Queue.Lookup.{latest_attempt_for_user, reserves_stock, is_terminal_state}
use good_queue.Queue.Lookup.Found.{find_last-splits}
use good_queue.Queue.Transaction.{with_locked_product}
use good_queue.Queue.Transitions.{transition_to_cancelled, mark_terminal, replace_attempt}
use good_queue.Queue.Reconcile.{reconcile_locked_product, reserved_count}
use good_queue.Queue.Cancel.{cancel_found, cancel_reconciled, cancel_operation, cancel}
use good_queue.Queue.Returns.{Returns, at_once, locked-Returns, reconcile_locked_product-Ready}
use good_queue.Queue.Invariant.{has_deadline, InTransaction}
use good_queue.Queue.Invariant.Step.{IsTransition, updated, update_attempt-updated, stored}
use good_queue.Queue.Invariant.Ready.{Ready}
use good_queue.Queue.Invariant.Loading.{Consistent, begun, begun-Ready}
use good_queue.Queue.Invariant.Moves.{
  moved, moved-Ready, release_reservation-Stored, replace_attempt-middle,
}

cancelled : ℕ → QueueAttempt → QueueAttempt
cancelled now = mark_terminal now QueueAttemptState.cancelled terminal_cancelled

cancelled-IsTransition : (now : ℕ) (a : QueueAttempt) → IsTransition a (cancelled now)
unfolding has_deadline cancelled
cancelled-IsTransition now a = record {
  same_id = λ r. refl;
  same_product = λ r. refl;
  later = omega arith;
  timed = refl;
}

-- transitionToCancelled of a member of a ready transaction returns, and leaves it ready.
transition_to_cancelled-Ready :
    (base : List QueueAttempt) (state : TransactionState) (a : QueueAttempt)
    → (xs ys : List QueueAttempt) → Ready base state
    → state.attempts ≡ xs ++ a ∷ ys
    → (state' : TransactionState) × (transition_to_cancelled state a
        ≡ ok (cancelled state.now a, state'))
      × Ready base state'
unfolding transition_to_cancelled cancelled
transition_to_cancelled-Ready base state a xs ys v split =
    let set = cancelled state.now in
    let t = cancelled-IsTransition state.now a in
    let inside =
      subst
        (InTransaction state.product.id (record (state.tx) { attempts = base }) state.tx
          state.product.reserved)
        split v.inside in
    let update =
      update_attempt-updated a set t state.tx (stored a set t xs ys inside) inside.valid in
    let replaced : replace_attempt (set a) state.attempts ≡ xs ++ set a ∷ ys =
      ap (replace_attempt (set a)) split
      ∙ replace_attempt-middle (set a) a xs ys refl inside.distinct in
    elim (Bool-cases (reserves_stock a.state)) [
      | inr free ↦ (
        moved a set xs ys state.product.allocatable_stock state.product.reserved state.tx.products
            state,
        rw (update, free) (rw replaced refl),
        moved-Ready base state a set xs ys state.product.allocatable_stock state.product.reserved
            state.tx.products t v split (rw free (unfold reserves_stock state_eq in refl)) v.bounded
            v.stored,
      )
      | inl holds ↦
          let some_held : 0 < state.product.reserved =
            unfold reserved_count in
            omega (
              arith,
              count_where-middle (λ b. reserves_stock b.state) xs a ys holds,
              inside.counted,
            ) in
          let released =
            release_reservation-Stored base (record state { tx = updated a set state.tx })
              (wrapped Sentinel.conflict) some_held v.stored in
          (
            moved a set xs ys state.product.allocatable_stock (state.product.reserved - 1)
                released.0 state,
            rw (update, holds) (rw released.1 (rw replaced refl)),
            moved-Ready base state a set xs ys state.product.allocatable_stock
                (state.product.reserved - 1) released.0 t v split
                (rw holds (unfold reserves_stock state_eq in omega (arith, some_held)))
                (omega (arith, v.bounded)) released.2,
          )
    ]

-- The reply to a cancellation.
cancelled-Returns :
    (repository : Repository) (base : List QueueAttempt) (state : TransactionState)
    → (a : QueueAttempt) (xs ys : List QueueAttempt) → Ready base state
    → state.attempts ≡ xs ++ a ∷ ys
    → Returns {A = Option QueueAttempt × Option Error} (do
      (gone, state') ← transition_to_cancelled state a
      state'' ← reconcile_locked_product repository state'
      ok ((some gone, none), state''))
cancelled-Returns repository base state a xs ys v split =
    let c = transition_to_cancelled-Ready base state a xs ys v split in
    let r = reconcile_locked_product-Ready repository base c.0 c.2 in
    rw c.1 (rw r.1 (at_once base r.0 _ r.2))

found-Returns :
    (repository : Repository) (base : List QueueAttempt) (state : TransactionState)
    → (a : QueueAttempt) (xs ys : List QueueAttempt) → Ready base state
    → state.attempts ≡ xs ++ a ∷ ys
    → Returns (cancel_found repository state a)
unfolding cancel_found
found-Returns repository base state a xs ys v split =
    elim (Bool-cases (state_eq a.state QueueAttemptState.purchased)) [
      | inl bought ↦ rw bought (at_once base state _ v)
      | inr open_sale ↦ elim (Bool-cases (is_terminal_state a.state)) [
        | inl over ↦ rw (open_sale, over) (at_once base state _ v)
        | inr active ↦
            rw (open_sale, active) (cancelled-Returns repository base state a xs ys v split)
      ]
    ]

reconciled-Returns :
    (repository : Repository) (base : List QueueAttempt) (command : CancelQueueCommand)
    → (state : TransactionState) → Ready base state
    → Returns (cancel_reconciled repository command state)
unfolding latest_attempt_for_user cancel_reconciled
reconciled-Returns repository base command state v =
    elim (Option-cases (latest_attempt_for_user state.attempts command.external_user_id)) [
      | inl e ↦ rw (e, cancel_reconciled) (at_once base state _ v)
      | inr (a, e) ↦
          let split =
            find_last-splits (λ b. bytes_eq b.external_user_id command.external_user_id)
              state.attempts a e in
          rw (e, cancel_reconciled)
            (found-Returns repository base state a split.0 split.1 v split.2)
    ]

pub operation-Returns :
    (repository : Repository) (base : List QueueAttempt) (command : CancelQueueCommand)
    → (state : TransactionState) → Ready base state
    → Returns (cancel_operation repository command state)
unfolding cancel_operation
operation-Returns repository base command state v =
    let r = reconcile_locked_product-Ready repository base state v in
    rw r.1 (reconciled-Returns repository base command r.0 r.2)

-- On a consistent database that has the product, Cancel always returns with a value (which can be a
-- refusal of the request), never with an error of a guarded update or of the stock invariant, and
-- the database that it leaves is consistent.
pub cancel-Consistent :
    (repository : Repository) (now : ℕ) (command : CancelQueueCommand) (db : Database)
    → (row : ProductRow) → Consistent db
    → row.id ≡ command.product_id
    → find_row product_key row.id db.products ≡ some row
    → (value : Option QueueAttempt × Option Error) × (db' : Database) × (cancel repository now
          command db
        ≡ (ok value, db'))
      × Consistent db'
unfolding cancel
cancel-Consistent repository now command db row c same f =
    let scope : AttemptLockScope = record {
      external_user_id = command.external_user_id;
      idempotency_key = [];
      attempt_id = 0;
      include_latest_for_user = true;
    } in
    let r =
      operation-Returns repository db.attempts command (begun db row now scope)
        (begun-Ready db row now scope c f) in
    (
      r.value,
      r.state.tx,
      subst
          (λ id.
            with_locked_product now id scope (cancel_operation repository command) db
            ≡ (ok r.value, r.state.tx))
          same (locked-Returns now row scope (cancel_operation repository command) db f r),
      r.consistent,
    )
