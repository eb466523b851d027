-- ===== src/Queue/Checkout/Sound.antt =====
-- StartCheckout (internal/repository/postgres/queue_attempt.go) on a consistent database.
use good_queue.Base.{
  ℕ, ◌≡◌, refl, sym, subst, false, Option, none, some, List, [], ◌∷◌, ◌++◌, ◌==◌, arith, Bool-cases,
  Option-cases, inl, inr, bytes_eq,
}
use good_queue.Domain.{
  QueueAttempt, QueueAttemptState, Error, Result, ok, ◌>>=◌, StartCheckoutCommand, state_eq,
}
use good_queue.Store.Rows.{find_row}
use good_queue.Store.Tables.{Database, ProductRow, product_key}
use good_queue.Queue.Repository.{Repository, TransactionState, AttemptLockScope}
use good_queue.Queue.Lookup.{find_first, find_attempt_by_id, reserves_stock}
use good_queue.Queue.Lookup.Found.{find_first-passes, find_first-splits}
use good_queue.Queue.Transitions.{transition_to_checkout, mark_checkout}
use good_queue.Queue.Checkout.{
  start_found, start_reconciled, start_checkout_operation, start_checkout, find_attempt_product,
}
use good_queue.Queue.Returns.{Returns, at_once, locked-Returns, reconcile_locked_product-Ready}
use good_queue.Queue.Invariant.{has_deadline, InTransaction}
use good_queue.Queue.Invariant.Step.{
  IsTransition, updated, update_attempt-at, InTransaction-updated, stored,
}
use good_queue.Queue.Invariant.Ready.{Ready}
use good_queue.Queue.Invariant.Loading.{Consistent, begun, begun-Ready, Ready-Consistent}

checkout-IsTransition :
    (now deadline : ℕ) (a : QueueAttempt) → IsTransition a (mark_checkout now deadline)
unfolding has_deadline
checkout-IsTransition now deadline a = record {
  same_id = λ r. refl;
  same_product = λ r. refl;
  later = omega arith;
  timed = refl;
}

invited-Returns :
    (base : List QueueAttempt) (state : TransactionState) (a : QueueAttempt) (deadline : ℕ)
    → Ready base state
    → find_attempt_by_id state.attempts a.id ≡ some a
    → a.state ≡ QueueAttemptState.invited
    → Returns (transition_to_checkout state a deadline)
unfolding find_attempt_by_id transition_to_checkout
invited-Returns base state a deadline v f invited =
    let split = find_first-splits (λ b. b.id == a.id) state.attempts a f in
    let set = mark_checkout state.now deadline in
    let t = checkout-IsTransition state.now deadline a in
    let inside =
      subst
        (InTransaction state.product.id (record (state.tx) { attempts = base }) state.tx
          state.product.reserved)
        split.2 v.inside in
    let moved =
      InTransaction-updated a set t state.product.reserved split.0 split.1 inside
        (rw invited (unfold reserves_stock state_eq in refl)) in
    record {
      value = set a;
      state = record state { tx = updated a set state.tx };
      returns =
          rw
            (update_attempt-at a set t QueueAttemptState.invited state.tx invited
              (stored a set t split.0 split.1 inside) v.inside.valid)
            refl;
      consistent =
          Ready-Consistent base
            (record state { tx = updated a set state.tx; attempts = split.0 ++ set a ∷ split.1 })
            (record {
              inside = record {
                valid = moved.valid;
                mirrored = moved.mirrored;
                distinct = moved.distinct;
                owned = moved.owned;
                counted = moved.counted;
                covered = moved.covered;
                others = moved.others;
                products = refl;
              };
              bounded = v.bounded;
              stored = v.stored;
            });
    }

replied :
    (m : Result (QueueAttempt × TransactionState))
    → Returns m
    → Returns {A = Option QueueAttempt × Option Error}
        (do (updated, state') ← m; ok ((some updated, none), state'))
replied m r = record {
  value = (some r.value, none);
  state = r.state;
  returns = rw r.returns refl;
  consistent = r.consistent;
}

found-Returns :
    (repository : Repository) (base : List QueueAttempt) (state : TransactionState)
    → (a : QueueAttempt) → Ready base state
    → find_attempt_by_id state.attempts a.id ≡ some a
    → (s : QueueAttemptState) → a.state ≡ s
    → Returns (start_found repository state a)
unfolding start_found
found-Returns repository base state a v f QueueAttemptState.invited e =
    rw (e, start_found) (replied _ (invited-Returns base state a _ v f e))
found-Returns repository base state a v f QueueAttemptState.checkout e =
    rw (e, start_found) (at_once base state _ v)
found-Returns repository base state a v f QueueAttemptState.waiting e =
    rw (e, start_found) (at_once base state _ v)
found-Returns repository base state a v f QueueAttemptState.purchased e =
    rw (e, start_found) (at_once base state _ v)
found-Returns repository base state a v f QueueAttemptState.invite_expired e =
    rw (e, start_found) (at_once base state _ v)
found-Returns repository base state a v f QueueAttemptState.checkout_expired e =
    rw (e, start_found) (at_once base state _ v)
found-Returns repository base state a v f QueueAttemptState.sold_out e =
    rw (e, start_found) (at_once base state _ v)
found-Returns repository base state a v f QueueAttemptState.cancelled e =
    rw (e, start_found) (at_once base state _ v)
found-Returns repository base state a v f QueueAttemptState.payment_failed e =
    rw (e, start_found) (at_once base state _ v)

found_id :
    (attempts : List QueueAttempt) (id : ℕ) (a : QueueAttempt)
    → find_attempt_by_id attempts id ≡ some a
    → find_attempt_by_id attempts a.id ≡ some a
unfolding find_attempt_by_id
found_id attempts id a f =
    let h = find_first-passes (λ b. b.id == id) attempts a f in
    let same : a.id ≡ id = ground arith in
    subst (λ i. find_first (λ b. b.id == i) attempts ≡ some a) (sym same) f

reconciled-Returns :
    (repository : Repository) (base : List QueueAttempt) (command : StartCheckoutCommand)
    → (state : TransactionState) → Ready base state
    → Returns (start_reconciled repository command state)
unfolding start_reconciled
reconciled-Returns repository base command state v =
    elim (Option-cases (find_attempt_by_id state.attempts command.attempt_id)) [
      | inl e ↦ rw (e, start_reconciled) (at_once base state _ v)
      | inr (a, e) ↦ elim (Bool-cases (bytes_eq a.external_user_id command.external_user_id)) [
        | inr stranger ↦ rw (e, start_reconciled) (rw stranger (at_once base state _ v))
        | inl mine ↦
            rw (e, start_reconciled)
              (rw mine (
                found-Returns repository base state a v
                  (found_id state.attempts command.attempt_id a e) a.state refl))
      ]
    ]

pub operation-Returns :
    (repository : Repository) (base : List QueueAttempt) (command : StartCheckoutCommand)
    → (state : TransactionState) → Ready base state
    → Returns (start_checkout_operation repository command state)
unfolding start_checkout_operation
operation-Returns repository base command state v =
    let r = reconcile_locked_product-Ready repository base state v in
    rw r.1 (reconciled-Returns repository base command r.0 r.2)

-- On a consistent database, StartCheckout of an attempt whose product exists returns with a value: none
-- of its guarded updates misses its row, the reserved-stock invariant is never found broken, and the
-- database that it leaves is consistent. The CHECK constraints on the times of an attempt are not
-- modelled.
pub start_checkout-Consistent :
    (repository : Repository) (now : ℕ) (command : StartCheckoutCommand) (db : Database)
    → (row : ProductRow) → Consistent db
    → find_attempt_product db command.attempt_id ≡ ok row.id
    → find_row product_key row.id db.products ≡ some row
    → (value : Option QueueAttempt × Option Error) × (db' : Database) × (start_checkout repository
          now command db
        ≡ (ok value, db'))
      × Consistent db'
unfolding start_checkout
start_checkout-Consistent repository now command db row c found f =
    let scope : AttemptLockScope = record {
      external_user_id = [];
      idempotency_key = [];
      attempt_id = command.attempt_id;
      include_latest_for_user = false;
    } in
    let r =
      operation-Returns repository db.attempts command (begun db row now scope)
        (begun-Ready db row now scope c f) in
    (
      r.value,
      r.state.tx,
      rw (found, start_checkout)
          (locked-Returns now row scope (start_checkout_operation repository command) db f r),
      r.consistent,
    )
