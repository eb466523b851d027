-- ===== src/Payment/Sound.antt =====
-- ProcessPayment and what it calls (internal/repository/postgres/payment.go) on a consistent database.
use good_queue.Base.{
  ℕ, ◌-◌, ◌<◌, ◌≡◌, refl, ap, subst, ◌∙◌, ◌&&◌, List, ◌∷◌, ◌++◌, ◌==◌, arith, ltb, Bytes, codes,
  count_where, Bool-cases, Option-cases, inl, inr,
}
use good_queue.Domain.{QueueAttempt, QueueAttemptState, state_eq, Error, ok}
use good_queue.Store.Tables.{Database, ProductRow, key_eq, compensation_key}
use good_queue.Queue.Repository.{Repository, TransactionState, reserved_invariant_error}
use good_queue.Queue.Lookup.{reserves_stock, find_first}
use good_queue.Queue.Transitions.{mark_terminal, replace_attempt}
use good_queue.Queue.Keeps.{guard-Holds, Leaves, Keeps, locked-LockedReconciles}
use good_queue.Queue.Invariant.{has_deadline, InTransaction}
use good_queue.Queue.Invariant.Step.{IsTransition, updated, update_attempt-at, stored}
use good_queue.Queue.Invariant.Ready.{Stored, Ready, update_product-Stored}
use good_queue.Queue.Invariant.Loading.{Consistent, Ready-Consistent}
use good_queue.Queue.Invariant.Moves.{
  moved, moved-Ready, release_reservation-Stored, replace_attempt-middle,
}
use good_queue.Payment.Claim.{PaymentClaim, holds_lease}
use good_queue.Payment.Complete.{
  complete_payment, complete_in, enqueue_compensation, complete_with_compensation,
}
use good_queue.Payment.Apply.{
  mark_purchased, is_owner, consume_inventory, accept_purchase, accept_checkout, fail_checkout,
  reserved_conflict_error,
}

-- What completes a payment leaves the products, the attempts and the outbox as they are.
pub complete_in-Keeps :
    (state : TransactionState) (claim : PaymentClaim) (http_status : ℕ) (code : Bytes)
    → Consistent state.tx
    → Keeps (complete_in state claim http_status code)
unfolding complete_in complete_payment
complete_in-Keeps state claim http_status code c =
    elim (Bool-cases (count_where (holds_lease claim) state.tx.inbox == 1)) [
      | inr e ↦ rw e tt
      | inl e ↦ rw e (record {
        valid = record { keyed = c.valid.keyed; timed = c.valid.timed; known = c.valid.known };
        distinct = c.distinct;
        balanced = c.balanced;
      })
    ]

enqueue_compensation-Consistent :
    (repository : Repository) (now : ℕ) (claim : PaymentClaim) (attempt : QueueAttempt)
    → (db : Database) → Consistent db
    → Consistent (enqueue_compensation repository now claim attempt db)
unfolding enqueue_compensation
enqueue_compensation-Consistent repository now claim attempt db c =
    elim (Bool-cases (
      count_where (λ r. key_eq r.deduplication_key (compensation_key claim.inbox_id)) db.outbox
      == 0)) [
        | inl e ↦ rw e (record {
          valid = record {
            keyed = c.valid.keyed;
            timed = c.valid.timed;
            known = (tt, c.valid.known);
          };
          distinct = c.distinct;
          balanced = c.balanced;
        })
        | inr e ↦ rw e (record {
          valid = record { keyed = c.valid.keyed; timed = c.valid.timed; known = c.valid.known };
          distinct = c.distinct;
          balanced = c.balanced;
        })
      ]

pub compensation-Keeps :
    (repository : Repository) (state : TransactionState) (claim : PaymentClaim)
    → (attempt : QueueAttempt) → Consistent state.tx
    → Keeps (complete_with_compensation repository state claim attempt)
unfolding complete_with_compensation
compensation-Keeps repository state claim attempt c =
    complete_in-Keeps
      (record state { tx = enqueue_compensation repository state.now claim attempt state.tx }) claim
      200 (codes "compensation_required")
      (enqueue_compensation-Consistent repository state.now claim attempt state.tx c)

-- The stock of a ready transaction gives up one unit, and its reservation.
consume_inventory-Stored :
    (base : List QueueAttempt) (state : TransactionState)
    → 0 < state.product.allocatable_stock
    → 0 < state.product.reserved
    → Stored base state.product.id state.product.allocatable_stock state.product.reserved
        state.product.next_queue_sequence state.tx.products
    → (products : List ProductRow) × (consume_inventory state
        ≡ ok (record state {
          tx = record (state.tx) { products = products };
          product = record (state.product) {
            allocatable_stock = state.product.allocatable_stock - 1;
            reserved = state.product.reserved - 1;
          };
        }))
      × Stored base state.product.id
          (state.product.allocatable_stock - 1)
          (state.product.reserved - 1)
          state.product.next_queue_sequence
          products
unfolding consume_inventory
consume_inventory-Stored base state some_stock some_held s =
    let u =
      update_product-Stored base state.product.id state.product.allocatable_stock
        state.product.reserved state.product.next_queue_sequence
        (state.product.allocatable_stock - 1) (state.product.reserved - 1)
        state.product.next_queue_sequence
        (λ row.
          row.id == state.product.id
          && (row.allocatable_stock == state.product.allocatable_stock
              && (row.reserved == state.product.reserved
                  && (ltb 0 row.allocatable_stock && ltb 0 row.reserved))))
        (λ row. record row {
          allocatable_stock = row.allocatable_stock - 1;
          reserved = row.reserved - 1;
          updated_at = state.now;
        })
        (λ r p. ground arith) (λ r. refl)
        (λ r i st rs sq. (ground arith, ground arith, ground arith, sq)) reserved_conflict_error
        state.tx s in
    (_, rw u.0 refl, u.1)

failed : ℕ → QueueAttempt → QueueAttempt
failed now = mark_terminal now QueueAttemptState.payment_failed (codes "payment_failed")

failed-IsTransition : (now : ℕ) (a : QueueAttempt) → IsTransition a (failed now)
unfolding has_deadline failed
failed-IsTransition now a = record {
  same_id = λ r. refl;
  same_product = λ r. refl;
  later = omega arith;
  timed = refl;
}

purchased-IsTransition :
    (now : ℕ) (provider reference : Bytes) (a : QueueAttempt)
    → IsTransition a (mark_purchased now provider reference)
unfolding has_deadline
purchased-IsTransition now provider reference a = record {
  same_id = λ r. refl;
  same_product = λ r. refl;
  later = omega arith;
  timed = refl;
}

-- A checkout of the transaction, found in memory, ends.
module _ (repository : Repository) (base : List QueueAttempt) (state : TransactionState)
    (claim : PaymentClaim) (a : QueueAttempt) (xs ys : List QueueAttempt) (v : Ready base state)
    (split : state.attempts ≡ xs ++ a ∷ ys) (open_sale : a.state ≡ QueueAttemptState.checkout) where
  inside :
      InTransaction state.product.id
        (record (state.tx) { attempts = base })
        state.tx
        state.product.reserved
        (xs ++ a ∷ ys)
  inside =
      subst
        (InTransaction state.product.id (record (state.tx) { attempts = base }) state.tx
          state.product.reserved)
        split v.inside

  replaced :
      (set : QueueAttempt → QueueAttempt)
      → (set a).id ≡ a.id
      → replace_attempt (set a) state.attempts ≡ xs ++ set a ∷ ys
  replaced set same =
      ap (replace_attempt (set a)) split
      ∙ replace_attempt-middle (set a) a xs ys same inside.distinct

  pub fail_checkout-Keeps : Keeps (fail_checkout repository state claim a)
  unfolding fail_checkout failed
  fail_checkout-Keeps =
      let set = failed state.now in
      let t = failed-IsTransition state.now a in
      let update =
        update_attempt-at a set t QueueAttemptState.checkout state.tx open_sale
          (stored a set t xs ys inside) inside.valid in
      guard-Holds Leaves (ltb 0 state.product.reserved) reserved_invariant_error _ (λ some_held.
        let released =
          release_reservation-Stored base (record state { tx = updated a set state.tx })
            reserved_conflict_error (ground arith) v.stored in
        let ready =
          moved-Ready base state a set xs ys state.product.allocatable_stock
            (state.product.reserved - 1) released.0 t v split
            (rw open_sale (unfold reserves_stock state_eq in ground arith))
            (omega (arith, v.bounded)) released.2 in
        let r =
          locked-LockedReconciles repository base
            (moved a set xs ys state.product.allocatable_stock (state.product.reserved - 1)
              released.0 state)
            ready in
        rw update (
          rw released.1 (
            rw (replaced set refl) (
              rw r.returns (
                complete_in-Keeps r.result claim 200 (codes "accepted")
                  (Ready-Consistent base r.result r.ready))))))

  accept_purchase-Keeps : Keeps (accept_purchase repository state claim a)
  unfolding accept_purchase
  accept_purchase-Keeps =
      let provider = claim.command.provider in
      let reference = claim.command.payment_reference in
      let set = mark_purchased state.now provider reference in
      let t = purchased-IsTransition state.now provider reference a in
      let update =
        update_attempt-at a set t QueueAttemptState.checkout state.tx open_sale
          (stored a set t xs ys inside) inside.valid in
      guard-Holds Leaves (ltb 0 state.product.allocatable_stock && ltb 0 state.product.reserved)
        reserved_invariant_error _
        (λ some_left.
          guard-Holds Leaves (count_where (is_owner provider reference) state.tx.attempts == 0)
            Error.reference_conflict _
            (λ unowned.
              let consumed =
                consume_inventory-Stored base (record state { tx = updated a set state.tx })
                  (ground arith) (ground arith) v.stored in
              let ready =
                moved-Ready base state a set xs ys (state.product.allocatable_stock - 1)
                  (state.product.reserved - 1) consumed.0 t v split
                  (rw open_sale (unfold reserves_stock state_eq in ground arith))
                  (omega (arith, v.bounded)) consumed.2 in
              let r =
                locked-LockedReconciles repository base
                  (moved a set xs ys (state.product.allocatable_stock - 1)
                    (state.product.reserved - 1) consumed.0 state)
                  ready in
              rw update (
                rw consumed.1 (
                  rw (replaced set refl) (
                    rw r.returns (
                      complete_in-Keeps r.result claim 200 (codes "accepted")
                        (Ready-Consistent base r.result r.ready)))))))

  pub accept_checkout-Keeps : Keeps (accept_checkout repository state claim a)
  unfolding accept_checkout
  accept_checkout-Keeps =
      elim (Option-cases (
        find_first (is_owner claim.command.provider claim.command.payment_reference)
          state.tx.attempts)) [
            | inl e ↦ rw (e, accept_checkout) accept_purchase-Keeps
            | inr (owner, e) ↦ elim (Bool-cases (owner.id == a.id)) [
              | inl same ↦ rw (e, accept_checkout) (rw same accept_purchase-Keeps)
              | inr other ↦
                  rw (e, accept_checkout)
                    (rw other
                      (compensation-Keeps repository state claim a (Ready-Consistent base state v)))
            ]
          ]
