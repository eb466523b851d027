-- ===== src/Payment/Apply.antt =====
-- applySucceededPayment and applyFailedPayment (internal/repository/postgres/payment.go).
use good_queue.Base.{
  ℕ, ◌+◌, ◌-◌, Bool, ◌&&◌, not, none, some, ltb, ◌==◌, if◌then◌else◌, Bytes, codes, count_where,
}
use good_queue.Domain.{
  QueueAttempt, QueueAttemptState, state_eq, Error, wrapped, joined, Sentinel, Result, ok, ◌>>=◌,
  ◌>>◌, guard,
}
use good_queue.Store.Tables.{update_attempt}
use good_queue.Queue.Repository.{Repository, TransactionState, reserved_invariant_error}
use good_queue.Queue.Lookup.{find_first}
use good_queue.Queue.Transitions.{
  mark_terminal, update_product, release_reservation, replace_attempt,
}
use good_queue.Queue.Reconcile.{reconcile_locked_product}
use good_queue.Payment.Claim.{PaymentClaim, reference_is}
use good_queue.Payment.Complete.{PaymentReply, complete_in, complete_with_compensation}

-- requireOneRow's error under the reserved-invariant sentinel.
abbrev pub reserved_conflict_error : Error
reserved_conflict_error = joined reserved_invariant_error (wrapped Sentinel.conflict)

-- The columns that an accepted payment sets.
abbrev pub mark_purchased : ℕ → Bytes → Bytes → QueueAttempt → QueueAttempt
mark_purchased now provider reference a = record a {
  state = QueueAttemptState.purchased;
  terminal_at = some now;
  purchased_at = some now;
  terminal_reason = some (codes "purchased");
  terminal_message = some (codes "purchased");
  accepted_provider = some provider;
  accepted_reference = some reference;
  updated_at = now;
  version = a.version + 1;
}

-- A purchase that this payment reference already paid for.
abbrev pub is_owner : Bytes → Bytes → QueueAttempt → Bool
is_owner provider reference a =
    state_eq a.state QueueAttemptState.purchased
    && (reference_is a.accepted_provider provider && reference_is a.accepted_reference reference)

-- `UPDATE products SET allocatable_stock=allocatable_stock-1, reserved=reserved-1 WHERE …`
unfoldable pub consume_inventory : TransactionState → Result TransactionState
consume_inventory state = do
  tx' ←
      update_product
        (λ row.
          row.id == state.product.id
          && (row.allocatable_stock == state.product.allocatable_stock
              && (row.reserved == state.product.reserved
                  && (ltb 0 row.allocatable_stock && ltb 0 row.reserved))))
        (λ row. record row {
          allocatable_stock = row.allocatable_stock - 1;
          reserved = row.reserved - 1;
          updated_at = state.now;
        })
        reserved_conflict_error state.tx
  ok (record state {
    tx = tx';
    product = record (state.product) {
      allocatable_stock = state.product.allocatable_stock - 1;
      reserved = state.product.reserved - 1;
    };
  })

-- The purchase of an attempt in checkout. The unique index on accepted references is checked by the
-- UPDATE itself.
unfoldable pub accept_purchase :
    Repository → TransactionState → PaymentClaim → QueueAttempt → Result PaymentReply
accept_purchase repository state claim attempt =
    let provider = claim.command.provider in
    let reference = claim.command.payment_reference in
    let set = mark_purchased state.now provider reference in
    do
      guard (ltb 0 state.product.allocatable_stock && ltb 0 state.product.reserved)
          reserved_invariant_error
      guard (count_where (is_owner provider reference) state.tx.attempts == 0)
          Error.reference_conflict
      tx' ← update_attempt attempt.id QueueAttemptState.checkout attempt.version set state.tx
      consumed ← consume_inventory (record state { tx = tx' })
      state' ←
          reconcile_locked_product repository
            (record consumed { attempts = replace_attempt (set attempt) consumed.attempts })
      complete_in state' claim 200 (codes "accepted")

-- The owner query, for an attempt in checkout.
unfoldable pub accept_checkout :
    Repository → TransactionState → PaymentClaim → QueueAttempt → Result PaymentReply
accept_checkout repository state claim attempt =
    elim (find_first (is_owner claim.command.provider claim.command.payment_reference)
      state.tx.attempts) [
        | none ↦ accept_purchase repository state claim attempt
        | some owner ↦
            if not (owner.id == attempt.id)
            then complete_with_compensation repository state claim attempt
            else accept_purchase repository state claim attempt
      ]

unfoldable pub apply_succeeded_payment :
    Repository → TransactionState → PaymentClaim → QueueAttempt → Result PaymentReply
apply_succeeded_payment repository state claim attempt = elim attempt.state [
  | QueueAttemptState.purchased ↦
      if reference_is attempt.accepted_provider claim.command.provider
        && reference_is attempt.accepted_reference claim.command.payment_reference
      then complete_in state claim 200 (codes "already_accepted")
      else complete_with_compensation repository state claim attempt
  | QueueAttemptState.checkout ↦ accept_checkout repository state claim attempt
  | _ ↦ complete_with_compensation repository state claim attempt
]

-- The reservation of a failed checkout goes back to the queue.
unfoldable pub fail_checkout :
    Repository → TransactionState → PaymentClaim → QueueAttempt → Result PaymentReply
fail_checkout repository state claim attempt =
    let set = mark_terminal state.now QueueAttemptState.payment_failed (codes "payment_failed") in
    do
      guard (ltb 0 state.product.reserved) reserved_invariant_error
      tx' ← update_attempt attempt.id QueueAttemptState.checkout attempt.version set state.tx
      released ← release_reservation (record state { tx = tx' }) reserved_conflict_error
      state' ←
          reconcile_locked_product repository
            (record released { attempts = replace_attempt (set attempt) released.attempts })
      complete_in state' claim 200 (codes "accepted")

unfoldable pub apply_failed_payment :
    Repository → TransactionState → PaymentClaim → QueueAttempt → Result PaymentReply
apply_failed_payment repository state claim attempt = elim attempt.state [
  | QueueAttemptState.checkout ↦ fail_checkout repository state claim attempt
  | QueueAttemptState.purchased ↦ complete_in state claim 200 (codes "ignored_purchase_final")
  | QueueAttemptState.waiting ↦ complete_in state claim 409 (codes "invalid_transition")
  | QueueAttemptState.invited ↦ complete_in state claim 409 (codes "invalid_transition")
  | _ ↦ complete_in state claim 200 (codes "ignored_terminal")
]
