-- ===== src/Payment/Flow.antt =====
-- A payment from ClaimPayment to its completion or retry (internal/repository/postgres/payment.go) on a
-- consistent database.
use good_queue.Base.{
  ◌≡◌, refl, ◌&&◌, Bool, true, false, some, List, ◌∷◌, ◌++◌, ◌==◌, codes, Bool-cases, Option-cases,
  inl, inr, if◌then◌else◌,
}
use good_queue.Domain.{QueueAttempt, QueueAttemptState, ProductId}
use good_queue.Domain.Payment.{PaymentOutcome}
use good_queue.Queue.Repository.{Repository, TransactionState}
use good_queue.Queue.Lookup.{find_attempt_by_id}
use good_queue.Queue.Lookup.Found.{find_first-splits}
use good_queue.Queue.Keeps.{bind-Holds, Leaves, Keeps, locked-LockedReconciles}
use good_queue.Queue.Invariant.Ready.{Ready}
use good_queue.Queue.Invariant.Loading.{Consistent, Ready-Consistent}
use good_queue.Payment.Claim.{PaymentClaim, reference_is, lock_and_validate_payment_claim}
use good_queue.Payment.Complete.{complete_with_compensation}
use good_queue.Payment.Apply.{apply_succeeded_payment, apply_failed_payment}
use good_queue.Payment.Process.{apply_claim, process_claim_operation}
use good_queue.Payment.Sound.{
  complete_in-Keeps, compensation-Keeps, fail_checkout-Keeps, accept_checkout-Keeps,
}

module _ (repository : Repository) (base : List QueueAttempt) (state : TransactionState)
    (claim : PaymentClaim) (a : QueueAttempt) (xs ys : List QueueAttempt) (v : Ready base state)
    (split : state.attempts ≡ xs ++ a ∷ ys) where
  kept : Consistent state.tx
  kept = Ready-Consistent base state v

  succeeded-Keeps :
      (s : QueueAttemptState)
      → a.state ≡ s
      → Keeps (apply_succeeded_payment repository state claim a)
  unfolding apply_succeeded_payment
  succeeded-Keeps QueueAttemptState.purchased e =
      elim (Bool-cases (
        reference_is a.accepted_provider claim.command.provider
        && reference_is a.accepted_reference claim.command.payment_reference)) [
          | inl mine ↦
              rw (e, apply_succeeded_payment)
                (rw mine (complete_in-Keeps state claim 200 (codes "already_accepted") kept))
          | inr other ↦
              rw (e, apply_succeeded_payment)
                (rw other (compensation-Keeps repository state claim _ kept))
        ]
  succeeded-Keeps QueueAttemptState.checkout e =
      rw (e, apply_succeeded_payment)
        (accept_checkout-Keeps repository base state claim a xs ys v split e)
  succeeded-Keeps QueueAttemptState.waiting e =
      rw (e, apply_succeeded_payment) (compensation-Keeps repository state claim _ kept)
  succeeded-Keeps QueueAttemptState.invited e =
      rw (e, apply_succeeded_payment) (compensation-Keeps repository state claim _ kept)
  succeeded-Keeps QueueAttemptState.invite_expired e =
      rw (e, apply_succeeded_payment) (compensation-Keeps repository state claim _ kept)
  succeeded-Keeps QueueAttemptState.checkout_expired e =
      rw (e, apply_succeeded_payment) (compensation-Keeps repository state claim _ kept)
  succeeded-Keeps QueueAttemptState.sold_out e =
      rw (e, apply_succeeded_payment) (compensation-Keeps repository state claim _ kept)
  succeeded-Keeps QueueAttemptState.cancelled e =
      rw (e, apply_succeeded_payment) (compensation-Keeps repository state claim _ kept)
  succeeded-Keeps QueueAttemptState.payment_failed e =
      rw (e, apply_succeeded_payment) (compensation-Keeps repository state claim _ kept)

  failed-Keeps :
      (s : QueueAttemptState) → a.state ≡ s → Keeps (apply_failed_payment repository state claim a)
  unfolding apply_failed_payment
  failed-Keeps QueueAttemptState.checkout e =
      rw (e, apply_failed_payment)
        (fail_checkout-Keeps repository base state claim a xs ys v split e)
  failed-Keeps QueueAttemptState.purchased e =
      rw (e, apply_failed_payment) (complete_in-Keeps state claim 200 _ kept)
  failed-Keeps QueueAttemptState.waiting e =
      rw (e, apply_failed_payment) (complete_in-Keeps state claim 409 _ kept)
  failed-Keeps QueueAttemptState.invited e =
      rw (e, apply_failed_payment) (complete_in-Keeps state claim 409 _ kept)
  failed-Keeps QueueAttemptState.invite_expired e =
      rw (e, apply_failed_payment) (complete_in-Keeps state claim 200 _ kept)
  failed-Keeps QueueAttemptState.checkout_expired e =
      rw (e, apply_failed_payment) (complete_in-Keeps state claim 200 _ kept)
  failed-Keeps QueueAttemptState.sold_out e =
      rw (e, apply_failed_payment) (complete_in-Keeps state claim 200 _ kept)
  failed-Keeps QueueAttemptState.cancelled e =
      rw (e, apply_failed_payment) (complete_in-Keeps state claim 200 _ kept)
  failed-Keeps QueueAttemptState.payment_failed e =
      rw (e, apply_failed_payment) (complete_in-Keeps state claim 200 _ kept)

  outcome-Keeps :
      (outcome : PaymentOutcome)
      → Keeps (elim outcome [
        | PaymentOutcome.payment_succeeded ↦ apply_succeeded_payment repository state claim a
        | PaymentOutcome.payment_failed ↦ apply_failed_payment repository state claim a
      ])
  outcome-Keeps PaymentOutcome.payment_succeeded = succeeded-Keeps a.state refl
  outcome-Keeps PaymentOutcome.payment_failed = failed-Keeps a.state refl

  found-Keeps :
      (product_id : ProductId) (force : Bool)
      → Keeps (apply_claim repository product_id claim force state (some a))
  unfolding apply_claim
  found-Keeps product_id force = elim (Bool-cases (a.product_id == product_id)) [
    | inr e ↦ rw e tt
    | inl e ↦ rw e (forced force)
  ]
    where
      forced :
          (f : Bool)
          → Keeps (
              if f
              then complete_with_compensation repository state claim a
              else (elim claim.command.outcome [
                | PaymentOutcome.payment_succeeded ↦
                    apply_succeeded_payment repository state claim a
                | PaymentOutcome.payment_failed ↦ apply_failed_payment repository state claim a
              ]))
      forced true = compensation-Keeps repository state claim a kept
      forced false = outcome-Keeps claim.command.outcome

module _ (repository : Repository) (base : List QueueAttempt) (claim : PaymentClaim)
    (product_id : ProductId) (force : Bool) where
  apply_claim-Keeps :
      (state : TransactionState)
      → Ready base state
      → Keeps (
          apply_claim repository product_id claim force state
            (find_attempt_by_id state.attempts claim.command.attempt_id))
  unfolding find_attempt_by_id apply_claim
  apply_claim-Keeps state v =
      elim (Option-cases (find_attempt_by_id state.attempts claim.command.attempt_id)) [
        | inl e ↦ rw (e, apply_claim) tt
        | inr (a, e) ↦
            let split =
              find_first-splits (λ b. b.id == claim.command.attempt_id) state.attempts a e in
            rw e
              (found-Keeps repository base state claim a split.0 split.1 v split.2 product_id force)
      ]

  pub process_claim_operation-Keeps :
      (state : TransactionState)
      → Ready base state
      → Keeps (process_claim_operation repository product_id claim force state)
  unfolding process_claim_operation
  process_claim_operation-Keeps state v =
      let r = locked-LockedReconciles repository base state v in
      bind-Holds Leaves (lock_and_validate_payment_claim state.tx claim) _
        (λ done h. rw r.returns (apply_claim-Keeps r.result r.ready))
