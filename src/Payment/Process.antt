-- ===== src/Payment/Process.antt =====
-- ProcessPayment, ProcessPaymentClaim, processClaimForProduct and finalizePaymentWithoutProduct
-- (internal/repository/postgres/payment.go).
use good_queue.Base.{
  ℕ, Bool, true, false, ◌||◌, not, Option, none, some, [], ◌==◌, if◌then◌else◌, codes,
}
use good_queue.Domain.{
  ProductId, QueueAttempt, Error, wrapped, joined, Sentinel, errors_is, Result, ok, err, ◌>>=◌,
  ◌>>◌,
}
use good_queue.Domain.Payment.{PaymentOutcome, PaymentCommand, Text}
use good_queue.Store.Tables.{Database}
use good_queue.Queue.Repository.{Repository, TransactionState}
use good_queue.Queue.Lookup.{find_attempt_by_id}
use good_queue.Queue.Transaction.{with_locked_product}
use good_queue.Queue.Reconcile.{reconcile_locked_product}
use good_queue.Queue.Checkout.{find_attempt_product}
use good_queue.Payment.Claim.{
  PaymentResult, PaymentClaim, PaymentClaimResult, claimed, responded, claim_payment,
  retry_payment_claim, validate_payment_claim, lock_and_validate_payment_claim, committed,
}
use good_queue.Payment.Complete.{PaymentReply, complete_payment, complete_with_compensation}
use good_queue.Payment.Apply.{apply_succeeded_payment, apply_failed_payment}

-- What surrounds the transactions of one ProcessPayment: the database clock at each, and what other
-- clients commit before each. They are numbered: the claim, the reading of the attempt's product, the
-- processing, the processing after a reference conflict, and the retry.
pub record Schedule : Type 0 where
  pub clock : ℕ → ℕ
  pub others : ℕ → Database → Database

unfoldable pub apply_claim :
    Repository
    → ProductId
    → PaymentClaim
    → Bool
    → TransactionState
    → Option QueueAttempt
    → Result PaymentReply
apply_claim repository product_id claim force state none = err (wrapped Sentinel.stale_claim)
apply_claim repository product_id claim force state (some attempt) =
    if not (attempt.product_id == product_id)
    then err (wrapped Sentinel.stale_claim)
    else if force
    then complete_with_compensation repository state claim attempt
    else elim claim.command.outcome [
      | PaymentOutcome.payment_succeeded ↦ apply_succeeded_payment repository state claim attempt
      | PaymentOutcome.payment_failed ↦ apply_failed_payment repository state claim attempt
    ]

unfoldable pub process_claim_operation :
    Repository → ProductId → PaymentClaim → Bool → TransactionState → Result PaymentReply
process_claim_operation repository product_id claim force state = do
  lock_and_validate_payment_claim state.tx claim
  state' ← reconcile_locked_product repository state
  apply_claim repository product_id claim force state'
      (find_attempt_by_id state'.attempts claim.command.attempt_id)

unfoldable pub process_claim_for_product :
    Repository → ℕ → ProductId → PaymentClaim → Bool → Database → Result PaymentResult × Database
process_claim_for_product repository now product_id claim force =
    with_locked_product now product_id
      (record {
        external_user_id = [];
        idempotency_key = [];
        attempt_id = claim.command.attempt_id;
        include_latest_for_user = false;
      })
      (process_claim_operation repository product_id claim force)

unfoldable pub finalize_payment_without_product :
    ℕ → PaymentClaim → Database → Result PaymentResult × Database
finalize_payment_without_product now claim db = committed db (do
  lock_and_validate_payment_claim db claim
  complete_payment now claim 404 (codes "attempt_not_found") db)

abbrev pub is_reference_conflict : Result PaymentResult → Bool
is_reference_conflict (err Error.reference_conflict) = true
is_reference_conflict _ = false

-- A reference that another purchase took in the meantime is compensated in a second transaction.
unfoldable pub process_for_product :
    Repository → Schedule → PaymentClaim → ProductId → Database → Result PaymentResult × Database
process_for_product repository schedule claim product_id db =
    let first =
      process_claim_for_product repository (schedule.clock 2) product_id claim false
        (schedule.others 2 db) in
    if is_reference_conflict first.0
    then process_claim_for_product repository (schedule.clock 3) product_id claim true
        (schedule.others 3 first.1)
    else first

unfoldable pub process_payment_claim :
    Repository → Text → Schedule → PaymentClaim → Database → Result PaymentResult × Database
process_payment_claim repository text schedule claim db = elim (validate_payment_claim text claim) [
  | err e ↦ (err e, db)
  | ok valid ↦
      let seen = schedule.others 1 db in
      elim (find_attempt_product seen valid.command.attempt_id) [
        | ok product_id ↦ process_for_product repository schedule valid product_id seen
        | err e ↦
            if errors_is e Sentinel.attempt_not_found
            then finalize_payment_without_product (schedule.clock 2) valid (schedule.others 2 seen)
            else (err e, seen)
      ]
]

-- The errors that ProcessPayment passes on with no retry.
abbrev pub is_final_error : Error → Bool
is_final_error e =
    errors_is e Sentinel.stale_claim
    || errors_is e Sentinel.reserved_invariant
    || errors_is e Sentinel.payment_claim_integrity

abbrev pub after_retry : Error → Result (Unit {0}) × Database → Result PaymentResult × Database
after_retry e (ok _, db) = (err e, db)
after_retry e (err r, db) =
    if errors_is r Sentinel.stale_claim then (err e, db) else (err (joined e r), db)

abbrev pub finish_processing :
    Schedule → PaymentClaim → Result PaymentResult × Database → Result PaymentResult × Database
finish_processing schedule claim (ok result, db) = (ok result, db)
finish_processing schedule claim (err e, db) =
    if is_final_error e
    then (err e, db)
    else after_retry e (retry_payment_claim (schedule.clock 4) claim (schedule.others 4 db))

-- What follows the claim.
unfoldable pub process_claimed :
    Repository
    → Text
    → Schedule
    → Result PaymentClaimResult × Database
    → Result PaymentResult × Database
process_claimed repository text schedule (err e, db) = (err e, db)
process_claimed repository text schedule (ok (responded result), db) = (ok result, db)
process_claimed repository text schedule (ok (claimed claim), db) =
    finish_processing schedule claim (process_payment_claim repository text schedule claim db)

unfoldable pub process_payment :
    Repository → Text → Schedule → PaymentCommand → Database → Result PaymentResult × Database
process_payment repository text schedule command db =
    process_claimed repository text schedule
      (claim_payment repository text (schedule.clock 0) command (schedule.others 0 db))
