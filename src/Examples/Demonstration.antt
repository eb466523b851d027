-- ===== src/Examples/Demonstration.antt =====
-- CompleteDemo on a whole database: the checkout of user 1 is paid.
use good_queue.Base.{◌≡◌, refl, some, false, [], ◌∷◌, codes, ◌+◌, ◌++◌, bytes_eq}
use good_queue.Domain.{QueueAttempt, QueueAttemptState, ok, state_eq}
use good_queue.Examples.Fixture.{repository, busy_database, attempt}
use good_queue.Payment.Apply.{mark_purchased}
use good_queue.Usecase.Demo.{IsSettled, complete_demo-IsSettled}
use good_queue.Usecase.Consistency.{complete_demo-Consistent}
use good_queue.Queue.Invariant.Loading.{Consistent}
use good_queue.Examples.Witnesses.{busy_database-Consistent}
use good_queue.Examples.Inputs.{readable}
use good_queue.Examples.Fixture.{undisturbed}
use good_queue.Usecase.{
  PaymentUseCase, Environment, DemoPaymentResult, process, demo_payment_token, check_current,
  check_payment, check_latest, confirm_demo, pay_demo, complete_with, complete_demo,
}
use good_queue.Queue.Current.{find_current_operation, find_current}
use good_queue.Queue.Transaction.{
  lock_product, select_sorted, in_scope, lock_product_attempts, with_locked_product,
}
use good_queue.Queue.Reconcile.{
  expired_state, expire_attempt, for_each, expire_loop, promote_loop, has_work,
  has_reconciliation_work, store_reserved, reserved_count, second_loop, run_loops,
  reconcile_locked_product_bounded, reconcile_locked_product,
}
use good_queue.Queue.Lookup.{
  reserves_stock, find_active_attempt, latest_attempt_for_user, find_attempt_by_id, is_effective_at,
}
use good_queue.Queue.Transitions.{update_product, replace_attempt}
use good_queue.Queue.Checkout.{find_attempt_product}
use good_queue.Payment.Claim.{
  find_stored_payment, insert_received, lease_payment, claim_stored, claim_with_digest,
  claim_payment, validate_payment_claim, payload_eq, stored_payment_reference_matches,
  lock_and_validate_payment_claim,
}
use good_queue.Payment.Complete.{complete_payment, complete_in}
use good_queue.Payment.Apply.{
  consume_inventory, accept_purchase, accept_checkout, apply_succeeded_payment,
}
use good_queue.Payment.Process.{
  apply_claim, process_claim_operation, process_claim_for_product, process_for_product,
  process_payment_claim, process_claimed, process_payment,
}
use good_queue.Domain.Payment.{
  normalize_required_payment_field, parse_attempt_id, outcome_text, parse_outcome,
  normalize_reference, parse_payment_command, canonical_payment_fields, canonical_payment_hash,
}
use good_queue.Domain.Framing.{frame_fields}
use good_queue.Store.Rows.{update_rows}
use good_queue.Store.Tables.{update_attempt}

abbrev use_case : PaymentUseCase
use_case = record { inbox = some repository; attempts = some repository }

abbrev alone : Environment
alone = record {
  clock = λ n. n + 5;
  others = λ n db. db;
  payment = undisturbed;
  encode_to_string = λ n. n ∷ [];
}

abbrev paid_attempt : QueueAttempt
paid_attempt =
    mark_purchased 6 (codes "goodqueue-demo") (codes "payment-" ++ 5 ∷ [])
      (attempt 1 QueueAttemptState.checkout (some 20))

abbrev paid_result : DemoPaymentResult
paid_result = record { attempt = paid_attempt; processing = false }

paid_run :
    (complete_demo use_case readable alone 7 1 (1 ∷ []) (codes "k") busy_database).0
    ≡ ok paid_result
unfolding process demo_payment_token check_current check_payment check_latest confirm_demo pay_demo
    complete_with complete_demo find_current_operation find_current lock_product select_sorted
    in_scope lock_product_attempts expired_state expire_attempt for_each expire_loop promote_loop
    has_work has_reconciliation_work store_reserved reserved_count second_loop run_loops
    reconcile_locked_product_bounded reconcile_locked_product reserves_stock find_active_attempt
    latest_attempt_for_user find_attempt_by_id is_effective_at update_product replace_attempt
    find_attempt_product find_stored_payment insert_received lease_payment claim_stored
    claim_with_digest claim_payment validate_payment_claim payload_eq
    stored_payment_reference_matches lock_and_validate_payment_claim complete_payment complete_in
    consume_inventory accept_purchase accept_checkout apply_succeeded_payment apply_claim
    process_claim_operation process_claim_for_product process_for_product process_payment_claim
    process_claimed process_payment normalize_required_payment_field parse_attempt_id outcome_text
    parse_outcome normalize_reference parse_payment_command canonical_payment_fields
    canonical_payment_hash frame_fields state_eq bytes_eq with_locked_product update_rows
    update_attempt
paid_run = refl

complete_demo-IsSettled_example : IsSettled 1 paid_result
complete_demo-IsSettled_example =
    complete_demo-IsSettled use_case readable alone 7 1 (1 ∷ []) (codes "k") busy_database
      paid_result paid_run

complete_demo-Consistent_example :
    Consistent ((complete_demo use_case readable alone 7 1 (1 ∷ []) (codes "k") busy_database).1)
complete_demo-Consistent_example =
    complete_demo-Consistent use_case readable alone 7 1 (1 ∷ []) (codes "k") busy_database
      (record { around = λ n db c. c; within = λ n db c. c }) busy_database-Consistent
