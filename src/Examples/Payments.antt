-- ===== src/Examples/Payments.antt =====
-- The theorems on payments, on the outbox and on the percentage controller at concrete inputs.
use good_queue.Base.{
  ℕ, ◌+◌, ◌-◌, ◌*◌, ◌/◌, ◌≡◌, refl, true, false, none, some, codes, arith, pos, bytes_eq, ltb,
  pos_part,
}
use good_queue.Domain.{ok, err, wrapped, Sentinel}
use good_queue.Domain.Framing.{frame_fields, frame_field, put_uint32}
use good_queue.Domain.Payment.{canonical_payment_hash, canonical_payment_fields, outcome_text}
use good_queue.Store.Rows.{update_rows, find_row}
use good_queue.Queue.Lookup.{find_first}
use good_queue.Payment.Claim.{
  claim_payment, claim_with_digest, insert_received, find_stored_payment, claim_stored,
  lease_payment, responded, claimed, payment_result, retry_payment_claim,
}
use good_queue.Payment.Complete.{complete_payment}
use good_queue.Payment.Leases.{claim_payment-exclusive}
use good_queue.Payment.Replay.{complete_payment-once, claim_payment-replays}
use good_queue.Payment.Fencing.{claim_payment-fences}
use good_queue.Adaptive.{Float, Config, Controller, Reason, validate_config, refresh}
use good_queue.Base.{◌^◌, min}
use good_queue.Outbox.{exponential_backoff}
use good_queue.Outbox.Backoff.{exponential_backoff-doubles}
use good_queue.Adaptive.Steps.{Moved, refresh-Moved}
use good_queue.Examples.Fixture.{
  repository, text, payment, empty_database, claimed_database, first_claim, second_claim,
  reclaimed_database, completed_database, answer, claimed_row,
}

first_run :
    claim_payment repository text 10 payment empty_database
    ≡ (ok (claimed first_claim), claimed_database)
unfolding claim_payment claim_with_digest canonical_payment_hash canonical_payment_fields
    outcome_text frame_fields frame_field put_uint32 insert_received find_stored_payment find_first
    claim_stored lease_payment bytes_eq
first_run = refl

second_run :
    claim_payment repository text 40000000000 payment claimed_database
    ≡ (ok (claimed second_claim), reclaimed_database)
unfolding claim_payment claim_with_digest canonical_payment_hash canonical_payment_fields
    outcome_text frame_fields frame_field put_uint32 insert_received find_stored_payment find_first
    claim_stored lease_payment bytes_eq update_rows
second_run = refl

completed_run :
    complete_payment 20 first_claim 200 (codes "accepted") claimed_database
    ≡ ok (answer, completed_database)
unfolding claim_payment claim_with_digest canonical_payment_hash canonical_payment_fields
    outcome_text frame_fields frame_field put_uint32 insert_received find_stored_payment find_first
    claim_stored lease_payment bytes_eq update_rows complete_payment
completed_run = refl

claim_payment-exclusive_example : claim_payment repository text 11 payment claimed_database ≡ (
  ok (responded (payment_result 100 202 (codes "processing") false)),
  record claimed_database { issued = claimed_database.issued + 1 },
)
claim_payment-exclusive_example =
    claim_payment-exclusive repository text 10 11 payment empty_database claimed_database
      first_claim first_run (omega arith)

claim_payment-fences_example :
    (complete_payment 40000000001 first_claim 200 (codes "accepted") reclaimed_database
      ≡ err (wrapped Sentinel.stale_claim))
    × (retry_payment_claim 40000000001 first_claim reclaimed_database
        ≡ (err (wrapped Sentinel.stale_claim), reclaimed_database))
unfolding claim_payment claim_with_digest canonical_payment_hash canonical_payment_fields
    outcome_text frame_fields frame_field put_uint32 insert_received find_stored_payment find_first
    claim_stored lease_payment bytes_eq update_rows find_row
claim_payment-fences_example =
    claim_payment-fences repository text 40000000000 40000000001 payment claimed_database
      reclaimed_database second_claim first_claim 200 (codes "accepted") second_run (refl, tt) refl
      (omega arith)

complete_payment-once_example :
    complete_payment 21 first_claim 409 (codes "again") completed_database
    ≡ err (wrapped Sentinel.stale_claim)
complete_payment-once_example =
    complete_payment-once 20 21 first_claim 200 409 (codes "accepted") (codes "again")
      claimed_database completed_database answer completed_run

claim_payment-replays_example : claim_payment repository text 50 payment completed_database ≡ (
  ok (responded (payment_result 100 200 (codes "accepted") true)),
  record completed_database { issued = completed_database.issued + 1 },
)
unfolding claim_payment claim_with_digest canonical_payment_hash canonical_payment_fields
    outcome_text frame_fields frame_field put_uint32 insert_received find_stored_payment find_first
    claim_stored lease_payment bytes_eq update_rows
claim_payment-replays_example =
    claim_payment-replays repository text 20 50 44 payment first_claim 200 (codes "accepted")
      claimed_database completed_database answer claimed_row refl refl refl refl completed_run

-- Floating point on the integers.
abbrev whole : Float
whole = record {
  F = ℕ;
  of_int = pos_part;
  less = ltb;
  plus = λ a b. a + b;
  minus = λ a b. a - b;
  times = λ a b. a * b;
  divide = λ a b. a / b;
  round = λ a. a;
  ceil_int = pos;
}

abbrev config : Config whole
config = record {
  enabled = true;
  base_percent = pos 100;
  minimum_percent = pos 50;
  maximum_percent = pos 200;
  maximum_step_percent = pos 10;
  interval = pos 1;
  window = pos 1;
  minimum_http_requests = pos 1;
  minimum_checkout_outcomes = pos 1;
  minimum_http_success_percent = 90;
}

abbrev controller : Controller whole
controller = record {
  config = config;
  source = pos 100;
  snapshot = record {
    current_percent = pos 100;
    target_percent = none;
    http_requests = 0;
    http_success_percent = 0;
    checkout_outcomes = 0;
    purchase_success_percent = 0;
    reason = Reason.not_evaluated;
    evaluated_at = none;
    applied_at = none;
  };
}

refresh-Moved_example : Moved whole controller (
    refresh whole controller 5
      (some (record { successful = 99; total = 100 }))
      (some (record { purchased = 1; cancelled = 3; checkout_expired = 0 })))
unfolding validate_config
refresh-Moved_example =
    refresh-Moved whole controller 5 (some (record { successful = 99; total = 100 }))
      (some (record { purchased = 1; cancelled = 3; checkout_expired = 0 })) refl (omega arith)
      (omega arith, omega arith) refl

exponential_backoff-doubles_example : exponential_backoff 4 5 1000 ≡ min (5 * 2 ^ (4 - 1)) 1000
exponential_backoff-doubles_example =
    exponential_backoff-doubles 4 5 1000 (omega arith) (omega arith) (omega arith)
