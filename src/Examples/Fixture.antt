-- ===== src/Examples/Fixture.antt =====
-- A product with stock 2, four users, and what a short history leaves.
use good_queue.Base.{
  ℕ, ◌+◌, true, false, Option, none, some, List, [], ◌∷◌, codes, Bytes, pos, map, length,
}
use good_queue.Domain.{QueueAttempt, QueueAttemptState, JoinQueueCommand}
use good_queue.Store.Tables.{Database, ProductRow, InboxStatus, InboxRow}
use good_queue.Queue.Repository.{Repository, AttemptLockScope, TransactionState}
use good_queue.Queue.Invariant.Loading.{begun}
use good_queue.Domain.Payment.{PaymentCommand, PaymentOutcome, Text}
use good_queue.Payment.Process.{Schedule}
use good_queue.Queue.Join.{join}
use good_queue.Base.{negsuc}
use good_queue.Domain.{StockAdjustmentCommand, Sentinel}
use good_queue.Store.Tables.{AdjustmentRow, rejected_body}
use good_queue.Queue.Stock.{StockAdjustmentResult, stored_result}
use good_queue.Store.Rows.{update_rows}
use good_queue.Payment.Claim.{
  PaymentClaim, PaymentResult, claim_payment, holds_lease, payment_result,
}

abbrev pub repository : Repository
repository = record {
  invitation_ttl = 30;
  checkout_ttl = 60;
  waiting_buffer_percent = pos 100;
  uuid_new = λ n. n + 100;
  uuid_string = λ n. n ∷ [];
  trim_space = λ b. b;
  to_lower = λ b. b;
  format_int = λ z. [];
  sha256 = λ b. length b;
  payload_sum = λ p. 0;
}

abbrev pub product : ProductRow
product = record {
  id = 7;
  allocatable_stock = 2;
  reserved = 0;
  next_queue_sequence = 1;
  queue_enabled = true;
  updated_at = 0;
}

abbrev pub empty_database : Database
empty_database = record {
  products = product ∷ [];
  attempts = [];
  outbox = [];
  inbox = [];
  adjustments = [];
  issued = 0;
}

abbrev pub join_command : ℕ → JoinQueueCommand
join_command user = record {
  product_id = 7;
  external_user_id = user ∷ [];
  idempotency_key = user ∷ [];
}

abbrev pub joined : List ℕ → ℕ → Database → Database
joined [] now db = db
joined (u ∷ us) now db = joined us (now + 1) (join repository now (join_command u) db).1

abbrev pub states : Database → List QueueAttemptState
states db = map (λ a. a.state) db.attempts

-- An attempt of `user` on the product, with a number that is also its id.
abbrev pub attempt : ℕ → QueueAttemptState → Option ℕ → QueueAttempt
attempt n state deadline = record {
  id = n;
  product_id = 7;
  queue_sequence = n;
  external_user_id = n ∷ [];
  idempotency_key = n ∷ [];
  state = state;
  created_at = 1;
  updated_at = 1;
  invited_at = none;
  invitation_deadline = deadline;
  checkout_started_at = none;
  checkout_deadline = deadline;
  terminal_at = none;
  purchased_at = none;
  accepted_provider = none;
  accepted_reference = none;
  terminal_reason = none;
  terminal_message = none;
  version = 1;
}

-- Stock 2: a checkout that expires at 20, an invitation until 90, and two who wait.
abbrev pub busy_product : ProductRow
busy_product = record product { reserved = 2; next_queue_sequence = 5 }

abbrev pub busy_database : Database
busy_database = record empty_database {
  products = busy_product ∷ [];
  attempts =
      attempt 4 QueueAttemptState.waiting none
      ∷ attempt 2 QueueAttemptState.invited (some 90)
      ∷ attempt 3 QueueAttemptState.waiting none
      ∷ attempt 1 QueueAttemptState.checkout (some 20)
      ∷ [];
}

abbrev pub whole_product : AttemptLockScope
whole_product = record {
  external_user_id = [];
  idempotency_key = [];
  attempt_id = 0;
  include_latest_for_user = false;
}

abbrev pub busy_state : TransactionState
busy_state = begun busy_database busy_product 50 whole_product

-- A text package that leaves every string as it is, and a payment.
abbrev pub text : Text
text = record {
  trim_space = λ b. b;
  to_lower = λ b. b;
  parse_uuid = λ b. none;
  uuid_string = λ n. n ∷ [];
  sha256 = λ b. length b;
}

abbrev pub payment : PaymentCommand
payment = record {
  provider = codes "bank";
  event_id = codes "e1";
  attempt_id = 1;
  outcome = PaymentOutcome.payment_succeeded;
  payment_reference = codes "r1";
}

abbrev pub two_fields : List Bytes
two_fields = (7 ∷ []) ∷ [] ∷ []

-- What the first claim of the payment answers, and the inbox after it.
abbrev pub first_claim : PaymentClaim
first_claim = record {
  inbox_id = 100;
  token = 101;
  generation = 1;
  payload_hash = 44;
  command = payment;
}

abbrev pub claimed_database : Database
claimed_database = (claim_payment repository text 10 payment empty_database).1

-- The event claimed by a second worker after the lease.
abbrev pub second_claim : PaymentClaim
second_claim = record first_claim { token = 103; generation = 2 }

abbrev pub reclaimed_database : Database
reclaimed_database = (claim_payment repository text 40000000000 payment claimed_database).1

abbrev pub completed_database : Database
completed_database = record claimed_database {
  inbox =
      update_rows (holds_lease first_claim)
        (λ r. record r {
          status = InboxStatus.completed;
          response_status = some 200;
          response_code = codes "accepted";
          completed_at = some 20;
          updated_at = 20;
          lease_until = none;
          claim_token = none;
        })
        claimed_database.inbox;
}

abbrev pub answer : PaymentResult
answer = payment_result 100 200 (codes "accepted") false

abbrev pub claimed_row : InboxRow
claimed_row = record {
  id = 100;
  provider = codes "bank";
  event_id = codes "e1";
  attempt_id = 1;
  outcome = PaymentOutcome.payment_succeeded;
  payment_reference = some (codes "r1");
  payload = payment;
  payload_hash = 44;
  status = InboxStatus.processing;
  attempt_count = 1;
  next_attempt_at = 10;
  lease_until = some 30000000010;
  claim_token = some 101;
  claim_generation = 1;
  response_status = none;
  response_code = [];
  completed_at = none;
  updated_at = 10;
}

-- Nobody else commits, and the database clock reads 6.
abbrev pub undisturbed : Schedule
undisturbed = record { clock = λ n. 6; others = λ n db. db }

-- A stock adjustment that takes more than there is.
abbrev pub too_much : StockAdjustmentCommand
too_much = record {
  product_id = 7;
  idempotency_key = codes "k";
  delta = negsuc 4;
  reason = codes "loss";
  external_reference = codes "x1";
}

abbrev pub rejected_row : AdjustmentRow
rejected_row = record {
  id = 100;
  product_id = 7;
  adjustment_key = codes "k";
  delta = negsuc 4;
  payload_hash = 9;
  applied = false;
  stock_before = none;
  stock_after = none;
  response_status = 409;
  response_body = rejected_body Sentinel.stock_below_zero;
  completed_at = 50;
}

abbrev pub rejected_result : StockAdjustmentResult
rejected_result = stored_result rejected_row false

abbrev pub rejected_state : TransactionState
rejected_state = record busy_state {
  tx = record (busy_state.tx) { adjustments = rejected_row ∷ []; issued = 1 };
}
