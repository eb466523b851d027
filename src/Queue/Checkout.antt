-- ===== src/Queue/Checkout.antt =====
-- StartCheckout and findAttemptProduct (internal/repository/postgres/queue_attempt.go).
pub mod Sound
use good_queue.Base.{
  ℕ, ◌+◌, Bool, true, false, Option, none, some, [], ◌==◌, if◌then◌else◌, bytes_eq,
}
use good_queue.Domain.{
  AttemptId, ProductId, QueueAttempt, QueueAttemptState, Sentinel, Error, wrapped, Result, ok, err,
  ◌>>=◌, StartCheckoutCommand,
}
use good_queue.Store.Rows.{find_row}
use good_queue.Store.Tables.{Database, attempt_key}
use good_queue.Queue.Repository.{Repository, TransactionState}
use good_queue.Queue.Lookup.{find_attempt_by_id}
use good_queue.Queue.Transaction.{with_locked_product}
use good_queue.Queue.Transitions.{transition_to_checkout}
use good_queue.Queue.Reconcile.{reconcile_locked_product}

-- SELECT product_id FROM queue_attempts WHERE id=$1
unfoldable pub find_attempt_product : Database → AttemptId → Result ProductId
find_attempt_product db id = elim (find_row attempt_key id db.attempts) [
  | none ↦ err (wrapped Sentinel.attempt_not_found)
  | some a ↦ ok a.product_id
]

-- An attempt, the outcome of the call, and the transaction.
abbrev pub AttemptReply : Type 0
AttemptReply = (Option QueueAttempt × Option Error) × TransactionState

unfoldable pub start_found : Repository → TransactionState → QueueAttempt → Result AttemptReply
start_found repository state attempt = elim attempt.state [
  | QueueAttemptState.checkout ↦ ok ((some attempt, none), state)
  | QueueAttemptState.invited ↦ (do
    (updated, state') ← transition_to_checkout state attempt (state.now + repository.checkout_ttl)
    ok ((some updated, none), state'))
  | QueueAttemptState.invite_expired ↦
      ok ((some attempt, some (wrapped Sentinel.attempt_gone)), state)
  | QueueAttemptState.checkout_expired ↦
      ok ((some attempt, some (wrapped Sentinel.attempt_gone)), state)
  | QueueAttemptState.sold_out ↦ ok ((some attempt, some (wrapped Sentinel.attempt_gone)), state)
  | _ ↦ ok ((some attempt, some (wrapped Sentinel.invalid_transition)), state)
]

-- After the reconciliation.
unfoldable pub start_reconciled :
    Repository → StartCheckoutCommand → TransactionState → Result AttemptReply
start_reconciled repository command state =
    elim (find_attempt_by_id state.attempts command.attempt_id) [
      | none ↦ ok ((none, some (wrapped Sentinel.attempt_not_found)), state)
      | some attempt ↦
          if bytes_eq attempt.external_user_id command.external_user_id
          then start_found repository state attempt
          else ok ((none, some (wrapped Sentinel.attempt_not_found)), state)
    ]

unfoldable pub start_checkout_operation :
    Repository → StartCheckoutCommand → TransactionState → Result AttemptReply
start_checkout_operation repository command state = do
  state' ← reconcile_locked_product repository state
  start_reconciled repository command state'

unfoldable pub start_checkout :
    Repository
    → ℕ
    → StartCheckoutCommand
    → Database
    → Result (Option QueueAttempt × Option Error) × Database
start_checkout repository now command db = elim (find_attempt_product db command.attempt_id) [
  | err e ↦ (err e, db)
  | ok product_id ↦
      with_locked_product now product_id
        (record {
          external_user_id = [];
          idempotency_key = [];
          attempt_id = command.attempt_id;
          include_latest_for_user = false;
        })
        (start_checkout_operation repository command) db
]
