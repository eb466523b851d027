-- ===== src/Queue/Cancel.antt =====
-- Cancel (internal/repository/postgres/queue_attempt.go).
pub mod Sound
use good_queue.Base.{ℕ, true, Option, none, some, [], if◌then◌else◌}
use good_queue.Domain.{
  QueueAttempt, QueueAttemptState, state_eq, Sentinel, Error, wrapped, Result, ok, ◌>>=◌,
  CancelQueueCommand,
}
use good_queue.Store.Tables.{Database}
use good_queue.Queue.Repository.{Repository, TransactionState}
use good_queue.Queue.Lookup.{latest_attempt_for_user, is_terminal_state}
use good_queue.Queue.Transaction.{with_locked_product}
use good_queue.Queue.Transitions.{transition_to_cancelled}
use good_queue.Queue.Reconcile.{reconcile_locked_product}
use good_queue.Queue.Checkout.{AttemptReply}

-- What happens to the user's latest attempt.
unfoldable pub cancel_found : Repository → TransactionState → QueueAttempt → Result AttemptReply
cancel_found repository state attempt =
    if state_eq attempt.state QueueAttemptState.purchased
    then ok ((none, some (wrapped Sentinel.already_purchased)), state)
    else if is_terminal_state attempt.state
    then ok ((some attempt, none), state)
    else (do
      (cancelled, state') ← transition_to_cancelled state attempt
      state'' ← reconcile_locked_product repository state'
      ok ((some cancelled, none), state''))

-- After the reconciliation.
unfoldable pub cancel_reconciled :
    Repository → CancelQueueCommand → TransactionState → Result AttemptReply
cancel_reconciled repository command state =
    elim (latest_attempt_for_user state.attempts command.external_user_id) [
      | none ↦ ok ((none, some (wrapped Sentinel.attempt_not_found)), state)
      | some attempt ↦ cancel_found repository state attempt
    ]

unfoldable pub cancel_operation :
    Repository → CancelQueueCommand → TransactionState → Result AttemptReply
cancel_operation repository command state = do
  state' ← reconcile_locked_product repository state
  cancel_reconciled repository command state'

unfoldable pub cancel :
    Repository
    → ℕ
    → CancelQueueCommand
    → Database
    → Result (Option QueueAttempt × Option Error) × Database
cancel repository now command =
    with_locked_product now command.product_id
      (record {
        external_user_id = command.external_user_id;
        idempotency_key = [];
        attempt_id = 0;
        include_latest_for_user = true;
      })
      (cancel_operation repository command)
