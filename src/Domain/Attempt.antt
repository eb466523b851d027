-- ===== src/Domain/Attempt.antt =====
-- internal/pkg/domain/queue_attempt.go: the states of an attempt, the attempt, commands, results.
-- A UUID is its 128 bits as a number, a `time.Time` its nanoseconds, a pointer an `Option`.
use good_queue.Base.{ℕ, Bool, Option, Bytes, ℤ, ◌==◌, ◌≡◌, true, arith}

abbrev pub AttemptId : Type 0
AttemptId = ℕ

abbrev pub ProductId : Type 0
ProductId = ℕ

abbrev pub ExternalUserId : Type 0
ExternalUserId = Bytes

abbrev pub IdempotencyKey : Type 0
IdempotencyKey = Bytes

pub data QueueAttemptState : Type 0 where
  waiting invited checkout purchased invite_expired checkout_expired : QueueAttemptState
  payment_failed cancelled sold_out : QueueAttemptState

abbrev position : QueueAttemptState → ℕ
position QueueAttemptState.waiting = 0
position QueueAttemptState.invited = 1
position QueueAttemptState.checkout = 2
position QueueAttemptState.purchased = 3
position QueueAttemptState.invite_expired = 4
position QueueAttemptState.checkout_expired = 5
position QueueAttemptState.payment_failed = 6
position QueueAttemptState.cancelled = 7
position QueueAttemptState.sold_out = 8

-- Go's `==` on two states.
unfoldable pub state_eq : QueueAttemptState → QueueAttemptState → Bool
state_eq s t = position s == position t

pub state_eq_refl : (s : QueueAttemptState) → state_eq s s ≡ true
unfolding state_eq
state_eq_refl s = ground arith

pub eq_of_state_eq : (s t : QueueAttemptState) → state_eq s t ≡ true → s ≡ t
unfolding state_eq
eq_of_state_eq s t h = ground arith

pub record QueueAttempt : Type 0 where
  pub id : AttemptId
  pub product_id : ProductId
  pub queue_sequence : ℕ
  pub external_user_id : ExternalUserId
  pub idempotency_key : IdempotencyKey
  pub state : QueueAttemptState
  pub created_at : ℕ
  pub updated_at : ℕ
  pub invited_at : Option ℕ
  pub invitation_deadline : Option ℕ
  pub checkout_started_at : Option ℕ
  pub checkout_deadline : Option ℕ
  pub terminal_at : Option ℕ
  pub purchased_at : Option ℕ
  pub accepted_provider : Option Bytes
  pub accepted_reference : Option Bytes
  pub terminal_reason : Option Bytes
  pub terminal_message : Option Bytes
  pub version : ℕ

pub record JoinQueueCommand : Type 0 where
  pub product_id : ProductId
  pub external_user_id : ExternalUserId
  pub idempotency_key : IdempotencyKey

pub record JoinQueueResult : Type 0 where
  pub attempt : Option QueueAttempt
  pub position_ahead : ℕ
  pub total_waiting : ℕ
  pub created : Bool

pub record StartCheckoutCommand : Type 0 where
  pub attempt_id : AttemptId
  pub external_user_id : ExternalUserId

pub record CancelQueueCommand : Type 0 where
  pub product_id : ProductId
  pub external_user_id : ExternalUserId

pub record CurrentQueueResult : Type 0 where
  pub attempt : Option QueueAttempt
  pub position_ahead : ℕ
  pub total_waiting : ℕ

pub record StockAdjustmentCommand : Type 0 where
  pub product_id : ProductId
  pub idempotency_key : IdempotencyKey
  pub delta : ℤ
  pub reason : Bytes
  pub external_reference : Bytes

-- internal/pkg/domain/delivery.go
pub record ReconciliationResult : Type 0 where
  pub product_id : ProductId
  pub transitions : ℕ
  pub more_work : Bool
