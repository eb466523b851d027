-- ===== src/Usecase.antt =====
-- internal/usecase/payment.go: Process and CompleteDemo, over the repository's FindCurrent and
-- ProcessPayment.
pub mod Demo
pub mod Consistency
use good_queue.Base.{
  ℕ, Bool, true, false, ◌&&◌, not, Option, none, some, List, [], ◌∷◌, ◌++◌, ◌==◌, leb,
  if◌then◌else◌, Bytes, bytes_eq, codes,
}
use good_queue.Domain.{
  AttemptId, ProductId, ExternalUserId, IdempotencyKey, QueueAttempt, QueueAttemptState, state_eq,
  Sentinel, Error, wrapped, Result, ok, err, ◌>>=◌, CurrentQueueResult,
}
use good_queue.Domain.Payment.{Text, PaymentOutcome, outcome_text, parse_payment_command}
use good_queue.Store.Tables.{Database}
use good_queue.Queue.Repository.{Repository}
use good_queue.Queue.Current.{find_current}
use good_queue.Payment.Claim.{PaymentResult}
use good_queue.Payment.Process.{Schedule, process_payment}

-- A repository that NewPaymentUseCase was not given is nil.
pub record PaymentUseCase : Type 0 where
  pub inbox : Option Repository
  pub attempts : Option Repository

-- The database clock at the n-th FindCurrent, what other clients commit before it, the same for the
-- transactions of the payment, and hex.EncodeToString.
pub record Environment : Type 0 where
  pub clock : ℕ → ℕ
  pub others : ℕ → Database → Database
  pub payment : Schedule
  pub encode_to_string : ℕ → Bytes

pub record DemoPaymentResult : Type 0 where
  pub attempt : QueueAttempt
  pub processing : Bool

unfoldable pub process :
    Repository
    → Text
    → Schedule
    → Bytes
    → Bytes
    → Bytes
    → Bytes
    → Bytes
    → Database
    → Result PaymentResult × Database
process inbox text schedule provider event_id attempt_id outcome payment_reference db =
    elim (parse_payment_command text provider event_id attempt_id outcome payment_reference) [
      | err e ↦ (err e, db)
      | ok command ↦ process_payment inbox text schedule command db
    ]

unfoldable pub demo_payment_token :
    Text → Environment → AttemptId → ExternalUserId → IdempotencyKey → Bytes
demo_payment_token text env attempt_id user key =
    env.encode_to_string
      (text.sha256 (text.uuid_string attempt_id ++ (10 ∷ []) ++ user ++ (10 ∷ []) ++ key))

unfoldable pub demo_payment_state_error : QueueAttemptState → Error
demo_payment_state_error QueueAttemptState.invite_expired = wrapped Sentinel.attempt_gone
demo_payment_state_error QueueAttemptState.checkout_expired = wrapped Sentinel.attempt_gone
demo_payment_state_error QueueAttemptState.sold_out = wrapped Sentinel.attempt_gone
demo_payment_state_error _ = wrapped Sentinel.invalid_transition

-- The attempt or the error of one FindCurrent. A result without an attempt comes with an error.
abbrev pub attempt_of : Result (CurrentQueueResult × Option Error) → Result QueueAttempt
attempt_of (err e) = err e
attempt_of (ok (current, some e)) = err e
attempt_of (ok (current, none)) = elim current.attempt [
  | none ↦ err (wrapped Sentinel.attempt_not_found)
  | some a ↦ ok a
]

abbrev pub find_attempt :
    Repository → ℕ → ProductId → ExternalUserId → Database → Result QueueAttempt × Database
find_attempt attempts now product_id user db =
    let found = find_current attempts now product_id user db in (attempt_of found.0, found.1)

-- What CompleteDemo does with the first attempt: `some` ends the call, `none` goes on to the payment.
unfoldable pub check_current : AttemptId → QueueAttempt → Result (Option DemoPaymentResult)
check_current attempt_id a =
    if not (a.id == attempt_id)
    then err (wrapped Sentinel.attempt_not_found)
    else if state_eq a.state QueueAttemptState.purchased
    then ok (some (record { attempt = a; processing = false }))
    else if not (state_eq a.state QueueAttemptState.checkout)
    then err (demo_payment_state_error a.state)
    else ok none

-- The HTTP status of a payment that was not refused.
unfoldable pub check_payment : PaymentResult → Result ℕ
check_payment payment =
    if leb 400 payment.http_status
    then (if bytes_eq payment.code (codes "attempt_not_found")
        then err (wrapped Sentinel.attempt_not_found)
        else if bytes_eq payment.code (codes "event_conflict")
        then err (wrapped Sentinel.conflict)
        else err (wrapped Sentinel.invalid_transition))
    else ok payment.http_status

-- What CompleteDemo does with the latest attempt.
unfoldable pub check_latest : AttemptId → ℕ → QueueAttempt → Result DemoPaymentResult
check_latest attempt_id http_status a =
    if not (a.id == attempt_id)
    then err (wrapped Sentinel.attempt_not_found)
    else if state_eq a.state QueueAttemptState.purchased
    then ok (record { attempt = a; processing = false })
    else if state_eq a.state QueueAttemptState.checkout && http_status == 202
    then ok (record { attempt = a; processing = true })
    else err (demo_payment_state_error a.state)

-- The call after the payment.
unfoldable pub confirm_demo :
    Repository
    → Environment
    → ProductId
    → AttemptId
    → ExternalUserId
    → Result PaymentResult × Database
    → Result DemoPaymentResult × Database
confirm_demo attempts env product_id attempt_id user (paid, db) = elim (paid >>= check_payment) [
  | err e ↦ (err e, db)
  | ok status ↦
      let latest = find_attempt attempts (env.clock 1) product_id user (env.others 1 db) in
      (latest.0 >>= check_latest attempt_id status, latest.1)
]

unfoldable pub pay_demo :
    Repository
    → Text
    → Environment
    → AttemptId
    → ExternalUserId
    → IdempotencyKey
    → Database
    → Result PaymentResult × Database
pay_demo inbox text env attempt_id user key db =
    let token = demo_payment_token text env attempt_id user key in
    process inbox text env.payment (codes "goodqueue-demo") (codes "event-" ++ token)
      (text.uuid_string attempt_id) (outcome_text PaymentOutcome.payment_succeeded)
      (codes "payment-" ++ token) db

unfoldable pub complete_with :
    Repository
    → Repository
    → Text
    → Environment
    → ProductId
    → AttemptId
    → ExternalUserId
    → IdempotencyKey
    → Database
    → Result DemoPaymentResult × Database
complete_with inbox attempts text env product_id attempt_id user key db =
    let current = find_attempt attempts (env.clock 0) product_id user (env.others 0 db) in
    elim (current.0 >>= check_current attempt_id) [
      | err e ↦ (err e, current.1)
      | ok (some result) ↦ (ok result, current.1)
      | ok none ↦
          confirm_demo attempts env product_id attempt_id user
            (pay_demo inbox text env attempt_id user key current.1)
    ]

unfoldable pub complete_demo :
    PaymentUseCase
    → Text
    → Environment
    → ProductId
    → AttemptId
    → ExternalUserId
    → IdempotencyKey
    → Database
    → Result DemoPaymentResult × Database
complete_demo use_case text env product_id attempt_id user key db = elim use_case.inbox [
  | none ↦ (err (wrapped Sentinel.not_implemented), db)
  | some inbox ↦ elim use_case.attempts [
    | none ↦ (err (wrapped Sentinel.not_implemented), db)
    | some attempts ↦ complete_with inbox attempts text env product_id attempt_id user key db
  ]
]
