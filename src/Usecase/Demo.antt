-- ===== src/Usecase/Demo.antt =====
-- CompleteDemo (internal/usecase/payment.go), from the first FindCurrent to the last.
use good_queue.Base.{
  ℕ, ◌≡◌, refl, subst, ◌⊎◌, true, false, Option, none, some, ◌==◌, arith, Bool-cases, Option-cases,
  inl, inr,
}
use good_queue.Domain.{
  AttemptId, ProductId, ExternalUserId, IdempotencyKey, QueueAttempt, QueueAttemptState, state_eq,
  eq_of_state_eq, Result, ok, ◌>>=◌, Result-cases,
}
use good_queue.Domain.Payment.{Text}
use good_queue.Store.Tables.{Database}
use good_queue.Queue.Repository.{Repository}
use good_queue.Queue.Keeps.{Holds, bind-Holds}
use good_queue.Payment.Claim.{PaymentResult}
use good_queue.Usecase.{
  PaymentUseCase, Environment, DemoPaymentResult, check_current, check_payment, check_latest,
  find_attempt, confirm_demo, complete_with, complete_demo,
}

-- The answer is about the attempt that was paid: it is purchased, or still in its checkout while the
-- payment is processed.
pub record IsSettled (attempt_id : AttemptId) (result : DemoPaymentResult) : Type 0 where
  pub same : result.attempt.id ≡ attempt_id
  pub settled :
      ((result.processing ≡ false) × (result.attempt.state ≡ QueueAttemptState.purchased))
      ⊎ ((result.processing ≡ true) × (result.attempt.state ≡ QueueAttemptState.checkout))

-- What holds of an answer that ends the call.
abbrev EndsSettled : AttemptId → Option DemoPaymentResult → Type 0
EndsSettled attempt_id none = Unit
EndsSettled attempt_id (some result) = IsSettled attempt_id result

check_current-IsSettled :
    (attempt_id : AttemptId) (a : QueueAttempt)
    → Holds (EndsSettled attempt_id) (check_current attempt_id a)
unfolding check_current
check_current-IsSettled attempt_id a = elim (Bool-cases (a.id == attempt_id)) [
  | inr e ↦ rw e tt
  | inl e ↦ elim (Bool-cases (state_eq a.state QueueAttemptState.purchased)) [
    | inl p ↦ rw (e, p) (record { same = ground arith; settled = inl (refl, eq_of_state_eq _ _ p) })
    | inr p ↦ elim (Bool-cases (state_eq a.state QueueAttemptState.checkout)) [
      | inl c ↦ rw (e, p, c) tt
      | inr c ↦ rw (e, p, c) tt
    ]
  ]
]

check_latest-IsSettled :
    (attempt_id : AttemptId) (status : ℕ) (a : QueueAttempt)
    → Holds (IsSettled attempt_id) (check_latest attempt_id status a)
unfolding check_latest
check_latest-IsSettled attempt_id status a = elim (Bool-cases (a.id == attempt_id)) [
  | inr e ↦ rw e tt
  | inl e ↦ elim (Bool-cases (state_eq a.state QueueAttemptState.purchased)) [
    | inl p ↦ rw (e, p) (record { same = ground arith; settled = inl (refl, eq_of_state_eq _ _ p) })
    | inr p ↦ elim (Bool-cases (state_eq a.state QueueAttemptState.checkout)) [
      | inr c ↦ rw (e, p, c) tt
      | inl c ↦ elim (Bool-cases (status == 202)) [
        | inr s ↦ rw (e, p, c, s) tt
        | inl s ↦
            rw (e, p, c, s)
              (record { same = ground arith; settled = inr (refl, eq_of_state_eq _ _ c) })
      ]
    ]
  ]
]

confirm_demo-IsSettled :
    (attempts : Repository) (env : Environment) (product_id : ProductId) (attempt_id : AttemptId)
    → (user : ExternalUserId) (paid : Result PaymentResult × Database)
    → Holds (IsSettled attempt_id) ((confirm_demo attempts env product_id attempt_id user paid).0)
unfolding confirm_demo
confirm_demo-IsSettled attempts env product_id attempt_id user (paid, db) =
    elim (Result-cases (paid >>= check_payment)) [
      | inr (e, bad) ↦ rw (bad, confirm_demo) tt
      | inl (status, good) ↦
          rw (good, confirm_demo)
            (bind-Holds (IsSettled attempt_id) _ (check_latest attempt_id status)
              (λ a found. check_latest-IsSettled attempt_id status a))
    ]

complete_with-IsSettled :
    (inbox attempts : Repository) (text : Text) (env : Environment) (product_id : ProductId)
    → (attempt_id : AttemptId) (user : ExternalUserId) (key : IdempotencyKey) (db : Database)
    → Holds
        (IsSettled attempt_id)
        ((complete_with inbox attempts text env product_id attempt_id user key db).0)
unfolding complete_with
complete_with-IsSettled inbox attempts text env product_id attempt_id user key db =
    let current = find_attempt attempts (env.clock 0) product_id user (env.others 0 db) in
    elim (Result-cases (current.0 >>= check_current attempt_id)) [
      | inr (e, bad) ↦ rw (bad, complete_with) tt
      | inl (none, good) ↦
          rw (good, complete_with)
            (confirm_demo-IsSettled attempts env product_id attempt_id user _)
      | inl (some result, good) ↦
          rw (good, complete_with)
            (subst (Holds (EndsSettled attempt_id)) good (
              bind-Holds (EndsSettled attempt_id) current.0 (check_current attempt_id)
                (λ a found. check_current-IsSettled attempt_id a)))
    ]

-- An answer of CompleteDemo that is no error is about the attempt that was asked for, which is
-- purchased, or in its checkout with the answer marked as processing, whatever the payment said and
-- whatever other clients committed between the three transactions.
pub complete_demo-IsSettled :
    (use_case : PaymentUseCase) (text : Text) (env : Environment) (product_id : ProductId)
    → (attempt_id : AttemptId) (user : ExternalUserId) (key : IdempotencyKey) (db : Database)
    → (result : DemoPaymentResult)
    → (complete_demo use_case text env product_id attempt_id user key db).0 ≡ ok result
    → IsSettled attempt_id result
unfolding complete_demo
complete_demo-IsSettled use_case text env product_id attempt_id user key db result h =
    subst (Holds (IsSettled attempt_id)) h settled
  where
    settled :
        Holds
          (IsSettled attempt_id)
          ((complete_demo use_case text env product_id attempt_id user key db).0)
    settled = elim (Option-cases use_case.inbox) [
      | inl e ↦ rw (e, complete_demo) tt
      | inr (inbox, e) ↦ elim (Option-cases use_case.attempts) [
        | inl f ↦ rw (e, f, complete_demo) tt
        | inr (attempts, f) ↦
            rw (e, f, complete_demo)
              (complete_with-IsSettled inbox attempts text env product_id attempt_id user key db)
      ]
    ]
