-- ===== src/Usecase/Consistency.antt =====
-- Process and CompleteDemo (internal/usecase/payment.go) on a consistent database.
use good_queue.Base.{ℕ, none, some, Bytes, Option-cases, inl, inr}
use good_queue.Domain.{
  AttemptId, ProductId, ExternalUserId, IdempotencyKey, Result, ◌>>=◌, Result-cases,
}
use good_queue.Domain.Payment.{Text, parse_payment_command}
use good_queue.Store.Tables.{Database}
use good_queue.Queue.Repository.{Repository}
use good_queue.Queue.Invariant.Loading.{Consistent}
use good_queue.Payment.Claim.{PaymentResult}
use good_queue.Queue.Current.Sound.{find_current-Consistent}
use good_queue.Payment.Process.{Schedule}
use good_queue.Payment.Whole.{Fair, process_payment-Consistent}
use good_queue.Usecase.{
  PaymentUseCase, Environment, process, pay_demo, check_current, check_payment, find_attempt,
  confirm_demo, complete_with, complete_demo,
}

process-Consistent :
    (inbox : Repository) (text : Text) (schedule : Schedule) (fair : Fair schedule)
    → (provider event_id attempt_id outcome payment_reference : Bytes) (db : Database)
    → Consistent db
    → Consistent
        ((process inbox text schedule provider event_id attempt_id outcome payment_reference db).1)
unfolding process
process-Consistent inbox text schedule fair provider event_id attempt_id outcome reference db c =
    elim (Result-cases
      (parse_payment_command text provider event_id attempt_id outcome reference)) [
        | inr (e, bad) ↦ rw (bad, process) c
        | inl (command, good) ↦
            rw (good, process) (process_payment-Consistent inbox text schedule command db fair c)
      ]

-- The other clients keep the database consistent, as every transaction of the repositories does.
pub record KeepConsistent (env : Environment) : Type 0 where
  pub around : (n : ℕ) (db : Database) → Consistent db → Consistent (env.others n db)
  pub within : Fair env.payment

module _ (attempts : Repository) (text : Text) (env : Environment) (fair : KeepConsistent env)
    (product_id : ProductId) (attempt_id : AttemptId) (user : ExternalUserId) where
  confirm_demo-Consistent :
      (paid : Result PaymentResult × Database)
      → Consistent paid.1
      → Consistent ((confirm_demo attempts env product_id attempt_id user paid).1)
  unfolding confirm_demo
  confirm_demo-Consistent (paid, db) c = elim (Result-cases (paid >>= check_payment)) [
    | inr (e, bad) ↦ rw (bad, confirm_demo) c
    | inl (status, good) ↦
        rw (good, confirm_demo)
          (find_current-Consistent attempts (env.clock 1) product_id user _ (fair.around 1 db c))
  ]

  complete_with-Consistent :
      (inbox : Repository) (key : IdempotencyKey) (db : Database)
      → Consistent db
      → Consistent ((complete_with inbox attempts text env product_id attempt_id user key db).1)
  unfolding complete_with pay_demo
  complete_with-Consistent inbox key db c =
      let current = find_attempt attempts (env.clock 0) product_id user (env.others 0 db) in
      let c1 =
        find_current-Consistent attempts (env.clock 0) product_id user _ (fair.around 0 db c) in
      elim (Result-cases (current.0 >>= check_current attempt_id)) [
        | inr (e, bad) ↦ rw (bad, complete_with) c1
        | inl (some result, good) ↦ rw (good, complete_with) c1
        | inl (none, good) ↦
            rw (good, complete_with)
              (confirm_demo-Consistent _
                (process-Consistent inbox text env.payment fair.within _ _ _ _ _ current.1 c1))
      ]

-- CompleteDemo leaves a consistent database consistent, on every way that it ends, when the other
-- clients do that commit between its calls of FindCurrent and between the transactions of its payment.
pub complete_demo-Consistent :
    (use_case : PaymentUseCase) (text : Text) (env : Environment) (product_id : ProductId)
    → (attempt_id : AttemptId) (user : ExternalUserId) (key : IdempotencyKey) (db : Database)
    → KeepConsistent env
    → Consistent db
    → Consistent ((complete_demo use_case text env product_id attempt_id user key db).1)
unfolding complete_demo
complete_demo-Consistent use_case text env product_id attempt_id user key db fair c =
    elim (Option-cases use_case.inbox) [
      | inl e ↦ rw (e, complete_demo) c
      | inr (inbox, e) ↦ elim (Option-cases use_case.attempts) [
        | inl f ↦ rw (e, f, complete_demo) c
        | inr (attempts, f) ↦
            rw (e, f, complete_demo)
              (complete_with-Consistent attempts text env fair product_id attempt_id user inbox key
                db c)
      ]
    ]
