-- ===== src/System.antt =====
-- The transactions that the HTTP handlers and the workers run on the database, one after the other
-- (internal/repository/postgres). FindActiveByUser is a FindCurrent for each product, and
-- ProcessPayment a claim, up to two times the processing, and the finalization or the retry.
pub mod Consistency
use good_queue.Base.{ℕ, Bool, List, ℤ, Bytes}
use good_queue.Domain.{
  ProductId, ExternalUserId, JoinQueueCommand, StartCheckoutCommand, CancelQueueCommand,
  StockAdjustmentCommand,
}
use good_queue.Domain.Payment.{PaymentCommand, Text}
use good_queue.Store.Tables.{Database}
use good_queue.Queue.Repository.{Repository}
use good_queue.Queue.Join.{join}
use good_queue.Queue.Checkout.{start_checkout}
use good_queue.Queue.Cancel.{cancel}
use good_queue.Queue.Stock.{adjust_stock}
use good_queue.Queue.Background.{reconcile_next_product}
use good_queue.Queue.Current.{find_current}
use good_queue.Payment.Claim.{PaymentClaim, claim_payment, retry_payment_claim}
use good_queue.Payment.Process.{process_claim_for_product, finalize_payment_without_product}
use good_queue.Outbox.Claims.{
  NotificationClaim, claim_notification, mark_notification_sent, mark_notification_obsolete,
  retry_notification,
}

-- One transaction, at any time and with any arguments, from the database before to the one after.
pub data Call (repository : Repository) (text : Text) (db : Database) : Database → Type 0 where
  joins :
      (now : ℕ) (command : JoinQueueCommand)
      → Call repository text db ((join repository now command db).1)
  starts_checkout :
      (now : ℕ) (command : StartCheckoutCommand)
      → Call repository text db ((start_checkout repository now command db).1)
  cancels :
      (now : ℕ) (command : CancelQueueCommand)
      → Call repository text db ((cancel repository now command db).1)
  adjusts_stock :
      (now : ℕ) (command : StockAdjustmentCommand)
      → Call repository text db ((adjust_stock repository now command db).1)
  finds_current :
      (now : ℕ) (product_id : ProductId) (user : ExternalUserId)
      → Call repository text db ((find_current repository now product_id user db).1)
  claims_payment :
      (now : ℕ) (command : PaymentCommand)
      → Call repository text db ((claim_payment repository text now command db).1)
  processes_payment :
      (now : ℕ) (product_id : ProductId) (claim : PaymentClaim) (force : Bool)
      → Call repository text db
          ((process_claim_for_product repository now product_id claim force db).1)
  finalizes_payment :
      (now : ℕ) (claim : PaymentClaim)
      → Call repository text db ((finalize_payment_without_product now claim db).1)
  retries_payment :
      (now : ℕ) (claim : PaymentClaim)
      → Call repository text db ((retry_payment_claim now claim db).1)
  reconciles :
      (selected now : ℕ) (is_locked : ProductId → Bool) (limit : ℤ) (excluded : List ProductId)
      → Call repository text db
          ((reconcile_next_product repository selected now is_locked limit excluded db).1)
  claims_notification :
      (now lease : ℕ) (is_locked : ℕ → Bool)
      → Call repository text db ((claim_notification repository now is_locked lease db).1)
  marks_sent :
      (now : ℕ) (claim : NotificationClaim)
      → Call repository text db ((mark_notification_sent now claim db).1)
  marks_obsolete :
      (now : ℕ) (claim : NotificationClaim)
      → Call repository text db ((mark_notification_obsolete now claim db).1)
  retries_notification :
      (is_text : Bytes → Bool) (now base max : ℕ) (claim : NotificationClaim)
      → (publication_error : Bytes)
      → Call repository text db
          ((retry_notification is_text now claim publication_error base max db).1)

pub data History (repository : Repository) (text : Text) (db : Database) : Database → Type 0 where
  start : History repository text db db
  later :
      {mid last : Database}
      → History repository text db mid
      → Call repository text mid last
      → History repository text db last
