-- ===== src/Payment/Fencing.antt =====
-- Old and new claims of one payment event (internal/repository/postgres/payment.go).
use good_queue.Base.{ℕ, ◌<◌, ◌≡◌, refl, Bool, false, some, List, [], ◌∷◌, arith, Bytes}
use good_queue.Domain.{wrapped, Sentinel, ok, err}
use good_queue.Domain.Payment.{PaymentCommand, Text}
use good_queue.Store.Rows.{find_row, Keyed, count_where-other}
use good_queue.Store.Tables.{Database, inbox_key}
use good_queue.Queue.Repository.{Repository}
use good_queue.Queue.Lookup.{find_first}
use good_queue.Payment.Claim.{
  PaymentClaim, claimed, find_stored_payment, claim_payment, retry_payment_claim, holds_lease,
}
use good_queue.Payment.Complete.{complete_payment}
use good_queue.Payment.Leases.{Leased-claim_payment}

module _ {ℓ} {A : Type ℓ} (key : A → ℕ) where
  find_row-first :
      (p : A → Bool) (rows : List A) (row : A)
      → Keyed key rows
      → find_first p rows ≡ some row
      → find_row key (key row) rows ≡ some row
  unfolding find_first find_row
  find_row-first p [] row k f = ground arith
  find_row-first p (r ∷ rows) row k f = ground (arith, find_row-first p rows row)

-- After an event has been claimed, a claim of an earlier generation of the same inbox row can
-- neither complete the event nor hand it back for a retry: both are refused as stale, and the
-- latter leaves the database as it is. The inbox's ids are unique (its primary key).
pub claim_payment-fences :
    (repository : Repository) (text : Text) (now now' : ℕ) (command : PaymentCommand)
    → (db db' : Database) (c old : PaymentClaim) (http_status : ℕ) (code : Bytes)
    → claim_payment repository text now command db ≡ (ok (claimed c), db')
    → Keyed inbox_key db'.inbox
    → old.inbox_id ≡ c.inbox_id
    → old.generation < c.generation
    → (complete_payment now' old http_status code db' ≡ err (wrapped Sentinel.stale_claim))
      × (retry_payment_claim now' old db' ≡ (err (wrapped Sentinel.stale_claim), db'))
unfolding complete_payment retry_payment_claim find_stored_payment
claim_payment-fences repository text now now' command db db' c old http_status code h k same older =
    let l = (Leased-claim_payment repository text now command db db' c h).2 in
    let found = find_row-first inbox_key _ db'.inbox l.row k l.found in
    let other : holds_lease old l.row ≡ false = ground (arith, l.generation) in
    let zero_rows =
      count_where-other inbox_key (holds_lease old) l.row.id db'.inbox l.row
        (λ r e. ground (arith, l.id)) k found other in
    (rw zero_rows refl, rw zero_rows refl)
