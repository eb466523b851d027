-- ===== src/Payment/Whole.antt =====
-- ProcessPayment, from the claim to the completion or the retry
-- (internal/repository/postgres/payment.go), on a consistent database.
use good_queue.Base.{
  ℕ, Bool, true, false, ◌&&◌, List, [], ◌==◌, codes, count_where, Bool-cases, Option-cases, inl,
  inr,
}
use good_queue.Domain.{
  ProductId, Result, Error, ok, err, wrapped, Sentinel, errors_is, Result-cases,
}
use good_queue.Domain.Payment.{PaymentCommand, Text, canonical_payment_hash}
use good_queue.Store.Tables.{Database, InboxRow}
use good_queue.Queue.Repository.{Repository}
use good_queue.Queue.Checkout.{find_attempt_product}
use good_queue.Queue.Keeps.{Holds, bind-Holds, guard-Holds, with_locked_product-Consistent}
use good_queue.Queue.Invariant.Loading.{Consistent}
use good_queue.Payment.Claim.{
  PaymentClaim, PaymentClaimResult, PaymentResult, claimed, responded, holds_lease,
  lock_and_validate_payment_claim, validate_payment_claim, claim_payment, claim_with_digest,
  claim_stored, lease_payment, insert_received, find_stored_payment, committed, is_finished,
  is_busy, retry_payment_claim,
}
use good_queue.Payment.Complete.{complete_payment}
use good_queue.Payment.Process.{
  Schedule, process_claim_operation, process_claim_for_product, finalize_payment_without_product,
  process_for_product, process_payment_claim, is_reference_conflict, is_final_error, after_retry,
  finish_processing, process_claimed, process_payment,
}
use good_queue.Payment.Flow.{process_claim_operation-Keeps}

-- The invariant does not read the inbox.
with_inbox-Consistent :
    (inbox : List InboxRow) (issued : ℕ) (db : Database)
    → Consistent db
    → Consistent (record db { inbox = inbox; issued = issued })
with_inbox-Consistent inbox issued db c = record {
  valid = record { keyed = c.valid.keyed; timed = c.valid.timed; known = c.valid.known };
  distinct = c.distinct;
  balanced = c.balanced;
}

module _ {ℓ} {A : Type ℓ} where
  abbrev Committed : A × Database → Type 0
  Committed reply = Consistent reply.1

  committed-Consistent :
      (db : Database) (m : Result (A × Database))
      → Consistent db
      → Holds Committed m
      → Consistent ((committed db m).1)
  committed-Consistent db (ok (a, db')) c h = h
  committed-Consistent db (err e) c h = c

claim_stored-Consistent :
    (repository : Repository) (now digest : ℕ) (command : PaymentCommand) (row : InboxRow)
    → (db : Database) → Consistent db
    → Holds (Committed {A = PaymentClaimResult}) (claim_stored repository now digest command row db)
unfolding claim_stored lease_payment
claim_stored-Consistent repository now digest command row db c =
    elim (Bool-cases (row.payload_hash == digest)) [
      | inr e ↦ rw e c
      | inl e ↦ elim (Bool-cases (is_finished row.status)) [
        | inl f ↦ rw (e, f) c
        | inr f ↦ elim (Bool-cases (is_busy now row)) [
          | inl b ↦ rw (e, f, b) c
          | inr b ↦
              rw (e, f, b)
                (guard-Holds (Committed {A = PaymentClaimResult})
                  (count_where (λ r. r.id == row.id && r.payload_hash == digest) db.inbox == 1)
                  (wrapped Sentinel.conflict) _ (λ y. with_inbox-Consistent _ _ db c))
        ]
      ]
    ]

pub claim_payment-Consistent :
    (repository : Repository) (text : Text) (now : ℕ) (command : PaymentCommand) (db : Database)
    → Consistent db
    → Consistent ((claim_payment repository text now command db).1)
unfolding claim_payment claim_with_digest insert_received
claim_payment-Consistent repository text now command db c =
    elim (Result-cases (canonical_payment_hash text command)) [
      | inr (e, bad) ↦ rw (bad, claim_payment) c
      | inl (digest, good) ↦
          let db1 = insert_received repository now digest command db in
          rw (good, claim_payment)
            (elim (Option-cases (find_stored_payment db1 command.provider command.event_id)) [
              | inl e ↦ rw (e, claim_with_digest) c
              | inr (row, e) ↦
                  rw (e, claim_with_digest)
                    (committed-Consistent db (claim_stored repository now digest command row db1) c
                      (claim_stored-Consistent repository now digest command row db1
                        (inserted digest)))
            ])
    ]
  where
    inserted : (digest : ℕ) → Consistent (insert_received repository now digest command db)
    inserted digest =
        elim (Option-cases (find_stored_payment db command.provider command.event_id)) [
          | inl e ↦ rw (e, insert_received) (with_inbox-Consistent _ _ db c)
          | inr (row, e) ↦ rw (e, insert_received) (with_inbox-Consistent _ _ db c)
        ]

pub retry_payment_claim-Consistent :
    (now : ℕ) (claim : PaymentClaim) (db : Database)
    → Consistent db
    → Consistent ((retry_payment_claim now claim db).1)
unfolding retry_payment_claim
retry_payment_claim-Consistent now claim db c =
    elim (Bool-cases (count_where (holds_lease claim) db.inbox == 1)) [
      | inl e ↦ rw e (with_inbox-Consistent _ _ db c)
      | inr e ↦ rw e c
    ]

pub process_claim_for_product-Consistent :
    (repository : Repository) (now : ℕ) (product_id : ProductId) (claim : PaymentClaim)
    → (force : Bool) (db : Database) → Consistent db
    → Consistent ((process_claim_for_product repository now product_id claim force db).1)
unfolding process_claim_for_product
process_claim_for_product-Consistent repository now product_id claim force db c =
    with_locked_product-Consistent now product_id
      (record {
        external_user_id = [];
        idempotency_key = [];
        attempt_id = claim.command.attempt_id;
        include_latest_for_user = false;
      })
      (process_claim_operation repository product_id claim force) db c
      (λ state v same.
        process_claim_operation-Keeps repository db.attempts claim product_id force state v)

pub finalize-Consistent :
    (now : ℕ) (claim : PaymentClaim) (db : Database)
    → Consistent db
    → Consistent ((finalize_payment_without_product now claim db).1)
unfolding finalize_payment_without_product complete_payment
finalize-Consistent now claim db c = committed-Consistent db _ c (
    bind-Holds (Committed {A = PaymentResult}) (lock_and_validate_payment_claim db claim)
      (λ done. complete_payment now claim 404 (codes "attempt_not_found") db)
      (λ done h. elim (Bool-cases (count_where (holds_lease claim) db.inbox == 1)) [
        | inl e ↦ rw e (with_inbox-Consistent _ _ db c)
        | inr e ↦ rw e tt
      ]))

after_retry-Consistent :
    (e : Error) (reply : Result (Unit {0}) × Database)
    → Consistent reply.1
    → Consistent ((after_retry e reply).1)
after_retry-Consistent e (ok done, db) c = c
after_retry-Consistent e (err r, db) c = elim (Bool-cases (errors_is r Sentinel.stale_claim)) [
  | inl y ↦ rw y c
  | inr n ↦ rw n c
]

-- The other clients keep the database consistent, as every transaction of the repositories does.
abbrev pub Fair : Schedule → Type 0
Fair schedule = (n : ℕ) (db : Database) → Consistent db → Consistent (schedule.others n db)

module _ (repository : Repository) (text : Text) (schedule : Schedule) (fair : Fair schedule) where
  process_for_product-Consistent :
      (claim : PaymentClaim) (product_id : ProductId) (db : Database)
      → Consistent db
      → Consistent ((process_for_product repository schedule claim product_id db).1)
  unfolding process_for_product
  process_for_product-Consistent claim product_id db c =
      let first =
        process_claim_for_product-Consistent repository (schedule.clock 2) product_id claim false _
          (fair 2 db c) in
      elim (Bool-cases (
        is_reference_conflict (
          (process_claim_for_product repository (schedule.clock 2) product_id claim false
            (schedule.others 2 db)).0))) [
              | inl e ↦ rw e (
                  process_claim_for_product-Consistent repository (schedule.clock 3) product_id
                    claim true _ (fair 3 _ first))
              | inr e ↦ rw e first
            ]

  process_payment_claim-Consistent :
      (claim : PaymentClaim) (db : Database)
      → Consistent db
      → Consistent ((process_payment_claim repository text schedule claim db).1)
  unfolding process_payment_claim
  process_payment_claim-Consistent claim db c =
      let seen = schedule.others 1 db in
      let c1 = fair 1 db c in
      elim (Result-cases (validate_payment_claim text claim)) [
        | inr (e, bad) ↦ rw (bad, process_payment_claim) c
        | inl (valid, good) ↦
            elim (Result-cases (find_attempt_product seen valid.command.attempt_id)) [
              | inl (product_id, found) ↦
                  rw (good, found, process_payment_claim)
                    (process_for_product-Consistent valid product_id seen c1)
              | inr (e, missing) ↦ elim (Bool-cases (errors_is e Sentinel.attempt_not_found)) [
                | inl y ↦
                    rw (good, missing, process_payment_claim)
                      (rw y (finalize-Consistent (schedule.clock 2) valid _ (fair 2 seen c1)))
                | inr n ↦ rw (good, missing, process_payment_claim) (rw n c1)
              ]
            ]
      ]

  finish_processing-Consistent :
      (claim : PaymentClaim) (reply : Result PaymentResult × Database)
      → Consistent reply.1
      → Consistent ((finish_processing schedule claim reply).1)
  finish_processing-Consistent claim (ok result, db) c = c
  finish_processing-Consistent claim (err e, db) c = elim (Bool-cases (is_final_error e)) [
    | inl y ↦ rw y c
    | inr n ↦ rw n (
        after_retry-Consistent e
          (retry_payment_claim (schedule.clock 4) claim (schedule.others 4 db))
          (retry_payment_claim-Consistent (schedule.clock 4) claim _ (fair 4 db c)))
  ]

-- ProcessPayment leaves a consistent database consistent, whatever the event says and however it
-- ends: claimed or answered, applied, compensated, without a product, failed and handed back for a
-- retry; this at any clocks, and with any other clients between its transactions that keep the
-- database consistent.
pub process_payment-Consistent :
    (repository : Repository) (text : Text) (schedule : Schedule) (command : PaymentCommand)
    → (db : Database) → Fair schedule
    → Consistent db
    → Consistent ((process_payment repository text schedule command db).1)
unfolding process_payment process_claimed
process_payment-Consistent repository text schedule command db fair c =
    after (claim_payment repository text (schedule.clock 0) command (schedule.others 0 db))
      (claim_payment-Consistent repository text (schedule.clock 0) command _ (fair 0 db c))
  where
    after :
        (claimed_reply : Result PaymentClaimResult × Database)
        → Consistent claimed_reply.1
        → Consistent ((process_claimed repository text schedule claimed_reply).1)
    after (err e, db') h = h
    after (ok (responded result), db') h = h
    after (ok (claimed claim), db') h =
        finish_processing-Consistent repository text schedule fair claim
          (process_payment_claim repository text schedule claim db')
          (process_payment_claim-Consistent repository text schedule fair claim db' h)
