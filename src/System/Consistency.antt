-- ===== src/System/Consistency.antt =====
-- The database through any history of calls (internal/repository/postgres).
use good_queue.Base.{
  ℕ, zero, suc, ◌+◌, ◌≡◌, refl, ◌||◌, Bool, true, false, List, [], ◌∷◌, ◌==◌, All, leb, ltb, pos,
  negsuc, ℤ, Bool-cases, Option-cases, inl, inr, if◌then◌else◌,
}
use good_queue.Domain.{ProductId, StartCheckoutCommand, CancelQueueCommand, Result, Result-cases}
use good_queue.Domain.Payment.{Text}
use good_queue.Store.Rows.{update_rows}
use good_queue.Store.Tables.{Database, OutboxRow}
use good_queue.Queue.Repository.{Repository, TransactionState}
use good_queue.Queue.Checkout.{start_checkout, start_checkout_operation, find_attempt_product}
use good_queue.Queue.Checkout.Sound as Checkout
use good_queue.Queue.Cancel.{cancel, cancel_operation}
use good_queue.Queue.Cancel.Sound as Cancel
use good_queue.Queue.Join.Sound.{join-Consistent}
use good_queue.Queue.Stock.Sound.{adjust_stock-Consistent}
use good_queue.Queue.Background.{reconcile_next_product}
use good_queue.Queue.Background.Sound.{reconcile_next_product-Settles}
use good_queue.Queue.Returns.{Returns}
use good_queue.Queue.Keeps.{Keeps, with_locked_product-Consistent}
use good_queue.Queue.Invariant.{Known}
use good_queue.Queue.Invariant.Loading.{Consistent}
use good_queue.Queue.Current.Sound.{find_current-Consistent}
use good_queue.Payment.Whole.{
  claim_payment-Consistent, process_claim_for_product-Consistent, finalize-Consistent,
  retry_payment_claim-Consistent,
}
use good_queue.Outbox.Claims.{
  claim_candidate, claim_notification, leased_notification, holds_notification, update_claimed,
  finalize_notification, mark_notification_sent, mark_notification_obsolete, retry_notification,
  bounded_error,
}
use good_queue.System.{
  Call, joins, starts_checkout, cancels, adjusts_stock, finds_current, claims_payment,
  processes_payment, finalizes_payment, retries_payment, reconciles, claims_notification,
  marks_sent, marks_obsolete, retries_notification, History, start, later,
}

Returns-Keeps {ℓ} : {A : Type ℓ} (m : Result (A × TransactionState)) → Returns m → Keeps m
Returns-Keeps m r = rw r.returns r.consistent

cancelled-Consistent :
    (repository : Repository) (now : ℕ) (command : CancelQueueCommand) (db : Database)
    → Consistent db
    → Consistent ((cancel repository now command db).1)
unfolding cancel
cancelled-Consistent repository now command db c =
    with_locked_product-Consistent now command.product_id _ (cancel_operation repository command) db
      c
      (λ state v same.
        Returns-Keeps _ (Cancel.operation-Returns repository db.attempts command state v))

started-Consistent :
    (repository : Repository) (now : ℕ) (command : StartCheckoutCommand) (db : Database)
    → Consistent db
    → Consistent ((start_checkout repository now command db).1)
unfolding start_checkout
started-Consistent repository now command db c =
    elim (Result-cases (find_attempt_product db command.attempt_id)) [
      | inr (e, missing) ↦ rw (missing, start_checkout) c
      | inl (id, found) ↦
          rw (found, start_checkout)
            (with_locked_product-Consistent now id _ (start_checkout_operation repository command)
              db c
              (λ state v same.
                Returns-Keeps _
                  (Checkout.operation-Returns repository db.attempts command state v)))
    ]

reconciled-Consistent :
    (repository : Repository) (selected now : ℕ) (is_locked : ProductId → Bool) (limit : ℤ)
    → (excluded : List ProductId) (db : Database) → Consistent db
    → Consistent ((reconcile_next_product repository selected now is_locked limit excluded db).1)
unfolding reconcile_next_product
reconciled-Consistent repository selected now is_locked (pos (suc limit)) excluded db c =
    (reconcile_next_product-Settles repository selected now limit is_locked excluded db
      c).consistent
reconciled-Consistent repository selected now is_locked (pos zero) excluded db c = c
reconciled-Consistent repository selected now is_locked (negsuc n) excluded db c = c

-- An UPDATE of the outbox that leaves its deduplication keys.
Known-kept :
    (attempts : List _) (hit : OutboxRow → Bool) (set : OutboxRow → OutboxRow)
    → ((r : OutboxRow) → (set r).deduplication_key ≡ r.deduplication_key)
    → (rows : List OutboxRow) → All (λ row. Known attempts row.deduplication_key) rows
    → All (λ row. Known attempts row.deduplication_key) (update_rows hit set rows)
unfolding update_rows
Known-kept attempts hit set same [] h = tt
Known-kept attempts hit set same (r ∷ rows) h =
    (one (hit r), Known-kept attempts hit set same rows h.1)
  where
    one : (b : Bool) → Known attempts ((if b then set r else r).deduplication_key)
    one true = rw (same r) h.0
    one false = h.0

with_outbox-Consistent :
    (hit : OutboxRow → Bool) (set : OutboxRow → OutboxRow) (issued : ℕ) (db : Database)
    → ((r : OutboxRow) → (set r).deduplication_key ≡ r.deduplication_key)
    → Consistent db
    → Consistent (record db { outbox = update_rows hit set db.outbox; issued = issued })
with_outbox-Consistent hit set issued db same c = record {
  valid = record {
    keyed = c.valid.keyed;
    timed = c.valid.timed;
    known = Known-kept db.attempts hit set same db.outbox c.valid.known;
  };
  distinct = c.distinct;
  balanced = c.balanced;
}

claimed-Consistent :
    (repository : Repository) (now lease : ℕ) (is_locked : ℕ → Bool) (db : Database)
    → Consistent db
    → Consistent ((claim_notification repository now is_locked lease db).1)
unfolding claim_notification
claimed-Consistent repository now lease is_locked db c = elim (Bool-cases (leb lease 0)) [
  | inl e ↦ rw e c
  | inr e ↦ elim (Option-cases (claim_candidate now is_locked db)) [
    | inl n ↦
        rw (e, n)
          (record {
            valid = record { keyed = c.valid.keyed; timed = c.valid.timed; known = c.valid.known };
            distinct = c.distinct;
            balanced = c.balanced;
          })
    | inr (row, n) ↦
        rw (e, n)
          (with_outbox-Consistent (λ r. r.id == row.id)
            (leased_notification now (repository.uuid_new db.issued) (now + lease)) (db.issued + 1)
            db (λ r. refl) c)
  ]
]

Call-Consistent :
    (repository : Repository) (text : Text) (db db' : Database)
    → Consistent db
    → Call repository text db db'
    → Consistent db'
unfolding mark_notification_sent mark_notification_obsolete finalize_notification update_claimed
    retry_notification
Call-Consistent repository text db db' c (joins now command) =
    join-Consistent repository now command db c
Call-Consistent repository text db db' c (starts_checkout now command) =
    started-Consistent repository now command db c
Call-Consistent repository text db db' c (cancels now command) =
    cancelled-Consistent repository now command db c
Call-Consistent repository text db db' c (adjusts_stock now command) =
    adjust_stock-Consistent repository now command db c
Call-Consistent repository text db db' c (finds_current now product_id user) =
    find_current-Consistent repository now product_id user db c
Call-Consistent repository text db db' c (claims_payment now command) =
    claim_payment-Consistent repository text now command db c
Call-Consistent repository text db db' c (processes_payment now product_id claim force) =
    process_claim_for_product-Consistent repository now product_id claim force db c
Call-Consistent repository text db db' c (finalizes_payment now claim) =
    finalize-Consistent now claim db c
Call-Consistent repository text db db' c (retries_payment now claim) =
    retry_payment_claim-Consistent now claim db c
Call-Consistent repository text db db' c (reconciles selected now is_locked limit excluded) =
    reconciled-Consistent repository selected now is_locked limit excluded db c
Call-Consistent repository text db db' c (claims_notification now lease is_locked) =
    claimed-Consistent repository now lease is_locked db c
Call-Consistent repository text db db' c (marks_sent now claim) =
    with_outbox-Consistent (holds_notification claim) _ db.issued db (λ r. refl) c
Call-Consistent repository text db db' c (marks_obsolete now claim) =
    with_outbox-Consistent (holds_notification claim) _ db.issued db (λ r. refl) c
Call-Consistent repository text db db' c
      (retries_notification is_text now base m claim publication_error) =
    elim (Bool-cases (leb base 0 || ltb m base)) [
      | inl e ↦ rw e c
      | inr e ↦ elim (Bool-cases (is_text (bounded_error publication_error))) [
        | inl t ↦
            rw (e, t)
              (with_outbox-Consistent (holds_notification claim) _ db.issued db (λ r. refl) c)
        | inr t ↦ rw (e, t) c
      ]
    ]

-- From a consistent database, every history of the transactions of the repositories, in any order, at
-- any times and with any arguments, those of one payment or of one list of products interleaved with
-- others, leads to a consistent one: the counter of every product is what its invited attempts and
-- its checkouts reserve, and is at most the stock.
pub History-Consistent :
    (repository : Repository) (text : Text) (db db' : Database)
    → Consistent db
    → History repository text db db'
    → Consistent db'
History-Consistent repository text db db' c start = c
History-Consistent repository text db db' c (later {mid} path call) =
    Call-Consistent repository text mid db' (History-Consistent repository text db mid c path) call
