-- ===== src/Outbox/Steps/Runs.antt =====
-- The outbox after any number of writes (internal/repository/postgres).
use good_queue.Base.{
  ℕ, ◌+◌, ◌≡◌, ◌≢◌, refl, ap, sym, subst, ◌∙◌, Bool, true, ◌||◌, none, some, List, ◌==◌, leb, ltb,
  arith, Bytes, Bool-cases, Option-cases, inl, inr, count_where,
}
use good_queue.Domain.{ok}
use good_queue.Store.Rows.{update_rows, find_row}
use good_queue.Store.Tables.{
  Database, OutboxRow, OutboxStatus, outbox_key, key_eq, compensation_key,
}
use good_queue.Queue.Repository.{Repository}
use good_queue.Queue.Transitions.{insert_outbox}
use good_queue.Payment.Complete.{enqueue_compensation}
use good_queue.Outbox.{exponential_backoff}
use good_queue.Outbox.Claims.{
  NotificationClaim, is_claimable, claim_candidate, claim_notification, leased_notification,
  holds_notification, update_claimed, finalize_notification, mark_notification_sent,
  mark_notification_obsolete, retry_notification, sent_notification, failed_notification,
  bounded_error,
}
use good_queue.Outbox.Leases.{
  Claimed-claim_notification, Claimed-claimable, first_candidate-passes, first_candidate-found,
}
use good_queue.Outbox.Steps.{
  Checks, Sound, Step, claims, sends, drops, retries, notifies, compensates, Reaches, here, next,
}
use good_queue.Outbox.Steps.Changes.{
  Change, same, updated, inserted, Change-Sound, Change-sent, All-unique, All-weaken, All-always,
}

Checks-leased :
    (now token until : ℕ) (r : OutboxRow)
    → r.status ≢ OutboxStatus.sent
    → Checks r
    → Checks (leased_notification now token until r)
Checks-leased now token until r free c = record {
  lease = ((λ e. ground arith), (λ e. ground arith));
  processing = ((λ e e'. ground arith), (λ e. refl));
  sent = ((λ e. ground arith), (λ e. ground (arith, c.sent)));
  counted = ground (arith, c.counted);
}

Checks-sent :
    (now : ℕ) (last_error : _) (r : OutboxRow)
    → Checks r
    → Checks (sent_notification now last_error r)
Checks-sent now last_error r c = record {
  lease = ((λ e. refl), (λ e. refl));
  processing = ((λ e. ground arith), (λ e. ground arith));
  sent = ((λ e e'. ground arith), (λ e. refl));
  counted = c.counted;
}

Checks-failed :
    (now backoff : ℕ) (last_error : Bytes) (r : OutboxRow)
    → r.status ≢ OutboxStatus.sent
    → Checks r
    → Checks (failed_notification now backoff last_error r)
Checks-failed now backoff last_error r free c = record {
  lease = ((λ e. refl), (λ e. refl));
  processing = ((λ e. ground arith), (λ e. ground arith));
  sent = ((λ e. ground arith), (λ e. ground (arith, c.sent)));
  counted = c.counted;
}

-- The columns of a row that INSERT makes.
pub new_row-Checks :
    (r : OutboxRow)
    → r.status ≡ OutboxStatus.pending
    → r.lease_until ≡ none
    → r.lease_token ≡ none
    → r.sent_at ≡ none
    → r.attempt_count ≡ 0
    → r.lease_generation ≡ 0
    → Checks r
new_row-Checks r status until token sent_at attempts generation = record {
  lease = ((λ e. token), (λ e. until));
  processing = ((λ e. ground arith), (λ e. ground arith));
  sent = ((λ e. ground arith), (λ e. ground arith));
  counted = ground arith;
}

Change-claimed :
    (now token until : ℕ) (is_locked : ℕ → Bool) (db : Database) (row : OutboxRow)
    → Sound db.outbox
    → claim_candidate now is_locked db ≡ some row
    → (rows : List OutboxRow)
    → update_rows (λ r. r.id == row.id) (leased_notification now token until) db.outbox ≡ rows
    → Change db.outbox rows
unfolding claim_candidate is_claimable
Change-claimed now token until is_locked db row s f rows e =
    let passes = first_candidate-passes _ db.outbox row f in
    let free : row.status ≢ OutboxStatus.sent = λ sent. ground arith in
    let found = first_candidate-found _ db.outbox row s.keyed f in
    updated (λ r. r.id == row.id) (leased_notification now token until) row.id (λ r h. ground arith)
      (λ r. refl)
      (All-weaken db.outbox
        (λ r only h sent. free (ap (λ x. x.status) (sym (only (ground arith))) ∙ sent))
        (All-unique outbox_key row.id db.outbox row s.keyed found))
      (λ r h free' c. Checks-leased now token until r free' c) e

-- An UPDATE under a claim touches only rows in processing.
Change-held :
    (claim : NotificationClaim) (set : OutboxRow → OutboxRow) (rows rows' : List OutboxRow)
    → ((r : OutboxRow) → (set r).id ≡ r.id)
    → ((r : OutboxRow) → r.status ≢ OutboxStatus.sent → Checks r → Checks (set r))
    → update_rows (holds_notification claim) set rows ≡ rows'
    → Change rows rows'
Change-held claim set rows rows' stays keeps e =
    updated (holds_notification claim) set claim.id (λ r h. ground arith) stays
      (All-always rows (λ r h sent. ground arith)) (λ r h free c. keeps r free c) e

ok-outbox : (a b : Database) → ok a ≡ ok b → a.outbox ≡ b.outbox
ok-outbox a b e = cc

Step-Change :
    (repository : Repository) (db db' : Database)
    → Sound db.outbox
    → Step repository db db'
    → Change db.outbox db'.outbox
unfolding claim_notification mark_notification_sent mark_notification_obsolete retry_notification
    finalize_notification update_claimed insert_outbox enqueue_compensation
Step-Change repository db db' s (claims now lease is_locked) = elim (Bool-cases (leb lease 0)) [
  | inl e ↦ rw e (same refl)
  | inr e ↦ elim (Option-cases (claim_candidate now is_locked db)) [
    | inl n ↦ rw (e, n) (same refl)
    | inr (row, n) ↦
        rw (e, n)
          (Change-claimed now (repository.uuid_new db.issued) (now + lease) is_locked db row s n _
            refl)
  ]
]
Step-Change repository db db' s (sends now claim) =
    Change-held claim _ db.outbox _ (λ r. refl) (λ r free c. Checks-sent now none r c) refl
Step-Change repository db db' s (drops now claim) =
    Change-held claim _ db.outbox _ (λ r. refl) (λ r free c. Checks-sent now _ r c) refl
Step-Change repository db db' s (retries is_text now base m claim text) =
    elim (Bool-cases (leb base 0 || ltb m base)) [
      | inl e ↦ rw e (same refl)
      | inr e ↦ elim (Bool-cases (is_text (bounded_error text))) [
        | inr t ↦ rw (e, t) (same refl)
        | inl t ↦
            rw (e, t)
              (Change-held claim _ db.outbox _ (λ r. refl)
                (λ r free c.
                  Checks-failed now (exponential_backoff claim.attempt_count base m)
                    (bounded_error text) r free c)
                refl)
      ]
    ]
Step-Change repository db db' s (notifies now attempt event key payload db'' fresh e) =
    elim (Bool-cases (count_where (λ row. key_eq row.deduplication_key key) db.outbox == 0)) [
      | inr n ↦ let e' = rw n at e in ground arith
      | inl y ↦
          let e' = rw y at e in
          inserted _ fresh (new_row-Checks _ refl refl refl refl refl refl) (ok-outbox _ db'' e')
    ]
Step-Change repository db db' s (compensates now claim attempt fresh) =
    elim (Bool-cases (
      count_where (λ row. key_eq row.deduplication_key (compensation_key claim.inbox_id)) db.outbox
      == 0)) [
        | inr n ↦ rw n (same refl)
        | inl y ↦ rw y (inserted _ fresh (new_row-Checks _ refl refl refl refl refl refl) refl)
      ]

-- From an outbox with distinct ids whose rows satisfy the CHECK constraints on their status, every
-- sequence of claims, finalizations, retries and inserted notifications leads to one that does: a
-- lease stands exactly in processing and with its token, the time of sending exactly when sent, and the
-- count of attempts is the generation of the lease.
pub Reaches-Sound :
    (repository : Repository) (db db' : Database)
    → Sound db.outbox
    → Reaches repository db db'
    → Sound db'.outbox
Reaches-Sound repository db db' s here = s
Reaches-Sound repository db db' s (next {mid} path step) =
    let s' = Reaches-Sound repository db mid s path in
    Change-Sound mid.outbox db'.outbox s' (Step-Change repository mid db' s' step)

-- A row of a sound outbox that has been sent, or marked obsolete, is the same row after any sequence of
-- claims, finalizations, retries and inserted notifications.
pub sent-kept :
    (repository : Repository) (db db' : Database)
    → Sound db.outbox
    → Reaches repository db db'
    → (i : ℕ) (row : OutboxRow) → find_row outbox_key i db.outbox ≡ some row
    → row.status ≡ OutboxStatus.sent
    → find_row outbox_key i db'.outbox ≡ some row
sent-kept repository db db' s here i row f sent = f
sent-kept repository db db' s (next {mid} path step) i row f sent =
    Change-sent mid.outbox db'.outbox
      (Step-Change repository mid db' (Reaches-Sound repository db mid s path) step) i row
      (sent-kept repository db mid s path i row f sent) sent

-- Once a row of a sound outbox has been sent, or marked obsolete, no claim returns its id, after any
-- sequence of claims, finalizations, retries and inserted notifications.
pub sent-unclaimed :
    (repository : Repository) (db db' db'' : Database)
    → Sound db.outbox
    → Reaches repository db db'
    → (i : ℕ) (row : OutboxRow) → find_row outbox_key i db.outbox ≡ some row
    → row.status ≡ OutboxStatus.sent
    → (now lease : ℕ) (is_locked : ℕ → Bool) (c : NotificationClaim)
    → claim_notification repository now is_locked lease db' ≡ (ok (some c), db'')
    → c.id ≢ i
unfolding claim_candidate is_claimable
sent-unclaimed repository db db' db'' s path i row f sent now lease is_locked c h id =
    let kept = sent-kept repository db db' s path i row f sent in
    let s' = Reaches-Sound repository db db' s path in
    let l = Claimed-claim_notification repository now is_locked lease db' db'' c h in
    let found = first_candidate-found _ db'.outbox l.row s'.keyed l.candidate in
    let id' : l.row.id ≡ i = ap (λ x. x.id) l.claim ∙ id in
    let one : l.row ≡ row = ground arith in
    let free = subst (λ r. is_claimable now r ≡ true) one (Claimed-claimable l) in ground arith
