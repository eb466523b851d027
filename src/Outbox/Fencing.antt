-- ===== src/Outbox/Fencing.antt =====
-- MarkNotificationSent, MarkNotificationObsolete and RetryNotification under the lease of a claim
-- (internal/repository/postgres/notification_outbox.go).
use good_queue.Base.{
  ℕ, ◌+◌, ◌≤◌, ◌<◌, ◌≡◌, refl, ap, Bool, Option, List, ◌⊎◌, if◌then◌else◌, Option-cases, true,
  false, some, ltb, leb, arith, Bytes, length, count_where, length-take_le, Bool-cases, inl, inr,
}
use good_queue.Domain.{Error, wrapped, Sentinel, ok, err}
use good_queue.Store.Rows.{
  update_rows, update_rows-zero, find_row, Keyed, count_where-other, count_where-miss,
  count_where-hit, count_where-hit_once, find_row-update_self,
}
use good_queue.Store.Tables.{Database, OutboxRow, OutboxStatus, outbox_key}
use good_queue.Queue.Repository.{Repository}
use good_queue.Outbox.{exponential_backoff}
use good_queue.Outbox.Claims.{
  NotificationClaim, is_claimable, claim_notification, leased_notification, holds_notification,
  stale_unless_one_row, update_claimed, finalize_notification, mark_notification_sent,
  mark_notification_obsolete, retry_notification, sent_notification, failed_notification,
  bounded_error, max_outbox_error_length, delayed,
}
use good_queue.Outbox.Leases.{Claimed, Claimed-claim_notification, Claimed-Keyed, Claimed-leased}

pub update_claimed-stale :
    (claim : NotificationClaim) (set : OutboxRow → OutboxRow) (db : Database)
    → count_where (holds_notification claim) db.outbox ≡ 0
    → update_claimed claim set db ≡ (err (wrapped Sentinel.stale_claim), db)
unfolding update_claimed stale_unless_one_row
update_claimed-stale claim set db z =
    rw (z, update_rows-zero (holds_notification claim) set db.outbox z) refl

-- The three ways to finish a claim, all refused, with the database as it was. They are stale, but for a
-- retry whose text PostgreSQL does not take.
pub record Refused (is_text : Bytes → Bool) (now base_backoff max_backoff : ℕ)
    (publication_error : Bytes) (claim : NotificationClaim) (db : Database) : Type 0 where
  pub sent : mark_notification_sent now claim db ≡ (err (wrapped Sentinel.stale_claim), db)
  pub obsolete : mark_notification_obsolete now claim db ≡ (err (wrapped Sentinel.stale_claim), db)
  pub retried :
      retry_notification is_text now claim publication_error base_backoff max_backoff db ≡ (
        err (
            if is_text (bounded_error publication_error)
            then wrapped Sentinel.stale_claim
            else Error.database_error),
        db,
      )

pub retry_notification-unwritten :
    (is_text : Bytes → Bool) (now base m : ℕ) (text : Bytes) (claim : NotificationClaim)
    → (db : Database) → is_text (bounded_error text) ≡ false
    → 0 < base
    → base ≤ m
    → retry_notification is_text now claim text base m db ≡ (err Error.database_error, db)
unfolding retry_notification
retry_notification-unwritten is_text now base m text claim db t p le =
    let positive : leb base 0 ≡ false = ground arith in
    let ordered : ltb m base ≡ false = ground arith in rw (positive, ordered) (rw t refl)

pub retry_notification-stale :
    (is_text : Bytes → Bool) (now base m : ℕ) (text : Bytes) (claim : NotificationClaim)
    → (db : Database) → is_text (bounded_error text) ≡ true
    → 0 < base
    → base ≤ m
    → count_where (holds_notification claim) db.outbox ≡ 0
    → retry_notification is_text now claim text base m db ≡ (err (wrapped Sentinel.stale_claim), db)
unfolding retry_notification
retry_notification-stale is_text now base m text claim db t p le z =
    let positive : leb base 0 ≡ false = ground arith in
    let ordered : ltb m base ≡ false = ground arith in
    rw (positive, ordered)
      (rw t (
        ap (delayed (exponential_backoff claim.attempt_count base m))
          (update_claimed-stale claim _ db z)))

count-Refused :
    (is_text : Bytes → Bool) (now base_backoff max_backoff : ℕ) (publication_error : Bytes)
    → (claim : NotificationClaim) (db : Database) → 0 < base_backoff
    → base_backoff ≤ max_backoff
    → count_where (holds_notification claim) db.outbox ≡ 0
    → Refused is_text now base_backoff max_backoff publication_error claim db
unfolding mark_notification_sent mark_notification_obsolete finalize_notification
count-Refused is_text now base m text claim db p le z = record {
  sent = update_claimed-stale claim _ db z;
  obsolete = update_claimed-stale claim _ db z;
  retried = elim (Bool-cases (is_text (bounded_error text))) [
    | inl t ↦ rw t (retry_notification-stale is_text now base m text claim db t p le z)
    | inr t ↦ rw t (retry_notification-unwritten is_text now base m text claim db t p le)
  ];
}

-- After a notification has been claimed, an earlier claim of the same notification can no longer mark it
-- sent or obsolete, nor schedule a retry, under a valid configuration of the backoff: all
-- three are refused and leave the database as it is, as stale, or the retry for a text that PostgreSQL
-- does not take. The outbox's ids are unique (its primary key).
pub claim_notification-fences :
    (repository : Repository) (is_text : Bytes → Bool) (now now' lease base max : ℕ)
    → (is_locked : ℕ → Bool) (publication_error : Bytes) (db db' : Database)
      (c old : NotificationClaim)
    → claim_notification repository now is_locked lease db ≡ (ok (some c), db')
    → Keyed outbox_key db.outbox
    → old.id ≡ c.id
    → old.lease_generation < c.lease_generation
    → 0 < base
    → base ≤ max
    → Refused is_text now' base max publication_error old db'
claim_notification-fences repository is_text now now' lease base m is_locked text db db' c old h k
      same older p le =
    let l = Claimed-claim_notification repository now is_locked lease db db' c h in
    let generation : l.row.lease_generation + 1 ≡ c.lease_generation =
      ap (λ x. x.lease_generation) l.claim in
    count-Refused is_text now' base m text old db' p le (
      count_where-other outbox_key (holds_notification old) c.id db'.outbox
        (leased_notification now c.lease_token (now + lease) l.row) (λ r e. ground arith)
        (Claimed-Keyed l k) (Claimed-leased l k) (ground arith))

-- A claim that has marked its notification sent is used up: it can neither mark it again, nor mark
-- it obsolete, nor schedule a retry: each is refused, as stale or a retry for its text, and leaves the
-- database as it is.
pub mark_notification_sent-once :
    (is_text : Bytes → Bool) (now now' base max : ℕ) (publication_error : Bytes)
    → (claim : NotificationClaim) (db db' : Database)
    → mark_notification_sent now claim db ≡ (ok tt, db')
    → 0 < base
    → base ≤ max
    → Refused is_text now' base max publication_error claim db'
unfolding mark_notification_sent finalize_notification update_claimed
mark_notification_sent-once is_text now now' base m text claim db db' h p le =
    let stored : update_rows (holds_notification claim) (sent_notification now Option.none)
          db.outbox
        ≡ db'.outbox =
      ap (λ x. x.1.outbox) h in
    count-Refused is_text now' base m text claim db' p le (
      rw (← stored) (
        count_where-hit_once (holds_notification claim) (sent_notification now Option.none)
          db.outbox (λ r. ground arith)))

-- The claim holds the lease of its row, or no row is left to finish.
pub held_row :
    (c : NotificationClaim) (rows : List OutboxRow)
    → Keyed outbox_key rows
    → (count_where (holds_notification c) rows ≡ 0)
      ⊎ ((row : OutboxRow) × (find_row outbox_key c.id rows ≡ some row)
          × (holds_notification c row ≡ true))
held_row c rows k = elim (Option-cases (find_row outbox_key c.id rows)) [
  | inl e ↦ inl (
      count_where-miss outbox_key (holds_notification c) (λ r. r) c.id (λ r h. ground arith)
        (λ r. refl) rows e)
  | inr (row, e) ↦ elim (Bool-cases (holds_notification c row)) [
    | inl h ↦ inr (row, e, h)
    | inr h ↦ inl (
        count_where-other outbox_key (holds_notification c) c.id rows row (λ r h'. ground arith) k e
          h)
  ]
]

-- The claim that holds the lease finishes: one row changes, and the result is without an error.
module _ (c : NotificationClaim) (db : Database) (row : OutboxRow) (k : Keyed outbox_key db.outbox)
    (found : find_row outbox_key c.id db.outbox ≡ some row)
    (held : holds_notification c row ≡ true) where
  pub update_claimed-held :
      (set : OutboxRow → OutboxRow)
      → ((r : OutboxRow) → (set r).id ≡ r.id)
      → (rows : _) × (update_claimed c set db ≡ (ok tt, record db { outbox = rows }))
        × (find_row outbox_key c.id rows ≡ some (set row))
  unfolding update_claimed stale_unless_one_row
  update_claimed-held set stays =
      let one_row =
        count_where-hit outbox_key (holds_notification c) set c.id (λ r e. ground arith) stays
          db.outbox k found held in
      let stored =
        find_row-update_self outbox_key (holds_notification c) set c.id (λ r e. ground arith) stays
          db.outbox found held in
      (update_rows (holds_notification c) set db.outbox, rw one_row refl, stored)

Claimed-holds :
    {now until : ℕ} {is_locked : ℕ → Bool} {db db' : Database} {c : NotificationClaim}
    (l : Claimed now until is_locked db db' c)
    → holds_notification c (leased_notification now c.lease_token until l.row) ≡ true
Claimed-holds {c = c} l =
    let id : l.row.id ≡ c.id = ap (λ x. x.id) l.claim in
    let generation : l.row.lease_generation + 1 ≡ c.lease_generation =
      ap (λ x. x.lease_generation) l.claim in
    let hash : l.row.payload_hash ≡ c.payload_hash = ap (λ x. x.payload_hash) l.claim in
    ground arith

bounded_error-le : (text : Bytes) → length (bounded_error text) ≤ max_outbox_error_length
bounded_error-le text = elim (Bool-cases (ltb max_outbox_error_length (length text))) [
  | inl e ↦ rw e (length-take_le max_outbox_error_length text)
  | inr e ↦ rw e (ground (arith, e))
]

-- The row of a notification whose retry has been scheduled.
pub record Scheduled (now' backoff : ℕ) (id : ℕ) (db : Database) : Type 0 where
  pub row : OutboxRow
  pub found : find_row outbox_key id db.outbox ≡ some row
  pub failed : row.status ≡ OutboxStatus.failed
  pub waits : (later : ℕ) → is_claimable later row ≡ leb (now' + backoff) later
  pub last_error : Bytes
  pub stored : row.last_error ≡ some last_error
  pub bounded : length last_error ≤ 500

-- A retry whose claim holds the lease.
pub retry_notification-held :
    (is_text : Bytes → Bool) (now base max : ℕ) (publication_error : Bytes) (c : NotificationClaim)
    → (db : Database) (row : OutboxRow) → Keyed outbox_key db.outbox
    → find_row outbox_key c.id db.outbox ≡ some row
    → holds_notification c row ≡ true
    → is_text (bounded_error publication_error) ≡ true
    → 0 < base
    → base ≤ max
    → ((retry_notification is_text now c publication_error base max db).0
        ≡ ok (exponential_backoff c.attempt_count base max))
      × Scheduled now
          (exponential_backoff c.attempt_count base max)
          c.id
          (retry_notification is_text now c publication_error base max db).1
unfolding retry_notification is_claimable
retry_notification-held is_text now base m text c db row k found held t p le =
    let backoff = exponential_backoff c.attempt_count base m in
    let set = failed_notification now backoff (bounded_error text) in
    let u = update_claimed-held c db row k found held set (λ r. refl) in
    let positive : leb base 0 ≡ false = ground arith in
    let ordered : ltb m base ≡ false = ground arith in
    rw (positive, ordered)
      (rw t (
        rw (u.1) (
          refl,
          record {
            row = set row;
            found = u.2;
            failed = refl;
            waits = λ later. refl;
            last_error = bounded_error text;
            stored = refl;
            bounded = bounded_error-le text;
          },
        )))

-- On the database that a claim left, a retry under that claim, with a valid configuration of the
-- backoff and an error whose first 500 bytes PostgreSQL takes as text, succeeds with the exponential
-- backoff of the count of attempts; the notification may then be claimed again exactly from the end of
-- that backoff, and at most 500 bytes of the error are kept.
pub retry_notification-Scheduled :
    (repository : Repository) (is_text : Bytes → Bool) (now now' lease base max : ℕ)
    → (is_locked : ℕ → Bool) (publication_error : Bytes) (db db' : Database)
    → (c : NotificationClaim)
    → claim_notification repository now is_locked lease db ≡ (ok (some c), db')
    → Keyed outbox_key db.outbox
    → is_text (bounded_error publication_error) ≡ true
    → 0 < base
    → base ≤ max
    → ((retry_notification is_text now' c publication_error base max db').0
        ≡ ok (exponential_backoff c.attempt_count base max))
      × Scheduled now'
          (exponential_backoff c.attempt_count base max)
          c.id
          (retry_notification is_text now' c publication_error base max db').1
retry_notification-Scheduled repository is_text now now' lease base m is_locked text db db' c h k t
      p le =
    let l = Claimed-claim_notification repository now is_locked lease db db' c h in
    retry_notification-held is_text now' base m text c db' _ (Claimed-Keyed l k)
      (Claimed-leased l k) (Claimed-holds l) t p le
