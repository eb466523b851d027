-- ===== src/Outbox/Leases.antt =====
-- The row that ClaimNotification takes, and its lease (internal/repository/postgres/notification_outbox.go).
use good_queue.Base.{
  ℕ, ◌+◌, ◌<◌, ◌≡◌, ◌≢◌, refl, ap, subst, ◌∙◌, Bool, true, false, ◌&&◌, not, none, some, List, [],
  ◌∷◌, leb, ◌==◌, arith, All, Bool-cases, Option-cases, inl, inr,
}
use good_queue.Domain.{ok}
use good_queue.Store.Rows.{update_rows, find_row, Keyed, find_row-update_self, update_rows-Keyed}
use good_queue.Store.Tables.{Database, OutboxRow, outbox_key}
use good_queue.Queue.Repository.{Repository}
use good_queue.Outbox.Claims.{
  NotificationClaim, is_claimable, sorts_before, first_candidate, claim_candidate,
  leased_notification, scan_notification_claim, claim_notification,
}

pub first_candidate-passes :
    (p : OutboxRow → Bool) (rows : List OutboxRow) (row : OutboxRow)
    → first_candidate p rows ≡ some row
    → p row ≡ true
unfolding first_candidate
first_candidate-passes p [] row f = ground arith
first_candidate-passes p (r ∷ rows) row f = elim (Option-cases (first_candidate p rows)) [
  | inl e ↦ let f' = rw e at f in ground arith
  | inr (best, e) ↦
      let f' = rw e at f in let ih = first_candidate-passes p rows best e in ground arith
]

pub first_candidate-found :
    (p : OutboxRow → Bool) (rows : List OutboxRow) (row : OutboxRow)
    → Keyed outbox_key rows
    → first_candidate p rows ≡ some row
    → find_row outbox_key row.id rows ≡ some row
unfolding first_candidate find_row
first_candidate-found p [] row k f = ground arith
first_candidate-found p (r ∷ rows) row k f = elim (Option-cases (first_candidate p rows)) [
  | inl e ↦ let f' = rw e at f in ground arith
  | inr (best, e) ↦
      let f' = rw e at f in let ih = first_candidate-found p rows best k.1 e in ground arith
]

-- A claim has been made: from the row that the candidate names to the one that carries the lease.
pub record Claimed (now until : ℕ) (is_locked : ℕ → Bool) (db db' : Database)
    (c : NotificationClaim) : Type 0 where
  pub row : OutboxRow
  pub token : ℕ
  pub candidate : claim_candidate now is_locked db ≡ some row
  pub claim : scan_notification_claim token until row ≡ c
  pub stored :
      update_rows (λ r. r.id == row.id) (leased_notification now token until) db.outbox ≡ db'.outbox

pub Claimed-claim_notification :
    (repository : Repository) (now : ℕ) (is_locked : ℕ → Bool) (lease : ℕ) (db db' : Database)
    → (c : NotificationClaim)
    → claim_notification repository now is_locked lease db ≡ (ok (some c), db')
    → Claimed now (now + lease) is_locked db db' c
unfolding claim_notification
Claimed-claim_notification repository now is_locked lease db db' c h =
    elim (Bool-cases (leb lease 0)) [
      | inl e ↦ let h' = rw e at h in ground arith
      | inr e ↦
          let h' = rw e at h in
          elim (Option-cases (claim_candidate now is_locked db)) [
            | inl n ↦ let h'' = rw n at h' in ground arith
            | inr (row, n) ↦
                let h'' = rw n at h' in
                record {
                  row = row;
                  token = repository.uuid_new db.issued;
                  candidate = n;
                  claim = cc;
                  stored = cc;
                }
          ]
    ]

module _ {now until : ℕ} {is_locked : ℕ → Bool} {db db' : Database} {c : NotificationClaim}
    (l : Claimed now until is_locked db db' c) where
  pub Claimed-claimable : is_claimable now l.row ≡ true
  unfolding claim_candidate
  Claimed-claimable = let p = first_candidate-passes _ db.outbox l.row l.candidate in ground arith

  pub Claimed-Keyed : Keyed outbox_key db.outbox → Keyed outbox_key db'.outbox
  Claimed-Keyed k = subst (Keyed outbox_key) l.stored (
      update_rows-Keyed outbox_key (λ r. r.id == l.row.id) (leased_notification now l.token until)
        l.row.id (λ r e. ground arith) (λ r. refl) db.outbox k)

  -- The lease stands in the table.
  pub Claimed-leased :
      Keyed outbox_key db.outbox
      → find_row outbox_key c.id db'.outbox
        ≡ some (leased_notification now c.lease_token until l.row)
  unfolding claim_candidate
  Claimed-leased k =
      let found = first_candidate-found _ db.outbox l.row k l.candidate in
      let id : l.row.id ≡ c.id = ap (λ x. x.id) l.claim in
      let token : l.token ≡ c.lease_token = ap (λ x. x.lease_token) l.claim in
      let kept =
        find_row-update_self outbox_key (λ r. r.id == l.row.id)
          (leased_notification now l.token until) l.row.id (λ r e. ground arith) (λ r. refl)
          db.outbox found (ground arith) in
      let stored =
        subst
          (λ rows.
            find_row outbox_key l.row.id rows ≡ some (leased_notification now l.token until l.row))
          l.stored kept in
      subst
        (λ t. find_row outbox_key c.id db'.outbox ≡ some (leased_notification now t until l.row))
        token
        (subst
          (λ i.
            find_row outbox_key i db'.outbox ≡ some (leased_notification now l.token until l.row))
          id stored)

-- Until the lease of a claimed notification ends, no claim returns the same notification, whichever
-- rows other transactions hold. The outbox's ids are unique (its primary key).
pub claim_notification-exclusive :
    (repository : Repository) (now now' lease lease' : ℕ) (is_locked is_locked' : ℕ → Bool)
    → (db db' db'' : Database) (c c' : NotificationClaim)
    → claim_notification repository now is_locked lease db ≡ (ok (some c), db')
    → Keyed outbox_key db.outbox
    → now' < now + lease
    → claim_notification repository now' is_locked' lease' db' ≡ (ok (some c'), db'')
    → c'.id ≢ c.id
unfolding is_claimable claim_candidate
claim_notification-exclusive repository now now' lease lease' is_locked is_locked' db db' db'' c c'
      h k soon h' same =
    let l = Claimed-claim_notification repository now is_locked lease db db' c h in
    let l' = Claimed-claim_notification repository now' is_locked' lease' db' db'' c' h' in
    let found = Claimed-leased l k in
    let k' = Claimed-Keyed l k in
    let found' = first_candidate-found _ db'.outbox l'.row k' l'.candidate in
    let id : l'.row.id ≡ c.id = ap (λ x. x.id) l'.claim ∙ same in
    let row : l'.row ≡ leased_notification now c.lease_token (now + lease) l.row = ground arith in
    let free = subst (λ r. is_claimable now' r ≡ true) row (Claimed-claimable l') in ground arith

sorts_before_trans :
    (a b c : OutboxRow)
    → sorts_before a b ≡ true
    → sorts_before b c ≡ true
    → sorts_before a c ≡ true
unfolding sorts_before
sorts_before_trans a b c h g = ground arith

sorts_before_irreflexive : (a : OutboxRow) → sorts_before a a ≡ false
unfolding sorts_before
sorts_before_irreflexive a = ground arith

-- No row that passes sorts before this one.
abbrev Least : (OutboxRow → Bool) → OutboxRow → List OutboxRow → Type 0
Least p best rows = All (λ r. p r ≡ true → sorts_before r best ≡ false) rows

Least-lower :
    (p : OutboxRow → Bool) (best row : OutboxRow) (rows : List OutboxRow)
    → sorts_before row best ≡ true
    → Least p best rows
    → Least p row rows
Least-lower p best row [] b h = tt
Least-lower p best row (r ∷ rows) b h = (
  λ passes. elim (Bool-cases (sorts_before r row)) [
    | inr e ↦ e
    | inl e ↦ let over = sorts_before_trans r row best e b in let under = h.0 passes in ground arith
  ],
  Least-lower p best row rows b h.1,
)

none-Least :
    (p : OutboxRow → Bool) (row : OutboxRow) (rows : List OutboxRow)
    → first_candidate p rows ≡ none
    → Least p row rows
unfolding first_candidate
none-Least p row [] f = tt
none-Least p row (r ∷ rows) f = elim (Option-cases (first_candidate p rows)) [
  | inr (best, e) ↦ let f' = rw e at f in ground arith
  | inl e ↦ let f' = rw e at f in (λ passes. ground arith, none-Least p row rows e)
]

first_candidate-Least :
    (p : OutboxRow → Bool) (rows : List OutboxRow) (row : OutboxRow)
    → first_candidate p rows ≡ some row
    → Least p row rows
unfolding first_candidate
first_candidate-Least p [] row f = tt
first_candidate-Least p (r ∷ rows) row f = elim (Option-cases (first_candidate p rows)) [
  | inl e ↦
      let f' = rw e at f in
      let same : r ≡ row = ground arith in
      (λ passes. rw same (sorts_before_irreflexive row), none-Least p row rows e)
  | inr (best, e) ↦
      let f' = rw e at f in
      let ih = first_candidate-Least p rows best e in
      elim (Bool-cases (p r && sorts_before r best)) [
        | inl y ↦
            let g = rw y at f' in
            let same : r ≡ row = ground arith in
            let passes : p r ≡ true = ground arith in
            let earlier : sorts_before r best ≡ true = ground arith in
            subst (λ x. Least p x (r ∷ rows)) same
              (λ passes. sorts_before_irreflexive r, Least-lower p best r rows earlier ih)
        | inr n ↦
            let g = rw n at f' in
            let same : best ≡ row = ground arith in
            subst (λ x. Least p x (r ∷ rows)) same (λ passes. ground arith, ih)
      ]
]

-- What a claim of a notification does: it takes a row that may be claimed and is not locked, before
-- which no such row sorts, and the table then has that row under the claim's lease.
pub record ClaimsEarliest (now until : ℕ) (is_locked : ℕ → Bool) (db db' : Database)
    (c : NotificationClaim) : Type 0 where
  pub row : OutboxRow
  pub before : find_row outbox_key c.id db.outbox ≡ some row
  pub claimable : is_claimable now row ≡ true
  pub unlocked : is_locked c.id ≡ false
  pub earliest :
      All
        (λ r. (is_claimable now r && not (is_locked r.id)) ≡ true → sorts_before r row ≡ false)
        db.outbox
  pub after :
      find_row outbox_key c.id db'.outbox ≡ some (leased_notification now c.lease_token until row)
  pub generation : c.lease_generation ≡ row.lease_generation + 1

-- A claim that ClaimNotification returns, on an outbox with unique ids, is of a row that may be
-- claimed and that nobody else has locked; no such row sorts before it by available_at, created_at
-- and id. Afterwards the table has the row in processing under the claim's token, its
-- generation and its count of attempts one higher, leased until the lease's end.
pub claim_notification-ClaimsEarliest :
    (repository : Repository) (now lease : ℕ) (is_locked : ℕ → Bool) (db db' : Database)
    → (c : NotificationClaim)
    → claim_notification repository now is_locked lease db ≡ (ok (some c), db')
    → Keyed outbox_key db.outbox
    → ClaimsEarliest now (now + lease) is_locked db db' c
unfolding claim_candidate
claim_notification-ClaimsEarliest repository now lease is_locked db db' c h k =
    let l = Claimed-claim_notification repository now is_locked lease db db' c h in
    let passes = first_candidate-passes _ db.outbox l.row l.candidate in
    let id : l.row.id ≡ c.id = ap (λ x. x.id) l.claim in
    record {
      row = l.row;
      before =
          subst (λ i. find_row outbox_key i db.outbox ≡ some l.row) id
            (first_candidate-found _ db.outbox l.row k l.candidate);
      claimable = Claimed-claimable l;
      unlocked = subst (λ i. is_locked i ≡ false) id (ground arith);
      earliest = first_candidate-Least _ db.outbox l.row l.candidate;
      after = Claimed-leased l k;
      generation = cc (ap (λ x. x.lease_generation) l.claim);
    }
