-- ===== src/Payment/Leases.antt =====
-- Claims of a payment and their leases (internal/repository/postgres/payment.go).
use good_queue.Base.{
  ℕ, ◌+◌, ◌<◌, ◌≡◌, refl, ap, subst, ◌∙◌, Bool, true, false, ◌&&◌, some, List, [], ◌∷◌, ◌==◌, arith,
  bytes_eq, codes, count_where, Bool-cases, Option-cases, inl, inr,
}
use good_queue.Domain.{Result, ok, err, Result-cases}
use good_queue.Domain.Payment.{PaymentCommand, Text, canonical_payment_hash}
use good_queue.Store.Rows.{update_rows}
use good_queue.Store.Tables.{Database, InboxRow, InboxStatus}
use good_queue.Queue.Repository.{Repository}
use good_queue.Queue.Lookup.{find_first}
use good_queue.Payment.Claim.{
  PaymentClaim, PaymentClaimResult, claimed, responded, payment_result, payment_claim_lease,
  find_stored_payment, insert_received, lease_payment, claim_stored, claim_with_digest,
  claim_payment, is_finished, is_busy, committed,
}

module _ {ℓ} {A : Type ℓ} where
  -- The first row that passes a test is still the first after an update that hits it.
  pub find_first-updated :
      (p hit : A → Bool) (set : A → A) (rows : List A) (row : A)
      → ((r : A) → p (set r) ≡ p r)
      → find_first p rows ≡ some row
      → hit row ≡ true
      → find_first p (update_rows hit set rows) ≡ some (set row)
  unfolding find_first update_rows
  find_first-updated p hit set [] row s f h = ground arith
  find_first-updated p hit set (r ∷ rows) row s f h =
      ground (arith, find_first-updated p hit set rows row s, s r)

-- A claim has been given out: the event's row carries its lease.
pub record Leased (digest until : ℕ) (command : PaymentCommand) (db : Database) (c : PaymentClaim)
    : Type 0 where
  pub row : InboxRow
  pub found : find_stored_payment db command.provider command.event_id ≡ some row
  pub id : row.id ≡ c.inbox_id
  pub hash : row.payload_hash ≡ digest
  pub status : row.status ≡ InboxStatus.processing
  pub lease : row.lease_until ≡ some until
  pub token : row.claim_token ≡ some c.token
  pub generation : row.claim_generation ≡ c.generation

-- The columns that a lease sets.
abbrev leased_row : ℕ → ℕ → ℕ → InboxRow → InboxRow
leased_row now token generation r = record r {
  status = InboxStatus.processing;
  claim_token = some token;
  claim_generation = generation;
  lease_until = some (now + payment_claim_lease);
  attempt_count = r.attempt_count + 1;
  updated_at = now;
}

abbrev leased_claim : Repository → ℕ → PaymentCommand → InboxRow → Database → PaymentClaim
leased_claim repository digest command row db = record {
  inbox_id = row.id;
  token = repository.uuid_new db.issued;
  generation = row.claim_generation + 1;
  payload_hash = digest;
  command = command;
}

abbrev leased_database : Repository → ℕ → ℕ → InboxRow → Database → Database
leased_database repository now digest row db = record db {
  inbox =
      update_rows (λ r. r.id == row.id && r.payload_hash == digest)
        (leased_row now (repository.uuid_new db.issued) (row.claim_generation + 1)) db.inbox;
  issued = db.issued + 1;
}

lease_payment-returns :
    (repository : Repository) (now digest : ℕ) (command : PaymentCommand) (row : InboxRow)
    → (db db' : Database) (c : PaymentClaim)
    → lease_payment repository now digest command row db ≡ ok (claimed c, db')
    → (leased_claim repository digest command row db ≡ c)
      × (leased_database repository now digest row db ≡ db')
unfolding lease_payment
lease_payment-returns repository now digest command row db db' c h =
    elim (Bool-cases
      (count_where (λ (r : InboxRow). r.id == row.id && r.payload_hash == digest) db.inbox == 1)) [
        | inr n ↦ let h' = rw n at h in ground arith
        | inl y ↦ let h' = rw y at h in (cc, cc)
      ]

Leased-lease_payment :
    (repository : Repository) (now digest : ℕ) (command : PaymentCommand) (row : InboxRow)
    → (db db' : Database) (c : PaymentClaim)
    → find_stored_payment db command.provider command.event_id ≡ some row
    → row.payload_hash ≡ digest
    → lease_payment repository now digest command row db ≡ ok (claimed c, db')
    → Leased digest (now + payment_claim_lease) command db' c
unfolding find_stored_payment
Leased-lease_payment repository now digest command row db db' c f e h =
    let hit = λ (r : InboxRow). r.id == row.id && r.payload_hash == digest in
    let set = leased_row now (repository.uuid_new db.issued) (row.claim_generation + 1) in
    let r = lease_payment-returns repository now digest command row db db' c h in
    subst (λ d. Leased digest (now + payment_claim_lease) command d c) r.1
      (subst
        (Leased digest (now + payment_claim_lease) command
          (leased_database repository now digest row db))
        r.0
        (record {
          row = set row;
          found =
              find_first-updated
                (λ r. bytes_eq r.provider command.provider && bytes_eq r.event_id command.event_id)
                hit set db.inbox row (λ r. refl) f (ground arith);
          id = refl;
          hash = e;
          status = refl;
          lease = refl;
          token = refl;
          generation = refl;
        }))

Leased-claim_stored :
    (repository : Repository) (now digest : ℕ) (command : PaymentCommand) (row : InboxRow)
    → (db db' : Database) (c : PaymentClaim)
    → find_stored_payment db command.provider command.event_id ≡ some row
    → claim_stored repository now digest command row db ≡ ok (claimed c, db')
    → Leased digest (now + payment_claim_lease) command db' c
unfolding claim_stored
Leased-claim_stored repository now digest command row db db' c f h =
    elim (Bool-cases (row.payload_hash == digest)) [
      | inr n ↦ let h' = rw n at h in ground arith
      | inl same ↦ elim (Bool-cases (is_finished row.status)) [
        | inl e ↦ let h' = rw (same, e) at h in ground arith
        | inr open_row ↦ elim (Bool-cases (is_busy now row)) [
          | inl e ↦ let h' = rw (same, open_row, e) at h in ground arith
          | inr idle ↦
              let h' = rw (same, open_row, idle) at h in
              Leased-lease_payment repository now digest command row db db' c f (ground arith) h'
        ]
      ]
    ]

-- A claim that the call returns is one that the transaction made.
committed-ok :
    (db db' : Database) (c : PaymentClaim) (m : Result (PaymentClaimResult × Database))
    → committed db m ≡ (ok (claimed c), db')
    → m ≡ ok (claimed c, db')
committed-ok db db' c (ok p) h = ground arith
committed-ok db db' c (err e) h = ground arith

pub Leased-claim_payment :
    (repository : Repository) (text : Text) (now : ℕ) (command : PaymentCommand)
    → (db db' : Database) (c : PaymentClaim)
    → claim_payment repository text now command db ≡ (ok (claimed c), db')
    → (digest : ℕ) × (canonical_payment_hash text command ≡ ok digest)
      × Leased digest (now + payment_claim_lease) command db' c
unfolding claim_payment claim_with_digest
Leased-claim_payment repository text now command db db' c h =
    elim (Result-cases (canonical_payment_hash text command)) [
      | inr (e, bad) ↦ let h' = rw (bad, claim_payment) at h in ground arith
      | inl (digest, good) ↦
          let h' = rw (good, claim_payment) at h in
          let db1 = insert_received repository now digest command db in
          elim (Option-cases (find_stored_payment db1 command.provider command.event_id)) [
            | inl e ↦ let h'' = rw (e, claim_with_digest) at h' in ground arith
            | inr (row, f) ↦
                let h'' = rw (f, claim_with_digest) at h' in
                (
                  digest,
                  good,
                  Leased-claim_stored repository now digest command row db1 db' c f
                      (committed-ok db db' c _ h''),
                )
          ]
    ]

pub insert_received-present :
    (repository : Repository) (now digest : ℕ) (command : PaymentCommand) (db : Database)
    → (row : InboxRow) → find_stored_payment db command.provider command.event_id ≡ some row
    → insert_received repository now digest command db ≡ record db { issued = db.issued + 1 }
unfolding insert_received
insert_received-present repository now digest command db row f = rw (f, insert_received) refl

claim_stored-busy :
    (repository : Repository) (now digest : ℕ) (command : PaymentCommand) (row : InboxRow)
    → (db : Database) (until : ℕ) → row.payload_hash ≡ digest
    → row.status ≡ InboxStatus.processing
    → row.lease_until ≡ some until
    → now < until
    → claim_stored repository now digest command row db
      ≡ ok (responded (payment_result row.id 202 (codes "processing") false), db)
unfolding claim_stored
claim_stored-busy repository now digest command row db until e s l h =
    let same : (row.payload_hash == digest) ≡ true = ground arith in
    let open_row : is_finished row.status ≡ false = rw s refl in
    let busy : is_busy now row ≡ true = ground arith in rw (same, open_row, busy) refl

-- A claim of an event whose row is there, down to what is done with the row.
pub claim_payment-present :
    (repository : Repository) (text : Text) (now digest : ℕ) (command : PaymentCommand)
    → (db : Database) (row : InboxRow) (m : Result (PaymentClaimResult × Database))
    → canonical_payment_hash text command ≡ ok digest
    → find_stored_payment db command.provider command.event_id ≡ some row
    → claim_stored repository now digest command row (record db { issued = db.issued + 1 }) ≡ m
    → claim_payment repository text now command db ≡ committed db m
unfolding claim_payment claim_with_digest find_stored_payment
claim_payment-present repository text now digest command db row m hash f e =
    let inserted = insert_received-present repository now digest command db row f in
    rw (hash, claim_payment)
      (rw (inserted, claim_with_digest) (rw (f, inserted) (ap (committed db) e)))

-- On the database that a claim of a command left, a second claim of the same command, at any time
-- before the end of the lease, is answered that the event is being processed, and changes nothing
-- in the database but the number of UUIDs issued.
pub claim_payment-exclusive :
    (repository : Repository) (text : Text) (now now' : ℕ) (command : PaymentCommand)
    → (db db' : Database) (c : PaymentClaim)
    → claim_payment repository text now command db ≡ (ok (claimed c), db')
    → now' < now + payment_claim_lease
    → claim_payment repository text now' command db' ≡ (
      ok (responded (payment_result c.inbox_id 202 (codes "processing") false)),
      record db' { issued = db'.issued + 1 },
    )
claim_payment-exclusive repository text now now' command db db' c h soon =
    let l = Leased-claim_payment repository text now command db db' c h in
    let r = l.2 in
    claim_payment-present repository text now' l.0 command db' r.row _ l.1 r.found (
      claim_stored-busy repository now' l.0 command r.row _ _ r.hash r.status r.lease soon
      ∙ ap
          (λ i. ok (
            responded (payment_result i 202 (codes "processing") false),
            record db' { issued = db'.issued + 1 },
          ))
          r.id)
