-- ===== src/Outbox/Invitations.antt =====
-- The notification of an invitation, from promoteWaitingAttempt (internal/repository/postgres/queue_attempt.go)
-- to ClassifyInvitation (internal/repository/postgres/notification_outbox.go).
use good_queue.Base.{
  ℕ, ◌+◌, ◌≡◌, refl, subst, sym, ap, ◌∙◌, Bool, true, false, ◌&&◌, ◌||◌, not, none, some, List, [],
  ◌∷◌, ◌==◌, ltb, leb, arith, Bool-cases, inl, inr, count_where,
}
use good_queue.Domain.{
  AttemptId, QueueAttempt, QueueAttemptState, invited, waiting, state_eq, ok, ◌>>=◌, bind-ok,
}
use good_queue.Store.Rows.{
  update_rows, find_row, Keyed, update_rows-Keyed, find_row-update_self, find_row-key,
}
use good_queue.Store.Tables.{
  Database, OutboxRow, EventType, attempt_key, attempt_hit, update_attempt, require_one_row, key_eq,
  invited_key, OutboxPayload, DeduplicationKey, invitation_payload,
}
use good_queue.Queue.Repository.{Repository}
use good_queue.Queue.Background.{any_of}
use good_queue.Queue.Transitions.{insert_outbox, promote_waiting_attempt, mark_invited}
use good_queue.Outbox.Claims.{
  scan_notification_claim, classify_invitation, is_obsolete, invites_until, deadline_is,
  payload_deadline,
}

any_of-absent :
    (p : QueueAttempt → Bool) (i : AttemptId) (rows : List QueueAttempt)
    → ((r : QueueAttempt) → p r ≡ true → r.id ≡ i)
    → find_row attempt_key i rows ≡ none
    → any_of p rows ≡ false
unfolding any_of find_row
any_of-absent p i [] only f = refl
any_of-absent p i (r ∷ rows) only f = ground (arith, only r, any_of-absent p i rows only)

-- A test that names an id holds of some row exactly when it holds of the row with that id.
any_of-row :
    (p : QueueAttempt → Bool) (i : AttemptId) (rows : List QueueAttempt) (row : QueueAttempt)
    → ((r : QueueAttempt) → p r ≡ true → r.id ≡ i)
    → Keyed attempt_key rows
    → find_row attempt_key i rows ≡ some row
    → any_of p rows ≡ p row
unfolding any_of find_row
any_of-row p i [] row only k f = ground arith
any_of-row p i (r ∷ rows) row only k f = elim (Bool-cases (r.id == i)) [
  | inl e ↦
      let f' = rw e at f in
      let same : r ≡ row = ground arith in
      let id : r.id ≡ i = ground arith in
      let absent : find_row attempt_key i rows ≡ none =
        subst (λ j. find_row attempt_key j rows ≡ none) id k.0 in
      let rest = any_of-absent p i rows only absent in ground arith
  | inr e ↦
      let f' = rw e at f in
      let rest = any_of-row p i rows row only k.1 f' in
      let miss : p r ≡ false = ground (arith, only r) in ground arith
]

is_obsolete-row :
    (now deadline : ℕ) (db : Database) (attempt : AttemptId) (row : QueueAttempt)
    → Keyed attempt_key db.attempts
    → find_row attempt_key attempt db.attempts ≡ some row
    → is_obsolete now EventType.queue_invited (some attempt) deadline db ≡ (
        deadline == 0
        || not (
            state_eq row.state invited
            && (deadline_is row.invitation_deadline deadline && ltb now deadline)))
unfolding is_obsolete invites_until
is_obsolete-row now deadline db attempt row k f =
    let one =
      any_of-row (invites_until now attempt deadline) attempt db.attempts row (λ r e. ground arith)
        k f in
    let named : row.id ≡ attempt = find_row-key attempt_key attempt db.attempts f in
    elim (Bool-cases (deadline == 0)) [ inl e ↦ rw e refl | inr e ↦ rw (e, one) (ground arith) ]

-- What a promotion has put into the outbox: a notification that is current until the end of the
-- invitation and obsolete from then on, under every lease.
pub record Announced (repository : Repository) (now : ℕ) (tx tx' : Database) : Type 0 where
  pub notification : OutboxRow
  pub stored : tx'.outbox ≡ notification ∷ tx.outbox
  pub current :
      (token until later : ℕ)
      → classify_invitation later (scan_notification_claim token until notification) tx'
        ≡ leb (now + repository.invitation_ttl) later

update_attempt-returns :
    (id : AttemptId) (state : QueueAttemptState) (version : ℕ) (set : QueueAttempt → QueueAttempt)
    → (db db' : Database) → update_attempt id state version set db ≡ ok db'
    → record db { attempts = update_rows (attempt_hit id state version) set db.attempts } ≡ db'
unfolding update_attempt require_one_row
update_attempt-returns id state version set db db' h =
    elim (Bool-cases (count_where (attempt_hit id state version) db.attempts == 1)) [
      | inl e ↦ let h' = rw e at h in cc
      | inr e ↦ let h' = rw e at h in ground arith
    ]

-- The row that an INSERT into the outbox has made.
record Inserted (attempt : AttemptId) (event : EventType) (payload : OutboxPayload)
    (db db' : Database) : Type 0 where
  row : OutboxRow
  stored : db'.outbox ≡ row ∷ db.outbox
  attempts : db'.attempts ≡ db.attempts
  has_attempt : row.attempt_id ≡ some attempt
  has_event : row.event_type ≡ event
  has_payload : row.payload ≡ payload

insert_outbox-Inserted :
    (repository : Repository) (attempt : AttemptId) (event : EventType) (key : DeduplicationKey)
    → (payload : OutboxPayload) (now : ℕ) (db db' : Database)
    → insert_outbox repository attempt event key payload now db ≡ ok db'
    → Inserted attempt event payload db db'
unfolding insert_outbox
insert_outbox-Inserted repository attempt event key payload now db db' h =
    elim (Bool-cases (count_where (λ row. key_eq row.deduplication_key key) db.outbox == 0)) [
      | inr e ↦ let h' = rw e at h in ground arith
      | inl e ↦
          let h' = rw e at h in
          subst (Inserted attempt event payload db) (ok-injective h') (record {
            row = _;
            stored = refl;
            attempts = refl;
            has_attempt = refl;
            has_event = refl;
            has_payload = refl;
          })
    ]
  where
    ok-injective : {a b : Database} → ok a ≡ ok b → a ≡ b
    ok-injective e = cc

-- The promotion of a waiting attempt that the table has, by the repository: what it inserts is classified
-- as current exactly until the invitation's deadline, while the database stays as the promotion
-- left it. The ids of the attempts are unique (their primary key).
pub promote_waiting_attempt-Announced :
    (repository : Repository) (now : ℕ) (attempt attempt' : QueueAttempt) (tx tx' : Database)
    → promote_waiting_attempt repository now attempt tx ≡ ok (attempt', tx')
    → Keyed attempt_key tx.attempts
    → find_row attempt_key attempt.id tx.attempts ≡ some attempt
    → attempt.state ≡ waiting
    → Announced repository now tx tx'
unfolding promote_waiting_attempt classify_invitation state_eq
promote_waiting_attempt-Announced repository now attempt attempt' tx tx' h k f w =
    let deadline = now + repository.invitation_ttl in
    let set = mark_invited now deadline (attempt.version + 1) in
    let hit = attempt_hit attempt.id waiting attempt.version in
    let b =
      bind-ok (update_attempt attempt.id waiting attempt.version set tx)
        (λ tx1.
          insert_outbox repository attempt.id EventType.queue_invited
            (invited_key attempt.id (attempt.version + 1))
            (invitation_payload attempt.id attempt.product_id deadline) now tx1
          >>= λ tx2. ok (set attempt, tx2))
        (attempt', tx') h in
    let updated = update_attempt-returns attempt.id waiting attempt.version set tx b.0 b.1 in
    let c =
      bind-ok
        (insert_outbox repository attempt.id EventType.queue_invited
          (invited_key attempt.id (attempt.version + 1))
          (invitation_payload attempt.id attempt.product_id deadline) now b.0)
        (λ tx2. ok (set attempt, tx2)) (attempt', tx') b.2 in
    let last : c.0 ≡ tx' = cc (c.2) in
    let i = insert_outbox-Inserted repository attempt.id _ _ _ now b.0 c.0 c.1 in
    let attempts : update_rows hit set tx.attempts ≡ tx'.attempts =
      ap (λ d. d.attempts) updated ∙ (sym i.attempts ∙ ap (λ d. d.attempts) last) in
    let only : (r : QueueAttempt) → hit r ≡ true → r.id ≡ attempt.id = λ r e. ground arith in
    let passes : hit attempt ≡ true = ground arith in
    let keyed =
      subst (Keyed attempt_key) attempts
        (update_rows-Keyed attempt_key hit set attempt.id only (λ r. refl) tx.attempts k) in
    let found =
      subst (λ rows. find_row attempt_key attempt.id rows ≡ some (set attempt)) attempts
        (find_row-update_self attempt_key hit set attempt.id only (λ r. refl) tx.attempts f
          passes) in
    record {
      notification = i.row;
      stored =
          sym (ap (λ d. d.outbox) last) ∙ (i.stored ∙ ap (λ d. i.row ∷ d.outbox) (sym updated));
      current = λ token until later.
          ap (λ e. is_obsolete later e i.row.attempt_id (payload_deadline i.row.payload) tx')
            i.has_event
          ∙ (ap
                (λ a.
                  is_obsolete later EventType.queue_invited a (payload_deadline i.row.payload) tx')
                i.has_attempt
              ∙ (ap
                    (λ p.
                      is_obsolete later EventType.queue_invited (some attempt.id)
                        (payload_deadline p) tx')
                    i.has_payload
                  ∙ (is_obsolete-row later deadline tx' attempt.id (set attempt) keyed found
                      ∙ ground arith)));
    }
