-- ===== src/Queue/Reconcile/Promote.antt =====
-- The promotion loop (internal/repository/postgres/queue_attempt.go) as an instance of the rule for loops.
use good_queue.Base.{
  ℕ, ◌+◌, ◌-◌, ◌≤◌, ◌≡◌, ◌≢◌, refl, subst, true, false, ◌||◌, none, some, List, [], ◌∷◌, ◌++◌, ◌==◌,
  arith, min, Bool-cases, inl, inr, All, All-append_right, count_where,
}
use good_queue.Domain.{QueueAttempt, QueueAttemptState, state_eq, eq_of_state_eq, ProductId, ok}
use good_queue.Store.Rows.{find_row}
use good_queue.Store.Tables.{
  Database, attempt_key, OutboxRow, DeduplicationKey, invited_key, compensation_key, key_eq,
  EventType, invitation_payload, OutboxStatus,
}
use good_queue.Queue.Repository.{Repository}
use good_queue.Queue.Lookup.{reserves_stock}
use good_queue.Queue.Transitions.{mark_invited, promote_waiting_attempt, insert_outbox}
use good_queue.Queue.Reconcile.{Progress, promote_attempt, promote_loop}
use good_queue.Queue.Reconcile.Reference.{rewrite_first, spent, invite}
use good_queue.Queue.Reconcile.Loops.{Looped, Turn, for_each-Looped}
use good_queue.Queue.Invariant.{has_deadline, Known, Valid, InTransaction}
use good_queue.Queue.Invariant.Step.{
  updated, IsTransition, update_attempt-at, InTransaction-updated, stored,
}

key_eq-fresh :
    (rows : List QueueAttempt) (a : QueueAttempt) (k : DeduplicationKey)
    → find_row attempt_key a.id rows ≡ some a
    → Known rows k
    → key_eq k (invited_key a.id (a.version + 1)) ≡ false
key_eq-fresh rows a (compensation_key i) f h = refl
key_eq-fresh rows a (invited_key i v) f (b, found, le) = elim (Bool-cases (i == a.id)) [
  | inr n ↦ rw n
  | inl e ↦
      let same : i ≡ a.id = ground arith in
      let self : b ≡ a = cc in
      let small : v ≤ a.version = subst (λ (c : QueueAttempt). v ≤ c.version) self le in
      ground arith
]

outbox_fresh :
    (rows : List QueueAttempt) (a : QueueAttempt) (outbox : List OutboxRow)
    → find_row attempt_key a.id rows ≡ some a
    → All (λ row. Known rows row.deduplication_key) outbox
    → count_where (λ row. key_eq row.deduplication_key (invited_key a.id (a.version + 1))) outbox
      ≡ 0
outbox_fresh rows a [] f h = refl
outbox_fresh rows a (row ∷ outbox) f h =
    rw (key_eq-fresh rows a row.deduplication_key f h.0)
      (omega (arith, outbox_fresh rows a outbox f h.1))

-- A notification that the rows know can be put into the outbox.
pub InTransaction-notified :
    {id : ProductId} {base tx : Database} {reserved : ℕ} {mem : List QueueAttempt} (row : OutboxRow)
    (issued : ℕ)
    → Known tx.attempts row.deduplication_key
    → InTransaction id base tx reserved mem
    → InTransaction id base (record tx { outbox = row ∷ tx.outbox; issued = issued }) reserved mem
InTransaction-notified row issued k v = record {
  valid = record { keyed = v.valid.keyed; timed = v.valid.timed; known = (k, v.valid.known) };
  mirrored = v.mirrored;
  distinct = v.distinct;
  owned = v.owned;
  counted = v.counted;
  covered = v.covered;
  others = v.others;
  products = v.products;
}

module _ (repository : Repository) (id : ProductId) (base : Database) (now limit : ℕ) where
  abbrev promote_budget : Progress → ℕ
  promote_budget p = min p.available (limit - p.transitions)

  abbrev invited_attempt : QueueAttempt → QueueAttempt → QueueAttempt
  invited_attempt a = mark_invited now (now + repository.invitation_ttl) (a.version + 1)

  invited-IsTransition : (a : QueueAttempt) → IsTransition a (invited_attempt a)
  unfolding has_deadline
  invited-IsTransition a = record {
    same_id = λ r. refl;
    same_product = λ r. refl;
    later = omega arith;
    timed = refl;
  }

  notification : QueueAttempt → ℕ → OutboxRow
  notification a issued = record {
    id = repository.uuid_new issued;
    attempt_id = some a.id;
    event_type = EventType.queue_invited;
    deduplication_key = invited_key a.id (a.version + 1);
    payload = invitation_payload a.id a.product_id (now + repository.invitation_ttl);
    payload_hash =
        repository.payload_sum
          (invitation_payload a.id a.product_id (now + repository.invitation_ttl));
    status = OutboxStatus.pending;
    attempt_count = 0;
    available_at = now;
    lease_until = none;
    lease_token = none;
    lease_generation = 0;
    created_at = now;
    updated_at = now;
    sent_at = none;
    last_error = none;
  }

  -- The database after a promotion.
  abbrev promoted : QueueAttempt → Database → Database
  promoted a tx = record (updated a (invited_attempt a) tx) {
    outbox = notification a tx.issued ∷ tx.outbox;
    issued = tx.issued + 1;
  }

  promote-promoted :
      (a : QueueAttempt) (tx : Database)
      → a.state ≡ QueueAttemptState.waiting
      → find_row attempt_key a.id tx.attempts ≡ some a
      → Valid tx
      → promote_waiting_attempt repository now a tx ≡ ok (invited_attempt a a, promoted a tx)
  unfolding promote_waiting_attempt insert_outbox notification
  promote-promoted a tx w f v = rw (
    update_attempt-at a (invited_attempt a) (invited-IsTransition a) QueueAttemptState.waiting tx w
        f v,
    outbox_fresh tx.attempts a tx.outbox f v.known,
  )

  promote_idle :
      (a : QueueAttempt) (xs ys : List QueueAttempt) (p : Progress)
      → InTransaction id base p.tx p.reserved (xs ++ a ∷ ys)
      → invite repository.invitation_ttl now a ≡ none
      → promote_attempt repository now a p ≡ ok (a, p)
  unfolding invite promote_attempt
  promote_idle a xs ys p v e = ground arith

  promote_waiting :
      (a : QueueAttempt) (xs ys : List QueueAttempt) (p : Progress)
      → InTransaction id base p.tx p.reserved (xs ++ a ∷ ys)
      → state_eq a.state QueueAttemptState.waiting ≡ true
      → promote_budget p ≢ 0
      → Turn id base promote_budget
          (promote_attempt repository now a p)
          (invited_attempt a a)
          xs
          ys
          p
  unfolding promote_attempt notification
  promote_waiting a xs ys p v waits n =
      let is_waiting = eq_of_state_eq a.state QueueAttemptState.waiting waits in
      let set = invited_attempt a in
      let t = invited-IsTransition a in
      let found = stored a set t xs ys v in
      let moved =
        InTransaction-updated a set t (p.reserved + 1) xs ys v
          (rw is_waiting (unfold reserves_stock state_eq in omega arith)) in
      let mirror = (All-append_right _ xs (set a ∷ ys) moved.mirrored).0 in
      record {
        progress = record {
          tx = promoted a p.tx;
          available = p.available - 1;
          reserved = p.reserved + 1;
          transitions = p.transitions + 1;
        };
        returns = rw (waits, promote-promoted a p.tx is_waiting found v.valid);
        counts = refl;
        spends = omega arith;
        keeps =
            InTransaction-notified (notification a p.tx.issued) (p.tx.issued + 1)
              (set a, mirror, omega arith) moved;
      }

  promote-Turn :
      (a b : QueueAttempt) (xs ys : List QueueAttempt) (p : Progress)
      → InTransaction id base p.tx p.reserved (xs ++ a ∷ ys)
      → invite repository.invitation_ttl now a ≡ some b
      → promote_budget p ≢ 0
      → Turn id base promote_budget (promote_attempt repository now a p) b xs ys p
  unfolding invite
  promote-Turn a b xs ys p v e n = elim (Bool-cases (state_eq a.state QueueAttemptState.waiting)) [
    | inr no_wait ↦ ground arith
    | inl waits ↦
        subst (λ c. Turn id base promote_budget (promote_attempt repository now a p) c xs ys p)
          (ground arith) (promote_waiting a xs ys p v waits n)
  ]

  pub promote_loop-Looped :
      (mem : List QueueAttempt) (p : Progress)
      → p.transitions ≤ limit
      → InTransaction id base p.tx p.reserved mem
      → Looped id base
          (promote_loop repository now limit mem p)
          (rewrite_first
            (invite repository.invitation_ttl now)
            (min p.available (limit - p.transitions))
            mem)
          (p.transitions
            + spent
                (invite repository.invitation_ttl now)
                (min p.available (limit - p.transitions))
                mem)
  unfolding promote_loop
  promote_loop-Looped mem p le v =
      for_each-Looped id base (invite repository.invitation_ttl now) promote_budget
        (λ p. p.available == 0 || p.transitions == limit) (promote_attempt repository now) limit
        (λ p. omega arith) (λ p le. ground arith) promote_idle promote-Turn [] mem p le v
