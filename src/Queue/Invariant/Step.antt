-- ===== src/Queue/Invariant/Step.antt =====
-- One guarded UPDATE of an attempt in memory succeeds, and keeps the invariant of the transaction.
use good_queue.Base.{
  ℕ, ◌+◌, ◌≤◌, ◌≡◌, subst, ◌∙◌, ◌≢◌, true, ◌&&◌, some, List, [], ◌∷◌, ◌++◌, ◌==◌, arith, tally, All,
  All-append_right, ==_refl, Bool-cases, inl, inr,
}
use good_queue.Domain.{QueueAttempt, QueueAttemptState, ProductId, state_eq_refl, ok}
use good_queue.Store.Rows.{
  update_rows, find_row, count_where-hit, count_where-update, update_rows-Keyed,
  find_row-update_self, find_row-update_other,
}
use good_queue.Store.Updates.{All-update, update_rows-Mirrors, update_rows-middle, find_row-middle}
use good_queue.Store.Tables.{
  Database, OutboxRow, DeduplicationKey, invited_key, compensation_key, attempt_key, attempt_hit,
  update_attempt, require_one_row,
}
use good_queue.Queue.Lookup.{reserves_stock}
use good_queue.Queue.Reconcile.{reserved_count}
use good_queue.Queue.Invariant.{has_deadline, Known, Valid, held, InTransaction}

-- The table after the UPDATE of `a`.
abbrev pub updated : QueueAttempt → (QueueAttempt → QueueAttempt) → Database → Database
updated a set tx = record tx {
  attempts = update_rows (attempt_hit a.id a.state a.version) set tx.attempts;
}

hit_only : (a r : QueueAttempt) → attempt_hit a.id a.state a.version r ≡ true → r.id ≡ a.id
hit_only a r h = ground arith

hit_self : (a : QueueAttempt) → attempt_hit a.id a.state a.version a ≡ true
hit_self a = rw (==_refl a.id, state_eq_refl a.state, ==_refl a.version)

-- What every transition of `a` by `set` respects.
pub record IsTransition (a : QueueAttempt) (set : QueueAttempt → QueueAttempt) : Type 0 where
  pub same_id : (r : QueueAttempt) → (set r).id ≡ r.id
  pub same_product : (r : QueueAttempt) → (set r).product_id ≡ r.product_id
  pub later : a.version ≤ (set a).version
  pub timed : has_deadline (set a) ≡ true

module _ (a : QueueAttempt) (set : QueueAttempt → QueueAttempt) (t : IsTransition a set) where
  Known-update :
      (rows : List QueueAttempt) (k : DeduplicationKey)
      → find_row attempt_key a.id rows ≡ some a
      → Known rows k
      → Known (update_rows (attempt_hit a.id a.state a.version) set rows) k
  Known-update rows (compensation_key i) f h = tt
  Known-update rows (invited_key i v) f (b, found, le) = elim (Bool-cases (i == a.id)) [
    | inl e ↦
        let same : i ≡ a.id = ground arith in
        let self : b ≡ a = cc in
        (
          set a,
          rw same (
              find_row-update_self attempt_key _ set a.id (hit_only a) t.same_id rows f
                (hit_self a)),
          ground (arith, t.later),
        )
    | inr n ↦ (
      b,
      find_row-update_other attempt_key _ set a.id (hit_only a) t.same_id rows i (ground arith)
          ∙ found,
      le,
    )
  ]

  Known-updated :
      (rows : List QueueAttempt) (outbox : List OutboxRow)
      → find_row attempt_key a.id rows ≡ some a
      → All (λ row. Known rows row.deduplication_key) outbox
      → All
          (λ row.
            Known (update_rows (attempt_hit a.id a.state a.version) set rows) row.deduplication_key)
          outbox
  Known-updated rows [] f h = tt
  Known-updated rows (row ∷ outbox) f h =
      (Known-update rows row.deduplication_key f h.0, Known-updated rows outbox f h.1)

  updated-Valid :
      (tx : Database)
      → find_row attempt_key a.id tx.attempts ≡ some a
      → Valid tx
      → Valid (updated a set tx)
  updated-Valid tx f v = record {
    keyed = update_rows-Keyed attempt_key _ set a.id (hit_only a) t.same_id tx.attempts v.keyed;
    timed =
        All-update attempt_key _ set a (hit_only a) t.same_id (hit_self a)
          (λ b. has_deadline b ≡ true) tx.attempts v.keyed f t.timed v.timed;
    known = Known-updated tx.attempts tx.outbox f v.known;
  }

  held-updated :
      (tx : Database) (q : ProductId)
      → find_row attempt_key a.id tx.attempts ≡ some a
      → Valid tx
      → held q (updated a set tx).attempts + tally (a.product_id == q && reserves_stock a.state)
        ≡ held q tx.attempts + tally ((set a).product_id == q && reserves_stock (set a).state)
  unfolding held
  held-updated tx q f v =
      count_where-update attempt_key _ set a.id (hit_only a) t.same_id _ tx.attempts v.keyed f
        (hit_self a)

  pub update_attempt-updated :
      (tx : Database)
      → find_row attempt_key a.id tx.attempts ≡ some a
      → Valid tx
      → update_attempt a.id a.state a.version set tx ≡ ok (updated a set tx)
  unfolding update_attempt require_one_row
  update_attempt-updated tx f v = rw (
      count_where-hit attempt_key _ set a.id (hit_only a) t.same_id tx.attempts v.keyed f
        (hit_self a))

  -- The same, where the statement names the state.
  pub update_attempt-at :
      (s : QueueAttemptState) (tx : Database)
      → a.state ≡ s
      → find_row attempt_key a.id tx.attempts ≡ some a
      → Valid tx
      → update_attempt a.id s a.version set tx ≡ ok (updated a set tx)
  update_attempt-at s tx e f v =
      subst (λ s'. update_attempt a.id s' a.version set tx ≡ ok (updated a set tx)) e
        (update_attempt-updated tx f v)

  pub stored :
      {id : ProductId} {base tx : Database} {reserved : ℕ} (xs ys : List QueueAttempt)
      → InTransaction id base tx reserved (xs ++ a ∷ ys)
      → find_row attempt_key a.id tx.attempts ≡ some a
  stored xs ys v = (All-append_right _ xs (a ∷ ys) v.mirrored).0

  others-updated :
      {id : ProductId} {base tx : Database} {reserved : ℕ} (xs ys : List QueueAttempt)
      → InTransaction id base tx reserved (xs ++ a ∷ ys)
      → (q : ℕ) → q ≢ id
      → held q (updated a set tx).attempts ≡ held q base.attempts
  others-updated {id} {tx = tx} xs ys v q n = ground (
    arith,
    held-updated tx q (stored xs ys v) v.valid,
    t.same_product a,
    (All-append_right _ xs (a ∷ ys) v.owned).0,
    v.others q n,
  )

  -- The counter moves as the state of the attempt does.
  pub InTransaction-updated :
      {id : ProductId} {base tx : Database} {reserved : ℕ} (reserved' : ℕ)
      (xs ys : List QueueAttempt)
      → InTransaction id base tx reserved (xs ++ a ∷ ys)
      → reserved' + tally (reserves_stock a.state) ≡ reserved + tally (reserves_stock (set a).state)
      → InTransaction id base (updated a set tx) reserved' (xs ++ set a ∷ ys)
  unfolding reserved_count
  InTransaction-updated {id} {base} {tx} reserved' xs ys v moves =
      subst (InTransaction id base (updated a set tx) reserved')
        (update_rows-middle attempt_key _ set a (hit_only a) t.same_id (hit_self a) xs ys
          v.distinct)
        (record {
          valid = updated-Valid tx (stored xs ys v) v.valid;
          mirrored =
              update_rows-Mirrors attempt_key _ set a (hit_only a) t.same_id (hit_self a)
                tx.attempts (xs ++ a ∷ ys) (stored xs ys v) v.mirrored;
          distinct =
              update_rows-Keyed attempt_key _ set a.id (hit_only a) t.same_id (xs ++ a ∷ ys)
                v.distinct;
          owned =
              All-update attempt_key _ set a (hit_only a) t.same_id (hit_self a) _ (xs ++ a ∷ ys)
                v.distinct here (t.same_product a ∙ mine) v.owned;
          counted = omega (
            arith,
            count_where-update attempt_key _ set a.id (hit_only a) t.same_id
                (λ b. reserves_stock b.state) (xs ++ a ∷ ys) v.distinct here (hit_self a),
            v.counted,
          );
          covered = ground (
            arith,
            held-updated tx id (stored xs ys v) v.valid,
            t.same_product a,
            mine,
            v.covered,
          );
          others = others-updated xs ys v;
          products = v.products;
        })
    where
      here : find_row attempt_key a.id (xs ++ a ∷ ys) ≡ some a
      here = find_row-middle attempt_key xs a ys v.distinct

      mine : a.product_id ≡ id
      mine = (All-append_right _ xs (a ∷ ys) v.owned).0
