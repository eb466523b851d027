-- ===== src/Outbox/Steps/Changes.antt =====
-- What one write does to the rows of the outbox (internal/repository/postgres).
use good_queue.Base.{
  ℕ, ◌≡◌, ◌≢◌, subst, Bool, true, none, some, List, [], ◌∷◌, ◌==◌, arith, All, Bool-cases, inl, inr,
}
use good_queue.Store.Rows.{update_rows, find_row, Keyed, update_rows-Keyed}
use good_queue.Store.Tables.{OutboxRow, OutboxStatus, outbox_key}
use good_queue.Outbox.Steps.{Checks, Sound}

module _ {ℓ} {A : Type ℓ} where
  pub All-updated {κ} :
      (P : A → Type κ) (hit : A → Bool) (g : A → A) (rows : List A)
      → All (λ r. hit r ≡ true → P r → P (g r)) rows
      → All P rows
      → All P (update_rows hit g rows)
  unfolding update_rows
  All-updated P hit g [] s h = tt
  All-updated P hit g (r ∷ rows) s h = elim (Bool-cases (hit r)) [
    | inl e ↦ rw e (s.0 e h.0, All-updated P hit g rows s.1 h.1)
    | inr e ↦ rw e (h.0, All-updated P hit g rows s.1 h.1)
  ]

  pub All-weaken {κ μ} :
      {P : A → Type κ} {Q : A → Type μ} (rows : List A)
      → ((r : A) → P r → Q r)
      → All P rows
      → All Q rows
  All-weaken [] f h = tt
  All-weaken (r ∷ rows) f h = (f r h.0, All-weaken rows f h.1)

  pub All-always {κ} : {P : A → Type κ} (rows : List A) → ((r : A) → P r) → All P rows
  All-always [] f = tt
  All-always (r ∷ rows) f = (f r, All-always rows f)

module _ {ℓ} {A : Type ℓ} (key : A → ℕ) where
  All-absent : (i : ℕ) (rows : List A) → find_row key i rows ≡ none → All (λ r. key r ≢ i) rows
  unfolding find_row
  All-absent i [] f = tt
  All-absent i (r ∷ rows) f = elim (Bool-cases (key r == i)) [
    | inl e ↦ let f' = rw e at f in ground arith
    | inr e ↦ let f' = rw e at f in (λ same. ground arith, All-absent i rows f')
  ]

  -- A key that is unique names one row.
  pub All-unique :
      (i : ℕ) (rows : List A) (row : A)
      → Keyed key rows
      → find_row key i rows ≡ some row
      → All (λ r. key r ≡ i → r ≡ row) rows
  unfolding find_row
  All-unique i [] row k f = tt
  All-unique i (r ∷ rows) row k f = elim (Bool-cases (key r == i)) [
    | inl e ↦
        let f' = rw e at f in
        let same : r ≡ row = ground arith in
        let id : key r ≡ i = ground arith in
        let absent = subst (λ j. find_row key j rows ≡ none) id k.0 in
        (λ e'. same, All-weaken rows (λ x other e'. ground arith) (All-absent i rows absent))
    | inr e ↦ let f' = rw e at f in (λ same. ground arith, All-unique i rows row k.1 f')
  ]

-- The rows after a write: as they were, with the rows that one key names updated, none of which had
-- been sent, or with a new row.
pub data Change (rows rows' : List OutboxRow) : Type 0 where
  same : rows ≡ rows' → Change rows rows'
  updated :
      (hit : OutboxRow → Bool) (g : OutboxRow → OutboxRow) (i : ℕ)
      → ((r : OutboxRow) → hit r ≡ true → r.id ≡ i)
      → ((r : OutboxRow) → (g r).id ≡ r.id)
      → All (λ r. hit r ≡ true → r.status ≢ OutboxStatus.sent) rows
      → ((r : OutboxRow) → hit r ≡ true → r.status ≢ OutboxStatus.sent → Checks r → Checks (g r))
      → update_rows hit g rows ≡ rows'
      → Change rows rows'
  inserted :
      (r : OutboxRow)
      → find_row outbox_key r.id rows ≡ none
      → Checks r
      → (r ∷ rows) ≡ rows'
      → Change rows rows'

pub Change-Sound : (rows rows' : List OutboxRow) → Sound rows → Change rows rows' → Sound rows'
Change-Sound rows rows' s (Change.same e) = subst Sound e s
Change-Sound rows rows' s (Change.updated hit g i only stays unsent keeps e) =
    subst Sound e (record {
      keyed = update_rows-Keyed outbox_key hit g i only stays rows s.keyed;
      checks =
          All-updated Checks hit g rows
            (All-weaken rows (λ r free h c. keeps r h (free h) c) unsent) s.checks;
    })
Change-Sound rows rows' s (Change.inserted r fresh c e) =
    subst Sound e (record { keyed = (fresh, s.keyed); checks = (c, s.checks) })

update_rows-unsent :
    (hit : OutboxRow → Bool) (g : OutboxRow → OutboxRow) (rows : List OutboxRow)
    → ((r : OutboxRow) → (g r).id ≡ r.id)
    → All (λ r. hit r ≡ true → r.status ≢ OutboxStatus.sent) rows
    → (i : ℕ) (row : OutboxRow) → find_row outbox_key i rows ≡ some row
    → row.status ≡ OutboxStatus.sent
    → find_row outbox_key i (update_rows hit g rows) ≡ some row
unfolding find_row update_rows
update_rows-unsent hit g [] stays unsent i row f sent = ground arith
update_rows-unsent hit g (r ∷ rows) stays unsent i row f sent = elim (Bool-cases (r.id == i)) [
  | inl e ↦
      let f' = rw e at f in
      let same : r ≡ row = ground arith in
      elim (Bool-cases (hit r)) [
        | inl h ↦ let free = unsent.0 h in ground arith
        | inr h ↦ rw (h, e) f'
      ]
  | inr e ↦
      let f' = rw e at f in
      let ih = update_rows-unsent hit g rows stays unsent.1 i row f' sent in
      let id = stays r in ground arith
]

-- A row that has been sent is kept as it is.
pub Change-sent :
    (rows rows' : List OutboxRow)
    → Change rows rows'
    → (i : ℕ) (row : OutboxRow) → find_row outbox_key i rows ≡ some row
    → row.status ≡ OutboxStatus.sent
    → find_row outbox_key i rows' ≡ some row
unfolding find_row
Change-sent rows rows' (Change.same e) i row f sent =
    subst (λ x. find_row outbox_key i x ≡ some row) e f
Change-sent rows rows' (Change.updated hit g j only stays unsent keeps e) i row f sent =
    subst (λ x. find_row outbox_key i x ≡ some row) e
      (update_rows-unsent hit g rows stays unsent i row f sent)
Change-sent rows rows' (Change.inserted r fresh c e) i row f sent =
    subst (λ x. find_row outbox_key i x ≡ some row) e (ground arith)
