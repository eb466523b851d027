-- ===== src/Store/Rows.antt =====
-- Rows found and updated by a key. `update_rows hit g` is `UPDATE … SET g WHERE hit`, and
-- `count_where hit` is its RowsAffected.
use good_queue.Base.{
  ℕ, ◌+◌, ◌≡◌, refl, ◌≢◌, subst, Bool, true, false, Option, none, some, List, [], ◌∷◌, ◌++◌, ◌==◌,
  if◌then◌else◌, arith, count_where, tally, Bool-cases, inl, inr,
}

module _ {ℓ} {A : Type ℓ} where
  unfoldable pub update_rows : (A → Bool) → (A → A) → List A → List A
  update_rows hit g [] = []
  update_rows hit g (r ∷ rs) = (if hit r then g r else r) ∷ update_rows hit g rs

module _ {ℓ} {A : Type ℓ} (key : A → ℕ) where
  unfoldable pub find_row : ℕ → List A → Option A
  find_row i [] = none
  find_row i (r ∷ rs) = if key r == i then some r else find_row i rs

  -- No two rows share their key: the table's primary key.
  abbrev pub Keyed : List A → Type ℓ
  Keyed [] = Unit
  Keyed (r ∷ rs) = (find_row (key r) rs ≡ none) × Keyed rs

  pub find_row-key : (i : ℕ) (rs : List A) {a : A} → find_row i rs ≡ some a → key a ≡ i
  unfolding find_row
  find_row-key i [] h = cc
  find_row-key i (r ∷ rs) {a} h = ground (arith, find_row-key i rs {a = a})

  pub find_row-append_none :
      (i : ℕ) (xs ys : List A) → find_row i xs ≡ none → find_row i (xs ++ ys) ≡ find_row i ys
  unfolding find_row
  find_row-append_none i [] ys h = refl
  find_row-append_none i (x ∷ xs) ys h = ground (arith, find_row-append_none i xs ys)

-- One UPDATE whose condition names the key `i`.
module _ {ℓ} {A : Type ℓ} (key : A → ℕ) (hit : A → Bool) (g : A → A) (i : ℕ)
    (only : (r : A) → hit r ≡ true → key r ≡ i) (stays : (r : A) → key (g r) ≡ key r) where
  pub count_where-miss : (rs : List A) → find_row key i rs ≡ none → count_where hit rs ≡ 0
  unfolding find_row
  count_where-miss [] h = refl
  count_where-miss (r ∷ rs) h = ground (arith, only r, count_where-miss rs)

  pub update_rows-miss : (rs : List A) → find_row key i rs ≡ none → update_rows hit g rs ≡ rs
  unfolding find_row update_rows
  update_rows-miss [] h = refl
  update_rows-miss (r ∷ rs) h = ground (arith, only r, update_rows-miss rs)

  -- The key is unique, so an UPDATE that its row passes affects one row.
  pub count_where-hit :
      (rs : List A) {a : A}
      → Keyed key rs
      → find_row key i rs ≡ some a
      → hit a ≡ true
      → count_where hit rs ≡ 1
  unfolding find_row
  count_where-hit [] k f h = cc
  count_where-hit (r ∷ rs) {a} k f h =
      ground (arith, only r, count_where-miss rs, count_where-hit rs {a = a})

  pub find_row-update_self :
      (rs : List A) {a : A}
      → find_row key i rs ≡ some a
      → hit a ≡ true
      → find_row key i (update_rows hit g rs) ≡ some (g a)
  unfolding find_row update_rows
  find_row-update_self [] f h = cc
  find_row-update_self (r ∷ rs) {a} f h =
      ground (arith, only r, stays r, find_row-update_self rs {a = a})

  pub find_row-update_other :
      (rs : List A) (j : ℕ) → j ≢ i → find_row key j (update_rows hit g rs) ≡ find_row key j rs
  unfolding find_row update_rows
  find_row-update_other [] j n = refl
  find_row-update_other (r ∷ rs) j n = ground (arith, only r, stays r, find_row-update_other rs j)

  pub find_row-update_none :
      (rs : List A) (j : ℕ)
      → find_row key j rs ≡ none
      → find_row key j (update_rows hit g rs) ≡ none
  unfolding find_row update_rows
  find_row-update_none [] j n = refl
  find_row-update_none (r ∷ rs) j n = ground (arith, only r, stays r, find_row-update_none rs j)

  pub update_rows-Keyed : (rs : List A) → Keyed key rs → Keyed key (update_rows hit g rs)
  unfolding update_rows
  update_rows-Keyed [] k = tt
  update_rows-Keyed (r ∷ rs) k =
      ground (arith, only r, stays r, find_row-update_none rs (key r), update_rows-Keyed rs)

  -- The one row that changes is all that a count can notice.
  pub count_where-update :
      (p : A → Bool) (rs : List A) {a : A}
      → Keyed key rs
      → find_row key i rs ≡ some a
      → hit a ≡ true
      → count_where p (update_rows hit g rs) + tally (p a) ≡ count_where p rs + tally (p (g a))
  unfolding find_row update_rows
  count_where-update p [] k f h = cc
  count_where-update p (r ∷ rs) {a} k f h =
      ground (arith, only r, update_rows-miss rs, count_where-update p rs {a = a})

module _ {ℓ} {A : Type ℓ} (key : A → ℕ) where
  -- The row under a key is the only one that a condition which names the key can hit.
  pub count_where-other :
      (hit : A → Bool) (i : ℕ) (rows : List A) (row : A)
      → ((r : A) → hit r ≡ true → key r ≡ i)
      → Keyed key rows
      → find_row key i rows ≡ some row
      → hit row ≡ false
      → count_where hit rows ≡ 0
  unfolding find_row
  count_where-other hit i [] row only k f h = refl
  count_where-other hit i (r ∷ rows) row only k f h = elim (Bool-cases (key r == i)) [
    | inl e ↦
        let f' = rw e at f in
        let same : r ≡ row = ground arith in
        let at_key : find_row key i rows ≡ none =
          subst (λ j. find_row key j rows ≡ none) (ground arith) k.0 in
        ground (arith, count_where-miss key hit (λ x. x) i only (λ x. refl) rows at_key)
    | inr e ↦
        let f' = rw e at f in
        let miss : hit r ≡ false = ground (arith, only r) in
        ground (arith, count_where-other hit i rows row only k.1 f' h)
  ]

module _ {ℓ} {A : Type ℓ} where
  -- No row is hit again when the update takes it out of the test.
  pub count_where-hit_once :
      (hit : A → Bool) (set : A → A) (rows : List A)
      → ((r : A) → hit (set r) ≡ false)
      → count_where hit (update_rows hit set rows) ≡ 0
  unfolding update_rows
  count_where-hit_once hit set [] s = refl
  count_where-hit_once hit set (r ∷ rows) s =
      ground (arith, count_where-hit_once hit set rows s, s r)

  -- An UPDATE of no rows changes nothing.
  pub update_rows-zero :
      (hit : A → Bool) (set : A → A) (rows : List A)
      → count_where hit rows ≡ 0
      → update_rows hit set rows ≡ rows
  unfolding update_rows
  update_rows-zero hit set [] z = refl
  update_rows-zero hit set (r ∷ rows) z = ground (arith, update_rows-zero hit set rows)
