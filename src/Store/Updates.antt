-- ===== src/Store/Updates.antt =====
-- Predicates over the rows of a table, and lists in memory that mirror some of its rows, under an
-- UPDATE that one key selects.
use good_queue.Base.{
  ℕ, ◌≡◌, Bool, true, none, some, List, [], ◌∷◌, ◌++◌, ◌==◌, if◌then◌else◌, arith, All, false,
  Bool-cases, inl, inr, subst, ◌∙◌,
}
use good_queue.Store.Rows.{
  update_rows, find_row, Keyed, update_rows-miss, find_row-update_self, find_row-update_other,
}

module _ {ℓ} {A : Type ℓ} (key : A → ℕ) where
  -- Every member is the row that the table has under its key.
  abbrev pub Mirrors : List A → List A → Type ℓ
  Mirrors rows mem = All (λ a. find_row key (key a) rows ≡ some a) mem

  pub All-find_row {κ} :
      (P : A → Type κ) (rows : List A) (i : ℕ) (a : A)
      → All P rows
      → find_row key i rows ≡ some a
      → P a
  unfolding find_row
  All-find_row P [] i a h f = cc
  All-find_row P (r ∷ rows) i a h f = elim (Bool-cases (key r == i)) [
    | inl e ↦ let same : r ≡ a = ground arith in subst P same h.0
    | inr n ↦ All-find_row P rows i a h.1 (ground arith)
  ]

  pub find_row-middle_none :
      (i : ℕ) (xs : List A) (a : A) (ys : List A)
      → find_row key i (xs ++ a ∷ ys) ≡ none
      → (key a == i) ≡ false
  unfolding find_row
  find_row-middle_none i [] a ys h = ground arith
  find_row-middle_none i (x ∷ xs) a ys h = ground (arith, find_row-middle_none i xs a ys)

  pub find_row-middle :
      (xs : List A) (a : A) (ys : List A)
      → Keyed key (xs ++ a ∷ ys)
      → find_row key (key a) (xs ++ a ∷ ys) ≡ some a
  unfolding find_row
  find_row-middle [] a ys k = ground arith
  find_row-middle (x ∷ xs) a ys k =
      ground (arith, find_row-middle xs a ys, find_row-middle_none (key x) xs a ys)

module _ {ℓ} {A : Type ℓ} (key : A → ℕ) (hit : A → Bool) (g : A → A) (a : A)
    (only : (r : A) → hit r ≡ true → key r ≡ key a) (stays : (r : A) → key (g r) ≡ key r)
    (passes : hit a ≡ true) where
  pub All-update {κ} :
      (P : A → Type κ) (rs : List A)
      → Keyed key rs
      → find_row key (key a) rs ≡ some a
      → P (g a)
      → All P rs
      → All P (update_rows hit g rs)
  unfolding find_row update_rows
  All-update P [] k f pa h = cc
  All-update P (r ∷ rs) k f pa h = elim (Bool-cases (key r == key a)) [
    | inl e ↦
        let same : r ≡ a = ground arith in
        let rest : update_rows hit g rs ≡ rs =
          update_rows-miss key hit g (key a) only stays rs (ground arith) in
        rw (same, passes, rest) (pa, h.1)
    | inr n ↦
        let fails : hit r ≡ false = ground (arith, only r) in
        rw fails (h.0, All-update P rs k.1 (ground arith) pa h.1)
  ]

  pub update_rows-Mirrors :
      (rows mem : List A)
      → find_row key (key a) rows ≡ some a
      → Mirrors key rows mem
      → Mirrors key (update_rows hit g rows) (update_rows hit g mem)
  unfolding update_rows
  update_rows-Mirrors rows [] f m = tt
  update_rows-Mirrors rows (b ∷ mem) f m = (moved, update_rows-Mirrors rows mem f m.1)
    where
      moved :
          find_row key (key (if hit b then g b else b)) (update_rows hit g rows)
          ≡ some (if hit b then g b else b)
      moved = elim (Bool-cases (key b == key a)) [
        | inl e ↦
            let id : key b ≡ key a = ground arith in
            let same : b ≡ a = cc (m.0) in
            rw (same, passes, stays a)
              (find_row-update_self key hit g (key a) only stays rows f passes)
        | inr n ↦
            let fails : hit b ≡ false = ground (arith, only b) in
            rw fails
              (find_row-update_other key hit g (key a) only stays rows (key b) (ground arith) ∙ m.0)
      ]

  pub update_rows-middle :
      (xs ys : List A)
      → Keyed key (xs ++ a ∷ ys)
      → update_rows hit g (xs ++ a ∷ ys) ≡ xs ++ g a ∷ ys
  unfolding update_rows
  update_rows-middle [] ys k = ground (arith, update_rows-miss key hit g (key a) only stays ys)
  update_rows-middle (x ∷ xs) ys k =
      ground (arith, only x, update_rows-middle xs ys, find_row-middle_none key (key x) xs a ys)
