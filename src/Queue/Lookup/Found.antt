-- ===== src/Queue/Lookup/Found.antt =====
-- What a search over a list finds.
use good_queue.Base.{
  ◌≡◌, ap, Bool, true, some, List, [], ◌∷◌, ◌++◌, arith, Bool-cases, Option-cases, ◌∙◌, inl, inr,
}
use good_queue.Queue.Lookup.{find_first, find_last}

module _ {ℓ} {A : Type ℓ} (p : A → Bool) where
  pub find_first-passes : (rows : List A) (a : A) → find_first p rows ≡ some a → p a ≡ true
  unfolding find_first
  find_first-passes [] a f = ground arith
  find_first-passes (r ∷ rows) a f = ground (arith, find_first-passes rows a)

  -- A member that a search finds stands somewhere.
  pub find_first-splits :
      (rows : List A) (a : A)
      → find_first p rows ≡ some a
      → (xs : List A) × (ys : List A) × (rows ≡ xs ++ a ∷ ys)
  unfolding find_first
  find_first-splits [] a f = ground arith
  find_first-splits (r ∷ rows) a f = elim (Bool-cases (p r)) [
    | inl e ↦
        let f' = rw e at f in let same : r ≡ a = ground arith in ([], rows, ap (λ x. x ∷ rows) same)
    | inr e ↦
        let f' = rw e at f in
        let ih = find_first-splits rows a f' in (r ∷ ih.0, ih.1, ap (λ l. r ∷ l) ih.2)
  ]

  pub find_last-splits :
      (rows : List A) (a : A)
      → find_last p rows ≡ some a
      → (xs : List A) × (ys : List A) × (rows ≡ xs ++ a ∷ ys)
  unfolding find_last
  find_last-splits [] a f = ground arith
  find_last-splits (r ∷ rows) a f = elim (Option-cases (find_last p rows)) [
    | inl e ↦
        let f' = rw e at f in let same : r ≡ a = ground arith in ([], rows, ap (λ x. x ∷ rows) same)
    | inr (b, e) ↦
        let f' = rw e at f in
        let same : b ≡ a = ground arith in
        let ih = find_last-splits rows a (e ∙ ap some same) in
        (r ∷ ih.0, ih.1, ap (λ l. r ∷ l) ih.2)
  ]
