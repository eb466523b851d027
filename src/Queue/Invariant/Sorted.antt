-- ===== src/Queue/Invariant/Sorted.antt =====
-- ORDER BY rearranges the rows that WHERE selects: what it keeps of a table.
use good_queue.Base.{
  ℕ, ◌+◌, ◌≡◌, refl, inl, inr, Bool, true, false, ◌&&◌, none, List, [], ◌∷◌, ◌==◌, arith,
  count_where, tally, All, Bool-cases,
}
use good_queue.Domain.{QueueAttempt}
use good_queue.Store.Rows.{find_row, Keyed}
use good_queue.Store.Updates.{Mirrors}
use good_queue.Store.Tables.{attempt_key}
use good_queue.Queue.Transaction.{insert_sorted, select_sorted, precedes}

All-insert_sorted {κ} :
    (P : QueueAttempt → Type κ) (a : QueueAttempt) (bs : List QueueAttempt)
    → P a
    → All P bs
    → All P (insert_sorted a bs)
unfolding insert_sorted
All-insert_sorted P a [] p ps = (p, tt)
All-insert_sorted P a (b ∷ bs) p ps = elim (Bool-cases (precedes b a)) [
  | inl e ↦ rw e (ps.0, All-insert_sorted P a bs p ps.1)
  | inr e ↦ rw e (p, ps)
]

find_row-insert_sorted :
    (i : ℕ) (a : QueueAttempt) (bs : List QueueAttempt)
    → (a.id == i) ≡ false
    → find_row attempt_key i bs ≡ none
    → find_row attempt_key i (insert_sorted a bs) ≡ none
unfolding insert_sorted find_row
find_row-insert_sorted i a [] n h = rw n refl
find_row-insert_sorted i a (b ∷ bs) n h = ground (arith, find_row-insert_sorted i a bs n)

Keyed-insert_sorted :
    (a : QueueAttempt) (bs : List QueueAttempt)
    → find_row attempt_key a.id bs ≡ none
    → Keyed attempt_key bs
    → Keyed attempt_key (insert_sorted a bs)
unfolding insert_sorted find_row
Keyed-insert_sorted a [] h k = (refl, tt)
Keyed-insert_sorted a (b ∷ bs) h k = elim (Bool-cases (b.id == a.id)) [
  | inl e ↦ ground arith
  | inr e ↦
      let h' = rw e at h in
      elim (Bool-cases (precedes b a)) [
        | inl p ↦
            rw p
              (find_row-insert_sorted b.id a bs (ground arith) k.0, Keyed-insert_sorted a bs h' k.1)
        | inr p ↦ rw p (h, k)
      ]
]

count_where-insert_sorted :
    (q : QueueAttempt → Bool) (a : QueueAttempt) (bs : List QueueAttempt)
    → count_where q (insert_sorted a bs) ≡ tally (q a) + count_where q bs
unfolding insert_sorted
count_where-insert_sorted q a [] = refl
count_where-insert_sorted q a (b ∷ bs) = ground (arith, count_where-insert_sorted q a bs)

module _ (p : QueueAttempt → Bool) where
  find_row-select_sorted :
      (i : ℕ) (rows : List QueueAttempt)
      → find_row attempt_key i rows ≡ none
      → find_row attempt_key i (select_sorted p rows) ≡ none
  unfolding select_sorted find_row
  find_row-select_sorted i [] h = refl
  find_row-select_sorted i (a ∷ rows) h = elim (Bool-cases (a.id == i)) [
    | inl e ↦ ground arith
    | inr e ↦
        let h' = rw e at h in
        let ih = find_row-select_sorted i rows h' in
        elim (Bool-cases (p a)) [
          | inl y ↦ rw y (find_row-insert_sorted i a _ e ih)
          | inr y ↦ rw y ih
        ]
  ]

  pub Keyed-select_sorted :
      (rows : List QueueAttempt) → Keyed attempt_key rows → Keyed attempt_key (select_sorted p rows)
  unfolding select_sorted
  Keyed-select_sorted [] k = tt
  Keyed-select_sorted (a ∷ rows) k = elim (Bool-cases (p a)) [
    | inl y ↦ rw y (
        Keyed-insert_sorted a _ (find_row-select_sorted a.id rows k.0)
          (Keyed-select_sorted rows k.1))
    | inr y ↦ rw y (Keyed-select_sorted rows k.1)
  ]

  Mirrors-cons :
      (a : QueueAttempt) (rows mem : List QueueAttempt)
      → find_row attempt_key a.id rows ≡ none
      → Mirrors attempt_key rows mem
      → Mirrors attempt_key (a ∷ rows) mem
  unfolding find_row
  Mirrors-cons a rows [] h m = tt
  Mirrors-cons a rows (b ∷ mem) h m = (ground arith, Mirrors-cons a rows mem h m.1)

  pub Mirrors-select_sorted :
      (rows : List QueueAttempt)
      → Keyed attempt_key rows
      → Mirrors attempt_key rows (select_sorted p rows)
  unfolding select_sorted find_row
  Mirrors-select_sorted [] k = tt
  Mirrors-select_sorted (a ∷ rows) k =
      let rest = Mirrors-cons a rows (select_sorted p rows) k.0 (Mirrors-select_sorted rows k.1) in
      elim (Bool-cases (p a)) [
        | inl y ↦ rw y (All-insert_sorted _ a _ (ground arith) rest)
        | inr y ↦ rw y rest
      ]

  pub All-select_sorted {κ} :
      (P : QueueAttempt → Type κ)
      → ((a : QueueAttempt) → p a ≡ true → P a)
      → (rows : List QueueAttempt) → All P (select_sorted p rows)
  unfolding select_sorted
  All-select_sorted P h [] = tt
  All-select_sorted P h (a ∷ rows) = elim (Bool-cases (p a)) [
    | inl y ↦ rw y (All-insert_sorted P a _ (h a y) (All-select_sorted P h rows))
    | inr y ↦ rw y (All-select_sorted P h rows)
  ]

  pub count_where-select_sorted :
      (q r : QueueAttempt → Bool)
      → ((a : QueueAttempt) → (p a && q a) ≡ r a)
      → (rows : List QueueAttempt) → count_where q (select_sorted p rows) ≡ count_where r rows
  unfolding select_sorted
  count_where-select_sorted q r h [] = refl
  count_where-select_sorted q r h (a ∷ rows) = ground (
    arith,
    h a,
    count_where-select_sorted q r h rows,
    count_where-insert_sorted q a (select_sorted p rows),
  )
