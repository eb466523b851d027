-- ===== src/Worker/Reconciliation/Cycles.antt =====
-- One cycle of the reconciliation worker, over any Reconciler (internal/worker/worker.go, reconcileCycle).
use good_queue.Base.{
  ℕ, All, zero, suc, ◌+◌, ◌≤◌, ◌≡◌, ◌≢◌, refl, Bool, true, false, ◌||◌, Option, none, some, List,
  [], ◌∷◌, ◌++◌, ◌==◌, arith, length, Bool-cases, inl, inr,
}
use good_queue.Domain.{ProductId, Error, ReconciliationResult}
use good_queue.Store.Rows.{find_row, Keyed}
use good_queue.Queue.Background.{any_of}
use good_queue.Worker.Reconciliation.{
  Reconciler, Cycle, trying, after_reconcile, reconcile_from, reconcile_cycle,
}

abbrev pub itself : ProductId → ℕ
itself id = id

any_of-absent :
    (p : ProductId) (ids : List ProductId)
    → any_of (λ id. id == p) ids ≡ false
    → find_row itself p ids ≡ none
unfolding any_of find_row
any_of-absent p [] h = refl
any_of-absent p (x ∷ ids) h = ground (arith, any_of-absent p ids)

-- What is not among the products with a last one added is not among them, and is not the last one.
absent-append :
    (p q : ProductId) (ids : List ProductId)
    → find_row itself q (ids ++ p ∷ []) ≡ none
    → (find_row itself q ids ≡ none) × (q ≢ p)
unfolding find_row
absent-append p q [] f = (refl, λ e. ground arith)
absent-append p q (x ∷ ids) f = elim (Bool-cases (x == q)) [
  | inl e ↦ let f' = rw e at f in ground arith
  | inr e ↦ let f' = rw e at f in rw e (absent-append p q ids f')
]

-- None of the products is among those to pass over.
abbrev Outside : List ProductId → List ProductId → Type 0
Outside excluded ids = All (λ q. find_row itself q excluded ≡ none) ids

Outside-append :
    (p : ProductId) (excluded ids : List ProductId)
    → Outside (excluded ++ p ∷ []) ids
    → Outside excluded ids × (find_row itself p ids ≡ none)
unfolding find_row
Outside-append p excluded [] o = (tt, refl)
Outside-append p excluded (q ∷ ids) o =
    let a = absent-append p q excluded o.0 in
    let rest = Outside-append p excluded ids o.1 in
    let other : (q == p) ≡ false = ground (arith, a.1) in ((a.0, rest.0), rw other rest.1)

-- The calls of a cycle: no two name the same product, none an excluded one, at most `left` name one.
record Fresh {S : Type 0} (excluded : List ProductId) (left : ℕ) (cycle : Cycle S) : Type 0 where
  distinct : Keyed itself cycle.tried
  outside : Outside excluded cycle.tried
  few : length cycle.tried ≤ left

-- One more product that the reply named, before a rest of the cycle that excludes it.
tried-Fresh :
    {S : Type 0} (excluded : List ProductId) (left : ℕ) (p : ProductId) (rest : Cycle S)
    → (p ≢ 0 → any_of (λ id. id == p) excluded ≡ false)
    → (p == 0) ≡ false
    → Fresh (excluded ++ p ∷ []) left rest
    → Fresh excluded (suc left) (trying p rest)
tried-Fresh excluded left p rest f e r =
    let o = Outside-append p excluded rest.tried r.outside in
    record {
      distinct = (o.1, r.distinct);
      outside = (any_of-absent p excluded (f (λ z. ground arith)), o.0);
      few = omega (arith, r.few);
    }

after_reconcile-Fresh :
    {S : Type 0} (go_on : List ProductId → Bool → Bool → S → Cycle S) (left : ℕ)
    → ((ids : List ProductId) (more failed : Bool) (s : S)
        → Fresh ids left (go_on ids more failed s))
    → (excluded : List ProductId) (more failed : Bool)
    → (reply : (ReconciliationResult × Option Error) × S)
    → (reply.0.0.product_id ≢ 0 → any_of (λ id. id == reply.0.0.product_id) excluded ≡ false)
    → Fresh excluded (suc left) (after_reconcile go_on excluded more failed reply)
unfolding after_reconcile
after_reconcile-Fresh go_on left ih excluded more failed ((result, some e), s) f =
    elim (Bool-cases (result.product_id == 0)) [
      | inl z ↦ rw z (record { distinct = tt; outside = tt; few = omega arith })
      | inr z ↦
          let g = tried-Fresh excluded left result.product_id _ f z (ih _ more true s) in
          rw z (record { distinct = g.distinct; outside = g.outside; few = g.few })
    ]
after_reconcile-Fresh go_on left ih excluded more failed ((result, none), s) f =
    elim (Bool-cases (result.product_id == 0)) [
      | inl z ↦ rw z (record { distinct = tt; outside = tt; few = omega arith })
      | inr z ↦
          let g =
            tried-Fresh excluded left result.product_id _ f z
              (ih _ (more || result.more_work) failed s) in
          rw z (record { distinct = g.distinct; outside = g.outside; few = g.few })
    ]

-- The products that the calls named: no two are the same, and at most `most` of them.
pub record Bounded {S : Type 0} (most : ℕ) (cycle : Cycle S) : Type 0 where
  pub distinct : Keyed itself cycle.tried
  pub few : length cycle.tried ≤ most

module _ {S : Type 0} (reconciler : Reconciler S) (alive : ℕ → Bool) where
  reconcile_from-Fresh :
      (left processed : ℕ) (excluded : List ProductId) (more failed : Bool) (s : S)
      → Fresh excluded left (reconcile_from reconciler alive left processed excluded more failed s)
  unfolding reconcile_from
  reconcile_from-Fresh zero processed excluded more failed s = record {
    distinct = tt;
    outside = tt;
    few = omega arith;
  }
  reconcile_from-Fresh (suc left) processed excluded more failed s =
      elim (Bool-cases (alive processed)) [
        | inr e ↦ rw e (record { distinct = tt; outside = tt; few = omega arith })
        | inl e ↦ rw e (
            after_reconcile-Fresh _ left
              (λ ids more' failed' s'.
                reconcile_from-Fresh left (processed + 1) ids more' failed' s')
              excluded more failed _ (reconciler.passes_over processed excluded s))
      ]

  -- A cycle over a Reconciler that names none of the products it is told to pass over names no product
  -- twice in its calls, and at most MaxReconciledProducts of them, failures included.
  pub reconcile_cycle-Bounded :
      (max_reconciled_products : ℕ) (s : S)
      → Bounded max_reconciled_products (reconcile_cycle reconciler alive max_reconciled_products s)
  unfolding reconcile_cycle
  reconcile_cycle-Bounded most s =
      let f = reconcile_from-Fresh most 0 [] false false s in
      record { distinct = f.distinct; few = f.few }

-- A property of the state that every call keeps, and under which no call fails.
pub record Kept {S : Type 0} (P : S → Type 0) (reply : (ReconciliationResult × Option Error) × S)
    : Type 0 where
  pub no_error : reply.0.1 ≡ none
  pub kept : P reply.1

pub record Succeeds {S : Type 0} (P : S → Type 0) (cycle : Cycle S) : Type 0 where
  pub succeeded : cycle.outcome.failed ≡ false
  pub kept : P cycle.state

after_reconcile-Succeeds :
    {S : Type 0} (P : S → Type 0) (go_on : List ProductId → Bool → Bool → S → Cycle S)
    → ((ids : List ProductId) (more : Bool) (s : S) → P s → Succeeds P (go_on ids more false s))
    → (excluded : List ProductId) (more : Bool)
    → (reply : (ReconciliationResult × Option Error) × S) → Kept P reply
    → Succeeds P (after_reconcile go_on excluded more false reply)
unfolding after_reconcile
after_reconcile-Succeeds P go_on ih excluded more ((result, some e), s) r =
    ground (arith, r.no_error)
after_reconcile-Succeeds P go_on ih excluded more ((result, none), s) r =
    elim (Bool-cases (result.product_id == 0)) [
      | inl z ↦ rw z (record { succeeded = refl; kept = r.kept })
      | inr z ↦
          let g = ih (excluded ++ result.product_id ∷ []) (more || result.more_work) s r.kept in
          rw z (record { succeeded = g.succeeded; kept = g.kept })
    ]

module _ {S : Type 0} (reconciler : Reconciler S) (alive : ℕ → Bool) (P : S → Type 0)
    (keeps : (n : ℕ) (ids : List ProductId) (s : S)
      → P s
      → Kept P (reconciler.reconcile_next_product n ids s)) where
  reconcile_from-Succeeds :
      (left processed : ℕ) (excluded : List ProductId) (more : Bool) (s : S)
      → P s
      → Succeeds P (reconcile_from reconciler alive left processed excluded more false s)
  unfolding reconcile_from
  reconcile_from-Succeeds zero processed excluded more s p = record { succeeded = refl; kept = p }
  reconcile_from-Succeeds (suc left) processed excluded more s p =
      elim (Bool-cases (alive processed)) [
        | inr e ↦ rw e (record { succeeded = refl; kept = p })
        | inl e ↦ rw e (
            after_reconcile-Succeeds P _
              (λ ids more' s' p'. reconcile_from-Succeeds left (processed + 1) ids more' s' p')
              excluded more _ (keeps processed excluded s p))
      ]

  pub reconcile_cycle-Succeeds :
      (max_reconciled_products : ℕ) (s : S)
      → P s
      → Succeeds P (reconcile_cycle reconciler alive max_reconciled_products s)
  unfolding reconcile_cycle
  reconcile_cycle-Succeeds most s p = reconcile_from-Succeeds most 0 [] false s p
