-- ===== src/Queue/Reconcile/Loops.antt =====
-- One loop of reconcileLockedProductBounded (internal/repository/postgres/queue_attempt.go), for any body that
-- replaces attempts one by one.
use good_queue.Base.{
  ℕ, ◌+◌, ◌-◌, ◌≤◌, ◌≡◌, ◌≢◌, sym, ap, subst, ◌∙◌, Bool, Option, none, some, List, [], ◌∷◌, ◌++◌,
  ◌==◌, arith, append_assoc, append-nil, Bool-cases, Option-cases, inl, inr,
}
use good_queue.Domain.{QueueAttempt, ProductId, Result, ok}
use good_queue.Store.Tables.{Database}
use good_queue.Queue.Reconcile.{Progress, Pass, for_each}
use good_queue.Queue.Reconcile.Reference.{
  rewrite_first, spent, rewrite_first-nil, rewrite_first-none, rewrite_first-some,
  rewrite_first-zero,
}
use good_queue.Queue.Invariant.{InTransaction}

-- A loop has returned: the attempts, the count of transitions, and the invariant.
pub record Looped (id : ProductId) (base : Database) (outcome : Result Pass)
    (attempts : List QueueAttempt) (transitions : ℕ) : Type 0 where
  pub progress : Progress
  pub returns : outcome ≡ ok (attempts, progress)
  pub counts : progress.transitions ≡ transitions
  pub keeps : InTransaction id base progress.tx progress.reserved attempts

-- One turn of a loop that replaces `a` by `b`.
pub record Turn (id : ProductId) (base : Database) (budget : Progress → ℕ)
    (outcome : Result (QueueAttempt × Progress)) (b : QueueAttempt) (xs ys : List QueueAttempt)
    (p : Progress) : Type 0 where
  pub progress : Progress
  pub returns : outcome ≡ ok (b, progress)
  pub counts : progress.transitions ≡ p.transitions + 1
  pub spends : budget progress + 1 ≡ budget p
  pub keeps : InTransaction id base progress.tx progress.reserved (xs ++ b ∷ ys)

module _ (id : ProductId) (base : Database) (f : QueueAttempt → Option QueueAttempt)
    (budget : Progress → ℕ) (stop : Progress → Bool)
    (body : QueueAttempt → Progress → Result (QueueAttempt × Progress)) (limit : ℕ)
    (within : (p : Progress) → budget p ≤ limit - p.transitions)
    (stops : (p : Progress) → p.transitions ≤ limit → stop p ≡ (budget p == 0))
    (idle : (a : QueueAttempt) (xs ys : List QueueAttempt) (p : Progress)
      → InTransaction id base p.tx p.reserved (xs ++ a ∷ ys)
      → f a ≡ none
      → body a p ≡ ok (a, p))
    (turn : (a b : QueueAttempt) (xs ys : List QueueAttempt) (p : Progress)
      → InTransaction id base p.tx p.reserved (xs ++ a ∷ ys)
      → f a ≡ some b
      → budget p ≢ 0
      → Turn id base budget (body a p) b xs ys p) where
  shift :
      (done rest : List QueueAttempt) (b : QueueAttempt) (p : Progress)
      → InTransaction id base p.tx p.reserved (done ++ b ∷ rest)
      → InTransaction id base p.tx p.reserved ((done ++ b ∷ []) ++ rest)
  shift done rest b p v = rw (append_assoc done (b ∷ []) rest) v

  pub for_each-Looped :
      (done rest : List QueueAttempt) (p : Progress)
      → p.transitions ≤ limit
      → InTransaction id base p.tx p.reserved (done ++ rest)
      → Looped id base
          (for_each stop body done rest p)
          (done ++ rewrite_first f (budget p) rest)
          (p.transitions + spent f (budget p) rest)
  unfolding for_each
  for_each-Looped done [] p le v = record {
    progress = p;
    returns = rw (rewrite_first-nil f (budget p), append-nil done);
    counts = omega arith;
    keeps = rw (rewrite_first-nil f (budget p)) v;
  }
  for_each-Looped done (a ∷ rest) p le v = elim (Bool-cases (stop p)) [
    | inl e ↦
        let zero_budget : budget p ≡ 0 = ground (arith, stops p le) in
        record {
          progress = p;
          returns = rw (e, rewrite_first-zero f (budget p) (a ∷ rest) zero_budget);
          counts = omega arith;
          keeps = rw (rewrite_first-zero f (budget p) (a ∷ rest) zero_budget) v;
        }
    | inr more ↦ elim (Option-cases (f a)) [
      | inl e ↦
          let ih = for_each-Looped (done ++ a ∷ []) rest p le (shift done rest a p v) in
          let same : (done ++ a ∷ []) ++ rewrite_first f (budget p) rest
              ≡ done ++ rewrite_first f (budget p) (a ∷ rest) =
            append_assoc done (a ∷ []) (rewrite_first f (budget p) rest)
            ∙ ap (λ l. done ++ l) (sym (rewrite_first-none f (budget p) a rest e)) in
          record {
            progress = ih.progress;
            returns =
                rw (more, idle a done rest p v e) (ih.returns ∙ ap (λ l. ok (l, ih.progress)) same);
            counts = rw e (omega (arith, ih.counts));
            keeps = subst (InTransaction id base ih.progress.tx ih.progress.reserved) same ih.keeps;
          }
      | inr (b, e) ↦
          let t = turn a b done rest p v e (ground (arith, stops p le)) in
          let q = t.progress in
          let ih =
            for_each-Looped (done ++ b ∷ []) rest q (omega (arith, t.counts, t.spends, within p))
              (shift done rest b q t.keeps) in
          let same : (done ++ b ∷ []) ++ rewrite_first f (budget q) rest
              ≡ done ++ rewrite_first f (budget p) (a ∷ rest) =
            append_assoc done (b ∷ []) (rewrite_first f (budget q) rest)
            ∙ ap (λ l. done ++ l)
                (sym (
                  rewrite_first-some f (budget p) (budget q) a b rest (omega (arith, t.spends))
                    e)) in
          record {
            progress = ih.progress;
            returns = rw (more, t.returns) (ih.returns ∙ ap (λ l. ok (l, ih.progress)) same);
            counts = rw e (omega (arith, ih.counts, t.counts, t.spends));
            keeps = subst (InTransaction id base ih.progress.tx ih.progress.reserved) same ih.keeps;
          }
    ]
  ]
