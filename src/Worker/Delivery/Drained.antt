-- ===== src/Worker/Delivery/Drained.antt =====
-- How a cycle of the outbox worker ends (internal/worker/worker.go, outboxCycle).
use good_queue.Base.{
  ℕ, zero, suc, ◌+◌, ◌≡◌, refl, subst, Bool, true, false, Option, none, some, arith, leb,
  Bool-cases, Option-cases, inl, inr,
}
use good_queue.Domain.{Result, ok, err}
use good_queue.Store.Tables.{Database}
use good_queue.Queue.Repository.{Repository}
use good_queue.Outbox.Claims.{NotificationClaim, claim_candidate, claim_notification}
use good_queue.Worker.{Config, CycleOutcome}
use good_queue.Worker.Delivery.{
  Moment, OutboxCycle, deliver_notification, after_claim, outbox_from, outbox_cycle,
}

-- At one of the readings of the clock nothing was left to claim.
pub record Drained (moments : ℕ → Moment) (db : Database) : Type 0 where
  pub item : ℕ
  pub no_candidate :
      claim_candidate ((moments item).claim_clock) ((moments item).is_locked) db ≡ none

-- The outcome after which the loop waits for the interval.
abbrev pub idle : CycleOutcome
idle = record { immediate = false; failed = false }

claim_notification-none :
    (repository : Repository) (now : ℕ) (is_locked : ℕ → Bool) (lease : ℕ) (db db' : Database)
    → claim_notification repository now is_locked lease db ≡ (ok none, db')
    → claim_candidate now is_locked db' ≡ none
unfolding claim_notification claim_candidate
claim_notification-none repository now is_locked lease db db' h = elim (Bool-cases (leb lease 0)) [
  | inl e ↦ let h' = rw e at h in ground arith
  | inr e ↦
      let h' = rw e at h in
      elim (Option-cases (claim_candidate now is_locked db)) [
        | inr (row, n) ↦ let h'' = rw n at h' in ground arith
        | inl n ↦
            let h'' = rw n at h' in
            let after : record db { issued = db.issued + 1 } ≡ db' = cc in
            subst (λ d. claim_candidate now is_locked d ≡ none) after n
      ]
]

after_claim-Drained :
    (config : Config) (moments : ℕ → Moment) (item : ℕ) (go_on : Database → OutboxCycle)
    → ((d : Database) → (go_on d).outcome ≡ idle → Drained moments ((go_on d).db))
    → (reply : Result (Option NotificationClaim) × Database)
    → (reply.0 ≡ ok none
        → claim_candidate ((moments item).claim_clock) ((moments item).is_locked) reply.1 ≡ none)
    → (after_claim config (moments item) go_on reply).outcome ≡ idle
    → Drained moments ((after_claim config (moments item) go_on reply).db)
unfolding after_claim
after_claim-Drained config moments item go_on ih (err e, db) f h = ground arith
after_claim-Drained config moments item go_on ih (ok none, db) f h = record {
  item = item;
  no_candidate = f refl;
}
after_claim-Drained config moments item go_on ih (ok (some c), db) f h =
    ih ((deliver_notification config (moments item) c db).db) h

module _ (repository : Repository) (config : Config) (alive : ℕ → Bool) (moments : ℕ → Moment)
    (runs : (n : ℕ) → alive n ≡ true) where
  outbox_from-Drained :
      (left item : ℕ) (db : Database)
      → (outbox_from repository config alive moments left item db).outcome ≡ idle
      → Drained moments ((outbox_from repository config alive moments left item db).db)
  unfolding outbox_from
  outbox_from-Drained zero item db h = let h' = rw (runs item) at h in ground arith
  outbox_from-Drained (suc left) item db h =
      let h' = rw (runs item) at h in
      rw (runs item) (
        after_claim-Drained config moments item _ (λ d g. outbox_from-Drained left (item + 1) d g)
          (claim_notification repository ((moments item).claim_clock) ((moments item).is_locked)
            config.outbox_lease_duration db)
          (λ g. claim_notification-none repository _ _ config.outbox_lease_duration db _ (reply g))
          h')
    where
      reply :
          (claim_notification repository
              ((moments item).claim_clock)
              ((moments item).is_locked)
              config.outbox_lease_duration
              db).0
            ≡ ok none
          → claim_notification repository
              ((moments item).claim_clock)
              ((moments item).is_locked)
              config.outbox_lease_duration
              db
            ≡ (
              ok none,
              (claim_notification repository
                  ((moments item).claim_clock)
                  ((moments item).is_locked)
                  config.outbox_lease_duration
                  db).1,
            )
      reply g = rw g refl

  -- While the context lives, a cycle of the outbox worker that neither failed nor asks for another
  -- cycle at once has read the clock when nothing that is not locked could be claimed from the
  -- outbox it left.
  pub outbox_cycle-Drained :
      (db : Database)
      → (outbox_cycle repository config alive moments db).outcome ≡ idle
      → Drained moments ((outbox_cycle repository config alive moments db).db)
  unfolding outbox_cycle
  outbox_cycle-Drained db h = outbox_from-Drained config.max_outbox_items 0 db h
