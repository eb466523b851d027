-- ===== src/Examples/Workers.antt =====
-- The theorems on the worker at concrete inputs.
use good_queue.Base.{
  ℕ, ◌+◌, ◌≡◌, refl, Bool, true, false, none, some, codes, arith, Bytes, Option, if◌then◌else◌,
  ◌==◌,
}
use good_queue.Domain.{state_eq}
use good_queue.Store.Rows.{update_rows}
use good_queue.Queue.Background.{any_of}
use good_queue.Queue.Invariant.Loading.{Consistent}
use good_queue.Outbox.{exponential_backoff}
use good_queue.Outbox.Claims.{
  claim_notification, claim_candidate, first_candidate, is_claimable, sorts_before,
  classify_invitation, is_obsolete, invites_until, finalize_notification, update_claimed,
  mark_notification_sent, retry_notification, stale_unless_one_row,
}
use good_queue.Worker.{Config}
use good_queue.Worker.Delivery.{
  Moment, earlier_time, publication_deadline, publish_notification, deliver_classified,
  after_classify, finalizing, deliver_notification, after_claim, outbox_from, outbox_cycle,
}
use good_queue.Worker.Delivery.Settled.{Settled, deliver_notification-Settled}
use good_queue.Worker.Delivery.Window.{InWindow, deliver_notification-InWindow}
use good_queue.Worker.Delivery.Drained.{Drained, outbox_cycle-Drained}
use good_queue.Worker.Reconciliation.{Surroundings, reconcile_cycle}
use good_queue.Worker.Reconciliation.Cycles.{Bounded, Succeeds, reconcile_cycle-Bounded}
use good_queue.Worker.Reconciliation.Products.{queue_reconciler, reconcile_cycle-Consistent}
use good_queue.Examples.Fixture.{repository, busy_database}
use good_queue.Examples.Witnesses.{busy_database-Consistent}
use good_queue.Examples.Deliveries.{
  unlocked, two_notifications, claimed-Sound, is_ascii, first_claim, claimed,
}

abbrev config : Config
config = record {
  interval = 1000;
  reconciliation_batch_size = 10;
  max_reconciled_products = 3;
  max_outbox_items = 4;
  outbox_lease_duration = 100;
  outbox_retry_base = 5;
  outbox_retry_max = 50;
  publisher_timeout = 20;
}

-- The publisher accepts the second item and refuses the others.
abbrev moment : ℕ → Moment
moment n = record {
  claim_clock = 20;
  is_locked = unlocked;
  classify_clock = 21;
  classify_error = none;
  deadline_clock = 22;
  window_clock = 23;
  publish = λ deadline claim. if claim.id == 200 then none else some (codes "refused");
  meanwhile = λ db. db;
  finalize_error = none;
  finalize_clock = 30;
  is_text = is_ascii;
}

abbrev alive : ℕ → Bool
alive n = true

abbrev no_error : Option Bytes
no_error = none

deliver_notification-InWindow_example :
    (no_error ≡ none)
    × (classify_invitation 21 first_claim claimed ≡ false)
    × InWindow config (moment 0) first_claim 42
unfolding deliver_notification after_classify deliver_classified publish_notification
    publication_deadline earlier_time classify_invitation is_obsolete any_of invites_until
    finalizing mark_notification_sent finalize_notification update_claimed stale_unless_one_row
    claim_notification claim_candidate first_candidate is_claimable sorts_before update_rows
    state_eq
deliver_notification-InWindow_example =
    deliver_notification-InWindow config (moment 0) first_claim claimed 42 refl

deliver_notification-Settled_example :
    Settled config
      (moment 0)
      first_claim
      claimed
      (deliver_notification config (moment 0) first_claim claimed)
deliver_notification-Settled_example =
    deliver_notification-Settled config (record { positive = omega arith; ordered = omega arith })
      (moment 0) first_claim claimed claimed-Sound.keyed

-- After the two notifications nothing is left.
outbox_cycle-Drained_example :
    Drained moment ((outbox_cycle repository config alive moment two_notifications).db)
unfolding deliver_notification after_classify deliver_classified publish_notification
    publication_deadline earlier_time classify_invitation is_obsolete any_of invites_until
    finalizing mark_notification_sent finalize_notification update_claimed stale_unless_one_row
    claim_notification claim_candidate first_candidate is_claimable sorts_before update_rows
    outbox_cycle outbox_from after_claim retry_notification state_eq exponential_backoff
outbox_cycle-Drained_example =
    outbox_cycle-Drained repository config alive moment (λ n. refl) two_notifications refl

abbrev around : ℕ → Surroundings
around n = record { meanwhile = λ db. db; selected = 50 + n; now = 51 + n; is_locked = λ id. false }

reconcile_cycle-Bounded_example :
    Bounded 3 (reconcile_cycle (queue_reconciler repository around 9) alive 3 busy_database)
reconcile_cycle-Bounded_example =
    reconcile_cycle-Bounded (queue_reconciler repository around 9) alive 3 busy_database

reconcile_cycle-Consistent_example :
    Succeeds Consistent
      (reconcile_cycle (queue_reconciler repository around 9) alive 3 busy_database)
reconcile_cycle-Consistent_example =
    reconcile_cycle-Consistent repository around 9 alive 3 busy_database (λ n d c. c)
      busy_database-Consistent
