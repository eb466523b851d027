-- ===== src/Examples/Witnesses.antt =====
-- The theorems at concrete inputs.
use good_queue.Base.{ℕ, ◌+◌, ◌*◌, ◌≤◌, ◌<◌, ◌≡◌, refl, false, Option, [], ◌∷◌, arith, pos, length}
use good_queue.Domain.{QueueAttempt, Error, ok, err, wrapped, Sentinel}
use good_queue.Store.Rows.{find_row}
use good_queue.Store.Tables.{Database}
use good_queue.Queue.Invariant.{has_deadline, held}
use good_queue.Queue.Invariant.Ready.{Ready}
use good_queue.Queue.Invariant.Loading.{Consistent, begun-Ready}
use good_queue.Queue.Reconcile.{Reconciled, reconcile_locked_product_bounded}
use good_queue.Queue.Reconcile.Succeeds.{Reconciles, reconcile-Reconciles}
use good_queue.Queue.Reconcile.Quiet.{reconcile-quiet}
use good_queue.Queue.Background.{reconcile_next_product}
use good_queue.Queue.Background.Sound.{Settles, reconcile_next_product-Settles}
use good_queue.Queue.Lookup.{reserves_stock}
use good_queue.Domain.{state_eq}
use good_queue.Queue.Checkout.{start_checkout, find_attempt_product}
use good_queue.Queue.Checkout.Sound.{start_checkout-Consistent}
use good_queue.Queue.Cancel.{cancel}
use good_queue.Queue.Cancel.Sound.{cancel-Consistent}
use good_queue.Queue.Lookup.{find_first}
use good_queue.Queue.Stock.{
  adjust_stock_operation, adjust_new, persist_rejected_adjustment, insert_adjustment,
  find_stock_adjustment,
}
use good_queue.Queue.Stock.Replay.{adjust_stock-replays}
use good_queue.Base.{◌+ℤ◌, some, true}
use good_queue.Domain.Capacity.{waiting_capacity}
use good_queue.Domain.Capacity.Bounds.{waiting_capacity-ceiling, waiting_capacity-overflow}
use good_queue.Domain.Framing.{frame_fields, frame_field, put_uint32}
use good_queue.Domain.Framing.Injective.{frame_fields-injective}
use good_queue.Examples.Fixture.{
  repository, busy_database, busy_product, whole_product, busy_state, two_fields, too_much,
  rejected_result, rejected_state,
}

pub busy_database-Consistent : Consistent busy_database
unfolding find_row has_deadline held reserves_stock state_eq
busy_database-Consistent = record {
  valid = record {
    keyed = (refl, (refl, (refl, (refl, tt))));
    timed = (refl, (refl, (refl, (refl, tt))));
    known = tt;
  };
  distinct = (refl, tt);
  balanced = ((refl, omega arith), tt);
}

busy_state-Ready : Ready busy_database.attempts busy_state
unfolding find_row
busy_state-Ready =
    begun-Ready busy_database busy_product 50 whole_product busy_database-Consistent refl

reconcile-Reconciles_example : Reconciles repository 3 busy_database.attempts busy_state
reconcile-Reconciles_example =
    reconcile-Reconciles repository 3 busy_database.attempts busy_state busy_state-Ready

reconcile-quiet_example :
    (r : Reconciled) × (reconcile_locked_product_bounded repository
        (length busy_state.attempts * 2 + 1)
        busy_state
      ≡ ok r)
    × (r.more_work ≡ false)
reconcile-quiet_example =
    reconcile-quiet repository busy_database.attempts busy_state busy_state-Ready (omega arith)

reconcile_next_product-Settles_example :
    Settles 3 (reconcile_next_product repository 50 50 (λ id. false) (pos 3) [] busy_database)
reconcile_next_product-Settles_example =
    reconcile_next_product-Settles repository 50 50 2 (λ id. false) [] busy_database
      busy_database-Consistent

start_checkout-Consistent_example :
    (value : Option QueueAttempt × Option Error) × (db' : Database) × (start_checkout repository 50
        (record { attempt_id = 2; external_user_id = 2 ∷ [] })
        busy_database
      ≡ (ok value, db'))
    × Consistent db'
unfolding find_attempt_product find_row
start_checkout-Consistent_example =
    start_checkout-Consistent repository 50 (record { attempt_id = 2; external_user_id = 2 ∷ [] })
      busy_database busy_product busy_database-Consistent refl refl

waiting_capacity-ceiling_example :
    (capacity : ℕ) × (waiting_capacity (pos 7) (pos 50) ≡ ok capacity)
    × (7 * 50 ≤ capacity * 100)
    × (capacity * 100 < 7 * 50 + 100)
waiting_capacity-ceiling_example = waiting_capacity-ceiling 7 50 (omega arith)

waiting_capacity-overflow_example :
    waiting_capacity (pos 2) (pos 4611686018427387904) ≡ err (wrapped Sentinel.invalid_input)
waiting_capacity-overflow_example = waiting_capacity-overflow 2 4611686018427387904 (omega arith)

frame_fields-injective_example : two_fields ≡ two_fields
unfolding frame_fields frame_field put_uint32
frame_fields-injective_example =
    frame_fields-injective two_fields two_fields (0 ∷ 0 ∷ 0 ∷ 1 ∷ 7 ∷ 0 ∷ 0 ∷ 0 ∷ 0 ∷ []) refl refl

cancel-Consistent_example :
    (value : Option QueueAttempt × Option Error) × (db' : Database) × (cancel repository 50
        (record { product_id = 7; external_user_id = 2 ∷ [] })
        busy_database
      ≡ (ok value, db'))
    × Consistent db'
unfolding find_row
cancel-Consistent_example =
    cancel-Consistent repository 50 (record { product_id = 7; external_user_id = 2 ∷ [] })
      busy_database busy_product busy_database-Consistent refl refl

rejected_run :
    adjust_stock_operation repository too_much 9 busy_state
    ≡ ok ((rejected_result, some (wrapped Sentinel.stock_below_zero)), rejected_state)
unfolding adjust_stock_operation adjust_new persist_rejected_adjustment insert_adjustment
    find_stock_adjustment find_first ◌+ℤ◌
rejected_run = refl

adjust_stock-replays_example :
    adjust_stock_operation repository too_much 9 rejected_state
    ≡ ok (
      (record rejected_result { replayed = true }, some (wrapped Sentinel.stock_below_zero)),
      rejected_state,
    )
unfolding find_stock_adjustment find_first
adjust_stock-replays_example =
    adjust_stock-replays repository busy_state rejected_state rejected_state too_much 9
      rejected_result (some (wrapped Sentinel.stock_below_zero)) refl rejected_run refl
