-- ===== src/Queue/Stock/Replay.antt =====
-- The repetition of an AdjustStock (internal/repository/postgres/queue_attempt.go).
use good_queue.Base.{
  ℕ, ◌+◌, ◌≡◌, refl, sym, ap, subst, ◌∙◌, true, false, ◌&&◌, Option, none, some, ◌∷◌, ◌==◌, ==_refl,
  if◌then◌else◌, arith, bytes_eq, bytes_eq_iff, Bool-cases, inl, inr, count_where, ltb_ℤ, pos, ◌+ℤ◌,
  pos_part, ℤ, Bytes,
}
use good_queue.Domain.{
  Error, wrapped, Sentinel, Result, ok, ◌>>=◌, bind-ok, StockAdjustmentCommand, ProductId,
}
use good_queue.Domain.Capacity.{max_int32}
use good_queue.Store.Tables.{Database, AdjustmentRow, rejected_body}
use good_queue.Queue.Repository.{Repository, TransactionState}
use good_queue.Queue.Lookup.{find_first}
use good_queue.Queue.Reconcile.{reconcile_locked_product}
use good_queue.Queue.Stock.{
  StockAdjustmentResult, StockReply, find_stock_adjustment, stored_result,
  rejected_adjustment_error, insert_adjustment, update_stock, applied_row, record_adjustment,
  persist_rejected_adjustment, apply_adjustment, adjust_new, adjust_stock_operation,
}

-- The answer that a repetition gets from a row.
abbrev replay_error : AdjustmentRow → Option Error
replay_error row = if row.applied then none else some (rejected_adjustment_error row.response_body)

-- The transaction has a row for the command that stands for this reply.
pub record Recorded (digest : ℕ) (product : ProductId) (key : Bytes)
    (result : StockAdjustmentResult) (outcome : Option Error) (tx : Database) : Type 0 where
  pub row : AdjustmentRow
  pub found : find_stock_adjustment tx product key ≡ some row
  pub hash : row.payload_hash ≡ digest
  pub answers : stored_result row false ≡ result
  pub fails : replay_error row ≡ outcome

inserted :
    (row : AdjustmentRow) (db db' : Database)
    → insert_adjustment row db ≡ ok db'
    → find_stock_adjustment db' row.product_id row.adjustment_key ≡ some row
unfolding insert_adjustment find_stock_adjustment find_first
inserted row db db' h =
    let same = (bytes_eq_iff row.adjustment_key row.adjustment_key).1 refl in
    elim (Bool-cases (
      count_where
        (λ other.
          other.product_id == row.product_id && bytes_eq other.adjustment_key row.adjustment_key)
        db.adjustments
      == 0)) [
        | inr n ↦ let h' = rw n at h in ground arith
        | inl y ↦
            let h' = rw y at h in
            let e : record db { adjustments = row ∷ db.adjustments; issued = db.issued + 1 } ≡ db' =
              cc in
            rw (← e) (rw (==_refl row.product_id, same) refl)
      ]

-- An adjustment row whose INSERT was the last step of a reply.
Recorded-inserted :
    (row : AdjustmentRow) (db : Database) (answer : StockAdjustmentResult × Option Error)
    → (result : StockAdjustmentResult) (outcome : Option Error) (state state' : TransactionState)
    → stored_result row false ≡ answer.0
    → replay_error row ≡ answer.1
    → ◌>>=◌ {B = StockReply}
        (insert_adjustment row db)
        (λ tx. ok (answer, record state { tx = tx }))
      ≡ ok ((result, outcome), state')
    → Recorded row.payload_hash row.product_id row.adjustment_key result outcome state'.tx
Recorded-inserted row db answer result outcome state state' a b h =
    let i = bind-ok (insert_adjustment row db) _ ((result, outcome), state') h in
    let same_state : record state { tx = i.0 } ≡ state' = ground (arith, i.2) in
    let same_result : answer.0 ≡ result = ground (arith, i.2) in
    let same_outcome : answer.1 ≡ outcome = ground (arith, i.2) in
    record {
      row = row;
      found =
          subst (λ s. find_stock_adjustment s.tx row.product_id row.adjustment_key ≡ some row)
            same_state (inserted row db i.0 i.1);
      hash = refl;
      answers = a ∙ same_result;
      fails = b ∙ same_outcome;
    }

persist-Recorded :
    (repository : Repository) (state state' : TransactionState) (command : StockAdjustmentCommand)
    → (digest : ℕ) (rejection : Sentinel) (result : StockAdjustmentResult) (outcome : Option Error)
    → rejected_adjustment_error (rejected_body rejection) ≡ wrapped rejection
    → persist_rejected_adjustment repository state command digest rejection
      ≡ ok ((result, outcome), state')
    → Recorded digest command.product_id command.idempotency_key result outcome state'.tx
unfolding persist_rejected_adjustment
persist-Recorded repository state state' command digest rejection result outcome e h =
    Recorded-inserted _ state.tx _ result outcome state state' refl (ap some e) h

apply-Recorded :
    (repository : Repository) (state state' : TransactionState) (command : StockAdjustmentCommand)
    → (digest stock_after : ℕ) (result : StockAdjustmentResult) (outcome : Option Error)
    → apply_adjustment repository state command digest stock_after ≡ ok ((result, outcome), state')
    → Recorded digest command.product_id command.idempotency_key result outcome state'.tx
unfolding apply_adjustment record_adjustment
apply-Recorded repository state state' command digest stock_after result outcome h =
    let before = state.product.allocatable_stock in
    let done =
      bind-ok (update_stock state command stock_after >>= reconcile_locked_product repository)
        (record_adjustment repository command digest before stock_after) ((result, outcome), state')
        h in
    Recorded-inserted (applied_row repository done.0 command digest before stock_after) done.0.tx
      (stored_result (applied_row repository done.0 command digest before stock_after) false, none)
      result outcome done.0 state' refl refl done.2

-- Every new adjustment that is answered at all is recorded.
new-Recorded :
    (repository : Repository) (state state' : TransactionState) (command : StockAdjustmentCommand)
    → (digest : ℕ) (stock_after : ℤ) (result : StockAdjustmentResult) (outcome : Option Error)
    → adjust_new repository state command digest stock_after ≡ ok ((result, outcome), state')
    → Recorded digest command.product_id command.idempotency_key result outcome state'.tx
unfolding adjust_new rejected_adjustment_error
new-Recorded repository state state' command digest stock_after result outcome h =
    elim (Bool-cases (ltb_ℤ stock_after (pos 0))) [
      | inl e ↦
          persist-Recorded repository state state' command digest Sentinel.stock_below_zero result
            outcome refl (rw e at h)
      | inr e ↦ elim (Bool-cases (ltb_ℤ (pos max_int32) stock_after)) [
        | inl e' ↦
            persist-Recorded repository state state' command digest Sentinel.stock_overflow result
              outcome refl (rw (e, e') at h)
        | inr e' ↦ elim (Bool-cases (ltb_ℤ stock_after (pos state.product.reserved))) [
          | inl e'' ↦
              persist-Recorded repository state state' command digest Sentinel.stock_below_reserved
                result outcome refl (rw (e, e', e'') at h)
          | inr e'' ↦
              apply-Recorded repository state state' command digest (pos_part stock_after) result
                outcome (rw (e, e', e'') at h)
        ]
      ]
    ]

operation_fresh :
    (repository : Repository) (state : TransactionState) (command : StockAdjustmentCommand)
    → (digest : ℕ) (reply : Result StockReply)
    → find_stock_adjustment state.tx command.product_id command.idempotency_key ≡ none
    → adjust_stock_operation repository command digest state ≡ reply
    → adjust_new repository state command digest
        (pos state.product.allocatable_stock +ℤ command.delta)
      ≡ reply
unfolding adjust_stock_operation
operation_fresh repository state command digest reply fresh h =
    rw (fresh, adjust_stock_operation) at h

Recorded-replays :
    (repository : Repository) (later : TransactionState) (command : StockAdjustmentCommand)
    → (digest : ℕ) (result : StockAdjustmentResult) (outcome : Option Error)
    → Recorded digest command.product_id command.idempotency_key result outcome later.tx
    → adjust_stock_operation repository command digest later
      ≡ ok ((record result { replayed = true }, outcome), later)
unfolding adjust_stock_operation
Recorded-replays repository later command digest result outcome r =
    let same : (r.row.payload_hash == digest) ≡ true = ground (arith, r.hash) in
    rw (r.found, adjust_stock_operation)
      (rw same (
        ap (λ x. ok ((record x { replayed = true }, replay_error r.row), later)) r.answers
        ∙ ap (λ o. ok ((record result { replayed = true }, o), later)) r.fails))

-- A stock adjustment that finds no earlier one under its key is answered, applied or rejected. A
-- later transaction that starts from the database it left answers the same command with the same
-- result, marked as a replay, and the same error, and changes nothing.
pub adjust_stock-replays :
    (repository : Repository) (state state' later : TransactionState)
    → (command : StockAdjustmentCommand) (digest : ℕ) (result : StockAdjustmentResult)
    → (outcome : Option Error)
    → find_stock_adjustment state.tx command.product_id command.idempotency_key ≡ none
    → adjust_stock_operation repository command digest state ≡ ok ((result, outcome), state')
    → later.tx ≡ state'.tx
    → adjust_stock_operation repository command digest later
      ≡ ok ((record result { replayed = true }, outcome), later)
adjust_stock-replays repository state state' later command digest result outcome fresh h seen =
    let r =
      new-Recorded repository state state' command digest
        (pos state.product.allocatable_stock +ℤ command.delta) result outcome
        (operation_fresh repository state command digest _ fresh h) in
    Recorded-replays repository later command digest result outcome (
      subst (Recorded digest command.product_id command.idempotency_key result outcome) (sym seen)
        r)
