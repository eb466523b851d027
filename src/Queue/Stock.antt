-- ===== src/Queue/Stock.antt =====
-- AdjustStock, findStockAdjustment and persistRejectedAdjustment
-- (internal/repository/postgres/queue_attempt.go), CanonicalStockAdjustmentHash
-- (internal/pkg/domain/queue_attempt.go).
pub mod Replay
pub mod Sound
use good_queue.Base.{
  ℕ, ◌+◌, Bool, true, false, ◌&&◌, not, Option, none, some, [], ◌∷◌, ◌==◌, if◌then◌else◌, bytes_eq,
  codes, count_where, ℤ, pos, ◌+ℤ◌, ltb_ℤ, eq_ℤ, pos_part,
}
use good_queue.Domain.{
  ProductId, IdempotencyKey, Sentinel, Error, wrapped, Result, ok, err, ◌>>=◌, ◌>>◌, guard,
  StockAdjustmentCommand,
}
use good_queue.Domain.Capacity.{max_int32}
use good_queue.Domain.Framing.{frame_fields}
use good_queue.Store.Tables.{Database, AdjustmentRow, AdjustmentBody, applied_body, rejected_body}
use good_queue.Queue.Repository.{Repository, TransactionState}
use good_queue.Queue.Lookup.{find_first}
use good_queue.Queue.Transaction.{with_locked_product}
use good_queue.Queue.Transitions.{update_product}
use good_queue.Queue.Reconcile.{reconcile_locked_product}

pub record StockAdjustmentResult : Type 0 where
  pub adjustment_id : ℕ
  pub stock_before : ℕ
  pub stock_after : ℕ
  pub http_status : ℕ
  pub response_body : Option AdjustmentBody
  pub replayed : Bool

-- CanonicalStockAdjustmentHash
unfoldable pub canonical_stock_adjustment_hash : Repository → StockAdjustmentCommand → Result ℕ
unfolding frame_fields
canonical_stock_adjustment_hash repository command = do
  framed ← frame_fields (
      codes "v1"
      ∷ repository.to_lower (repository.uuid_string command.product_id)
      ∷ repository.format_int command.delta
      ∷ repository.trim_space command.reason
      ∷ repository.trim_space command.external_reference
      ∷ [])
  ok (repository.sha256 framed)

-- SELECT … FROM inventory_adjustments WHERE product_id=$1 AND adjustment_key=$2
unfoldable pub find_stock_adjustment : Database → ProductId → IdempotencyKey → Option AdjustmentRow
unfolding find_first
find_stock_adjustment db product key =
    find_first (λ row. row.product_id == product && bytes_eq row.adjustment_key key) db.adjustments

abbrev pub or_zero : Option ℕ → ℕ
or_zero none = 0
or_zero (some n) = n

-- `COALESCE(stock_before,0)` and its like.
abbrev pub stored_result : AdjustmentRow → Bool → StockAdjustmentResult
stored_result row replayed = record {
  adjustment_id = row.id;
  stock_before = or_zero row.stock_before;
  stock_after = or_zero row.stock_after;
  http_status = row.response_status;
  response_body = some row.response_body;
  replayed = replayed;
}

-- The stored body is searched for the text of each error; no text is part of another.
unfoldable pub rejected_adjustment_error : AdjustmentBody → Error
rejected_adjustment_error (rejected_body Sentinel.stock_below_zero) =
    wrapped Sentinel.stock_below_zero
rejected_adjustment_error (rejected_body Sentinel.stock_below_reserved) =
    wrapped Sentinel.stock_below_reserved
rejected_adjustment_error (rejected_body Sentinel.stock_overflow) = wrapped Sentinel.stock_overflow
rejected_adjustment_error _ = wrapped Sentinel.conflict

-- INSERT INTO inventory_adjustments under inventory_adjustments_product_key_unique.
unfoldable pub insert_adjustment : AdjustmentRow → Database → Result Database
insert_adjustment row db = do
  guard
      (count_where
          (λ other.
            other.product_id == row.product_id && bytes_eq other.adjustment_key row.adjustment_key)
          db.adjustments
        == 0)
      (wrapped Sentinel.adjustment_conflict)
  ok (record db { adjustments = row ∷ db.adjustments; issued = db.issued + 1 })

abbrev pub StockReply : Type 0
StockReply = (StockAdjustmentResult × Option Error) × TransactionState

-- persistRejectedAdjustment. A failed INSERT aborts the transaction, so its commit fails.
unfoldable pub persist_rejected_adjustment :
    Repository → TransactionState → StockAdjustmentCommand → ℕ → Sentinel → Result StockReply
persist_rejected_adjustment repository state command digest rejection = do
  let row : AdjustmentRow = record {
    id = repository.uuid_new state.tx.issued;
    product_id = command.product_id;
    adjustment_key = command.idempotency_key;
    delta = command.delta;
    payload_hash = digest;
    applied = false;
    stock_before = none;
    stock_after = none;
    response_status = 409;
    response_body = rejected_body rejection;
    completed_at = state.now;
  }
  tx' ← insert_adjustment row state.tx
  ok ((stored_result row false, some (wrapped rejection)), record state { tx = tx' })

-- The UPDATE of the stock.
unfoldable pub update_stock :
    TransactionState → StockAdjustmentCommand → ℕ → Result TransactionState
update_stock state command stock_after = do
  tx' ←
      update_product
        (λ row.
          row.id == command.product_id
          && (row.allocatable_stock == state.product.allocatable_stock
              && row.reserved == state.product.reserved))
        (λ row. record row { allocatable_stock = stock_after; updated_at = state.now })
        (wrapped Sentinel.conflict) state.tx
  ok (record state {
    tx = tx';
    product = record (state.product) { allocatable_stock = stock_after };
  })

-- The row of an applied adjustment, and its INSERT.
abbrev pub applied_row :
    Repository → TransactionState → StockAdjustmentCommand → ℕ → ℕ → ℕ → AdjustmentRow
applied_row repository state command digest stock_before stock_after = record {
  id = repository.uuid_new state.tx.issued;
  product_id = command.product_id;
  adjustment_key = command.idempotency_key;
  delta = command.delta;
  payload_hash = digest;
  applied = true;
  stock_before = some stock_before;
  stock_after = some stock_after;
  response_status = 200;
  response_body = applied_body stock_before stock_after;
  completed_at = state.now;
}

unfoldable pub record_adjustment :
    Repository → StockAdjustmentCommand → ℕ → ℕ → ℕ → TransactionState → Result StockReply
record_adjustment repository command digest stock_before stock_after state = do
  let row = applied_row repository state command digest stock_before stock_after
  tx' ← insert_adjustment row state.tx
  ok ((stored_result row false, none), record state { tx = tx' })

-- The adjustment itself, once its result is known to be in range.
unfoldable pub apply_adjustment :
    Repository → TransactionState → StockAdjustmentCommand → ℕ → ℕ → Result StockReply
apply_adjustment repository state command digest stock_after =
    update_stock state command stock_after
    >>= reconcile_locked_product repository
    >>= record_adjustment repository command digest state.product.allocatable_stock stock_after

-- The three range checks, in int64, and what follows each.
unfoldable pub adjust_new :
    Repository → TransactionState → StockAdjustmentCommand → ℕ → ℤ → Result StockReply
adjust_new repository state command digest stock_after =
    if ltb_ℤ stock_after (pos 0)
    then persist_rejected_adjustment repository state command digest Sentinel.stock_below_zero
    else if ltb_ℤ (pos max_int32) stock_after
    then persist_rejected_adjustment repository state command digest Sentinel.stock_overflow
    else if ltb_ℤ stock_after (pos state.product.reserved)
    then persist_rejected_adjustment repository state command digest Sentinel.stock_below_reserved
    else apply_adjustment repository state command digest (pos_part stock_after)

abbrev pub replay_adjustment : TransactionState → ℕ → AdjustmentRow → Result StockReply
replay_adjustment state digest row =
    if not (row.payload_hash == digest)
    then ok (
      (
        record {
          adjustment_id = 0;
          stock_before = 0;
          stock_after = 0;
          http_status = 0;
          response_body = none;
          replayed = false;
        },
        some (wrapped Sentinel.adjustment_conflict),
      ),
      state,
    )
    else ok (
      (
        stored_result row true,
        (if row.applied then none else some (rejected_adjustment_error row.response_body)),
      ),
      state,
    )

unfoldable pub adjust_stock_operation :
    Repository → StockAdjustmentCommand → ℕ → TransactionState → Result StockReply
adjust_stock_operation repository command digest state =
    elim (find_stock_adjustment state.tx command.product_id command.idempotency_key) [
      | some row ↦ replay_adjustment state digest row
      | none ↦
          adjust_new repository state command digest
            (pos state.product.allocatable_stock +ℤ command.delta)
    ]

unfoldable pub adjust_stock :
    Repository
    → ℕ
    → StockAdjustmentCommand
    → Database
    → Result (StockAdjustmentResult × Option Error) × Database
adjust_stock repository now command db =
    if eq_ℤ command.delta (pos 0)
    then (err (wrapped Sentinel.invalid_input), db)
    else elim (canonical_stock_adjustment_hash repository command) [
      | err e ↦ (err e, db)
      | ok digest ↦
          with_locked_product now command.product_id
            (record {
              external_user_id = [];
              idempotency_key = [];
              attempt_id = 0;
              include_latest_for_user = false;
            })
            (adjust_stock_operation repository command digest) db
    ]
