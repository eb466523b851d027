-- ===== src/Queue/Stock/Sound.antt =====
-- AdjustStock (internal/repository/postgres/queue_attempt.go) on a consistent database.
use good_queue.Base.{
  ℕ, ◌≤◌, ◌≡◌, refl, subst, ◌&&◌, true, false, List, [], ◌∷◌, ◌+◌, ◌==◌, arith, Bool-cases,
  Option-cases, inl, inr, ℤ, pos, negsuc, ltb_ℤ, eq_ℤ, count_where, bytes_eq,
}
use good_queue.Domain.{QueueAttempt, ok, wrapped, Sentinel, StockAdjustmentCommand, Result-cases}
use good_queue.Domain.Capacity.{max_int32}
use good_queue.Store.Rows.{update_rows}
use good_queue.Store.Tables.{Database, ProductRow, AdjustmentRow}
use good_queue.Queue.Repository.{Repository, TransactionState}
use good_queue.Queue.Stock.{
  update_stock, insert_adjustment, persist_rejected_adjustment, record_adjustment, applied_row,
  apply_adjustment, adjust_new, replay_adjustment, adjust_stock_operation, adjust_stock,
  find_stock_adjustment, canonical_stock_adjustment_hash,
}
use good_queue.Queue.Keeps.{
  Holds, bind-Holds, guard-Holds, Leaves, Keeps, with_locked_product-Consistent,
  locked-LockedReconciles,
}
use good_queue.Queue.Invariant.Ready.{Ready, update_product-Stored}
use good_queue.Queue.Invariant.Loading.{Consistent, Ready-Consistent}

-- The stock of a ready transaction is set to a value that covers the reservations.
update_stock-Ready :
    (base : List QueueAttempt) (state : TransactionState) (command : StockAdjustmentCommand)
    → (stock_after : ℕ) → Ready base state
    → state.product.id ≡ command.product_id
    → state.product.reserved ≤ stock_after
    → (state' : TransactionState) × (update_stock state command stock_after ≡ ok state')
      × Ready base state'
unfolding update_stock
update_stock-Ready base state command stock_after v same le =
    let hit = λ (row : ProductRow).
      row.id == command.product_id
      && (row.allocatable_stock == state.product.allocatable_stock
          && row.reserved == state.product.reserved) in
    let set = λ (row : ProductRow). record row {
      allocatable_stock = stock_after;
      updated_at = state.now;
    } in
    let u =
      update_product-Stored base state.product.id state.product.allocatable_stock
        state.product.reserved state.product.next_queue_sequence stock_after state.product.reserved
        state.product.next_queue_sequence hit set (λ r p. ground arith) (λ r. refl)
        (λ r i st rs sq. (ground arith, refl, rs, sq)) (wrapped Sentinel.conflict) state.tx
        v.stored in
    (
      record state {
        tx = record (state.tx) { products = update_rows hit set state.tx.products };
        product = record (state.product) { allocatable_stock = stock_after };
      },
      rw u.0 refl,
      record {
        inside = record {
          valid = record {
            keyed = v.inside.valid.keyed;
            timed = v.inside.valid.timed;
            known = v.inside.valid.known;
          };
          mirrored = v.inside.mirrored;
          distinct = v.inside.distinct;
          owned = v.inside.owned;
          counted = v.inside.counted;
          covered = v.inside.covered;
          others = v.inside.others;
          products = refl;
        };
        bounded = le;
        stored = u.1;
      },
    )

-- Every column that the invariant reads is as it was.
insert_adjustment-Consistent :
    (row : AdjustmentRow) (db : Database)
    → Consistent db
    → Holds Consistent (insert_adjustment row db)
unfolding insert_adjustment
insert_adjustment-Consistent row db c =
    guard-Holds Consistent
      (count_where
          (λ other.
            other.product_id == row.product_id && bytes_eq other.adjustment_key row.adjustment_key)
          db.adjustments
        == 0)
      (wrapped Sentinel.adjustment_conflict)
      (ok (record db { adjustments = row ∷ db.adjustments; issued = db.issued + 1 }))
      (λ e. record {
        valid = record { keyed = c.valid.keyed; timed = c.valid.timed; known = c.valid.known };
        distinct = c.distinct;
        balanced = c.balanced;
      })

rejected-Keeps :
    (repository : Repository) (state : TransactionState) (command : StockAdjustmentCommand)
    → (digest : ℕ) (rejection : Sentinel) → Consistent state.tx
    → Keeps (persist_rejected_adjustment repository state command digest rejection)
unfolding persist_rejected_adjustment
rejected-Keeps repository state command digest rejection c =
    bind-Holds Leaves (insert_adjustment _ state.tx) _
      (λ tx h. subst (Holds Consistent) h (insert_adjustment-Consistent _ state.tx c))

recorded-Keeps :
    (repository : Repository) (command : StockAdjustmentCommand) (digest before after : ℕ)
    → (state : TransactionState) → Consistent state.tx
    → Keeps (record_adjustment repository command digest before after state)
unfolding record_adjustment
recorded-Keeps repository command digest before after state c =
    bind-Holds Leaves
      (insert_adjustment (applied_row repository state command digest before after) state.tx) _
      (λ tx h. subst (Holds Consistent) h (insert_adjustment-Consistent _ state.tx c))

module _ (repository : Repository) (base : List QueueAttempt) (command : StockAdjustmentCommand)
    (digest : ℕ) where
  apply_adjustment-Keeps :
      (state : TransactionState) (stock_after : ℕ)
      → Ready base state
      → state.product.id ≡ command.product_id
      → state.product.reserved ≤ stock_after
      → Keeps (apply_adjustment repository state command digest stock_after)
  unfolding apply_adjustment
  apply_adjustment-Keeps state stock_after v same le =
      let u = update_stock-Ready base state command stock_after v same le in
      let r = locked-LockedReconciles repository base u.0 u.2 in
      rw u.1 (
        rw r.returns (
          recorded-Keeps repository command digest state.product.allocatable_stock stock_after
            r.result (Ready-Consistent base r.result r.ready)))

  adjust_new-Keeps :
      (state : TransactionState) (stock_after : ℤ)
      → Ready base state
      → state.product.id ≡ command.product_id
      → Keeps (adjust_new repository state command digest stock_after)
  unfolding adjust_new
  adjust_new-Keeps state (negsuc n) v same =
      let below : ltb_ℤ (negsuc n) (pos 0) ≡ true = ground arith in
      rw below (
        rejected-Keeps repository state command digest Sentinel.stock_below_zero
          (Ready-Consistent base state v))
  adjust_new-Keeps state (pos n) v same =
      let c = Ready-Consistent base state v in
      let none_below : ltb_ℤ (pos n) (pos 0) ≡ false = ground arith in
      elim (Bool-cases (ltb_ℤ (pos max_int32) (pos n))) [
        | inl e ↦
            rw (none_below, e)
              (rejected-Keeps repository state command digest Sentinel.stock_overflow c)
        | inr e ↦ elim (Bool-cases (ltb_ℤ (pos n) (pos state.product.reserved))) [
          | inl e' ↦
              rw (none_below, e, e')
                (rejected-Keeps repository state command digest Sentinel.stock_below_reserved c)
          | inr e' ↦ rw (none_below, e, e') (apply_adjustment-Keeps state n v same (ground arith))
        ]
      ]

  replay_adjustment-Keeps :
      (state : TransactionState) (row : AdjustmentRow)
      → Consistent state.tx
      → Keeps (replay_adjustment state digest row)
  replay_adjustment-Keeps state row c = elim (Bool-cases (row.payload_hash == digest)) [
    | inl e ↦ rw e c
    | inr e ↦ rw e c
  ]

  adjust_stock_operation-Keeps :
      (state : TransactionState)
      → Ready base state
      → state.product.id ≡ command.product_id
      → Keeps (adjust_stock_operation repository command digest state)
  unfolding adjust_stock_operation
  adjust_stock_operation-Keeps state v same =
      elim (Option-cases
        (find_stock_adjustment state.tx command.product_id command.idempotency_key)) [
          | inr (row, e) ↦
              rw (e, adjust_stock_operation)
                (replay_adjustment-Keeps state row (Ready-Consistent base state v))
          | inl e ↦ rw (e, adjust_stock_operation) (adjust_new-Keeps state _ v same)
        ]

-- AdjustStock leaves a consistent database consistent, applied, rejected, replayed or refused: the
-- stock never falls below what is reserved, for every product and every delta.
pub adjust_stock-Consistent :
    (repository : Repository) (now : ℕ) (command : StockAdjustmentCommand) (db : Database)
    → Consistent db
    → Consistent ((adjust_stock repository now command db).1)
unfolding adjust_stock
adjust_stock-Consistent repository now command db c =
    elim (Bool-cases (eq_ℤ command.delta (pos 0))) [
      | inl e ↦ rw e c
      | inr e ↦ elim (Result-cases (canonical_stock_adjustment_hash repository command)) [
        | inr (error, e') ↦ rw (e, e', adjust_stock) c
        | inl (digest, e') ↦
            rw (e, e', adjust_stock)
              (with_locked_product-Consistent now command.product_id
                (record {
                  external_user_id = [];
                  idempotency_key = [];
                  attempt_id = 0;
                  include_latest_for_user = false;
                })
                (adjust_stock_operation repository command digest) db c
                (λ state v same.
                  adjust_stock_operation-Keeps repository db.attempts command digest state v same))
      ]
    ]
