-- ===== src/Domain/Parsing/Valid.antt =====
-- What the parsers of internal/pkg/domain let through.
use good_queue.Base.{
  ◌≤◌, ◌<◌, ◌≡◌, ◌≢◌, subst, false, ◌||◌, [], ◌∷◌, arith, ltb, Bytes, length, is_empty, ℤ, pos,
  negsuc, ◌≤ℤ◌, Bool-cases, inl, inr,
}
use good_queue.Domain.Errors.{ok}
use good_queue.Domain.Attempt.{ProductId, IdempotencyKey, StockAdjustmentCommand}
use good_queue.Domain.Payment.{Text}
use good_queue.Domain.Parsing.{
  delta_out_of_range, parse_stock_adjustment_command, max_stock_adjustment_reason_length,
  max_stock_adjustment_external_reference_length,
}

-- The bounds of a stock adjustment: an int32 that is not zero, and texts of 1 to 200 bytes.
pub record InBounds (command : StockAdjustmentCommand) : Type 0 where
  pub not_zero : command.delta ≢ pos 0
  pub at_least : negsuc 2147483647 ≤ℤ command.delta
  pub at_most : command.delta ≤ℤ pos 2147483647
  pub has_reason : 0 < length command.reason
  pub short_reason : length command.reason ≤ 200
  pub has_reference : 0 < length command.external_reference
  pub short_reference : length command.external_reference ≤ 200

delta-InRange :
    (delta : ℤ)
    → delta_out_of_range delta ≡ false
    → (delta ≢ pos 0) × (negsuc 2147483647 ≤ℤ delta) × (delta ≤ℤ pos 2147483647)
unfolding delta_out_of_range
delta-InRange (pos n) h = ((λ e. ground arith), ground arith, ground arith)
delta-InRange (negsuc n) h = ((λ e. ground arith), ground arith, ground arith)

filled : (field : Bytes) → is_empty field ≡ false → 0 < length field
filled [] h = ground arith
filled (c ∷ rest) h = omega arith

-- A stock adjustment that ParseStockAdjustmentCommand lets through has a non-zero int32 as its delta,
-- and a reason and a reference of 1 to 200 bytes.
pub parse_stock_adjustment_command-InBounds :
    (text : Text) (product_id : ProductId) (key : IdempotencyKey) (delta : ℤ)
    → (reason external_reference : Bytes) (command : StockAdjustmentCommand)
    → parse_stock_adjustment_command text product_id key delta reason external_reference
      ≡ ok command
    → InBounds command
unfolding parse_stock_adjustment_command
parse_stock_adjustment_command-InBounds text product_id key delta reason reference command h =
    let r = text.trim_space reason in
    let x = text.trim_space reference in
    elim (Bool-cases (delta_out_of_range delta)) [
      | inl bad ↦ let h' = rw bad at h in ground arith
      | inr range ↦
          let d = delta-InRange delta range in
          elim (Bool-cases (is_empty r || ltb max_stock_adjustment_reason_length (length r))) [
            | inl bad ↦ let h' = rw (range, bad) at h in ground arith
            | inr good ↦
                elim (Bool-cases
                  (is_empty x || ltb max_stock_adjustment_external_reference_length (length x))) [
                    | inl bad ↦ let h' = rw (range, good, bad) at h in ground arith
                    | inr fine ↦
                        let h' = rw (range, good, fine) at h in
                        subst InBounds (ok-injective h') (record {
                          not_zero = d.0;
                          at_least = d.1;
                          at_most = d.2;
                          has_reason = filled r (ground arith);
                          short_reason = ground arith;
                          has_reference = filled x (ground arith);
                          short_reference = ground arith;
                        })
                  ]
          ]
    ]
  where
    ok-injective : {a b : StockAdjustmentCommand} → ok a ≡ ok b → a ≡ b
    ok-injective e = cc
