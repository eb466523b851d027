-- ===== src/Examples/Inputs.antt =====
-- What is read from clients, and what is answered, at concrete inputs.
use good_queue.Base.{
  ℕ, ◌≡◌, refl, Option, none, some, not, [], ◌∷◌, ◌==◌, Bytes, bytes_eq, codes, pos,
}
use good_queue.Domain.{Sentinel, wrapped, joined, Error, errors_is, ok, StockAdjustmentCommand}
use good_queue.Domain.Payment.{
  Text, outcome_text, parse_payment_command, parse_attempt_id, parse_outcome, normalize_reference,
  normalize_required_payment_field,
}
use good_queue.Domain.Parsing.{parse_stock_adjustment_command, delta_out_of_range}
use good_queue.Domain.Parsing.Valid.{InBounds, parse_stock_adjustment_command-InBounds}
use good_queue.Domain.Parsing.RoundTrip.{Documented, parse_payment_command-again}
use good_queue.Queue.Background.{any_of}
use good_queue.Http.{map_error}
use good_queue.Http.Internal.{public_sentinels, map_error-internal}
use good_queue.Examples.Fixture.{text, payment}

-- A UUID of one byte.
abbrev first_byte : Bytes → Option ℕ
first_byte [] = none
first_byte (c ∷ rest) = some c

abbrev pub readable : Text
readable = record text { parse_uuid = first_byte }

readable-Documented : Documented readable
readable-Documented = record {
  trims = λ b. refl;
  trimmed_uuid = λ id. refl;
  reads_uuid = λ id. refl;
  trimmed_outcome = λ o. refl;
  lower_outcome = λ o. refl;
}

payment_parsed :
    parse_payment_command readable
      (codes "bank")
      (codes "e1")
      (1 ∷ [])
      (codes "succeeded")
      (codes "r1")
    ≡ ok payment
unfolding parse_payment_command normalize_required_payment_field parse_attempt_id parse_outcome
    normalize_reference outcome_text bytes_eq
payment_parsed = refl

parse_payment_command-again_example :
    parse_payment_command readable payment.provider payment.event_id
      (readable.uuid_string payment.attempt_id)
      (outcome_text payment.outcome)
      payment.payment_reference
    ≡ ok payment
parse_payment_command-again_example =
    parse_payment_command-again readable (codes "bank") (codes "e1") (1 ∷ []) (codes "succeeded")
      (codes "r1") payment readable-Documented payment_parsed

abbrev restock : StockAdjustmentCommand
restock = record {
  product_id = 7;
  idempotency_key = codes "k";
  delta = pos 5;
  reason = codes "delivery";
  external_reference = codes "d1";
}

restock_parsed :
    parse_stock_adjustment_command readable 7 (codes "k") (pos 5) (codes "delivery") (codes "d1")
    ≡ ok restock
unfolding parse_stock_adjustment_command delta_out_of_range
restock_parsed = refl

parse_stock_adjustment_command-InBounds_example : InBounds restock
parse_stock_adjustment_command-InBounds_example =
    parse_stock_adjustment_command-InBounds readable 7 (codes "k") (pos 5) (codes "delivery")
      (codes "d1") restock restock_parsed

-- The error of payment.go that joins a broken invariant with a conflict.
abbrev broken_reservation : Error
broken_reservation = joined (wrapped Sentinel.reserved_invariant) (wrapped Sentinel.conflict)

map_error-internal_example :
    ((map_error broken_reservation).status == 500)
    ≡ not (any_of (errors_is broken_reservation) public_sentinels)
map_error-internal_example = map_error-internal broken_reservation
