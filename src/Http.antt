-- ===== src/Http.antt =====
-- internal/app/http/middleware/error.go, MapError: the status and the public code of an error. The
-- messages are left out.
pub mod Internal
use good_queue.Base.{ℕ, ◌||◌, if◌then◌else◌, Bytes, codes}
use good_queue.Domain.{Sentinel, Error, errors_is}

pub record ErrorResponse : Type 0 where
  pub status : ℕ
  pub code : Bytes

-- publicError
abbrev pub public_error : ℕ → Bytes → ErrorResponse
public_error status code = record { status = status; code = code }

-- The cases of the switch, in order.
unfoldable pub map_error : Error → ErrorResponse
map_error e =
    if errors_is e Sentinel.invalid_identity
    then public_error 401 (codes "invalid_identity")
    else if errors_is e Sentinel.invalid_input
    then public_error 400 (codes "invalid_input")
    else if errors_is e Sentinel.attempt_not_found || errors_is e Sentinel.not_found
    then public_error 404 (codes "not_found")
    else if errors_is e Sentinel.queue_disabled
    then public_error 409 (codes "queue_disabled")
    else if errors_is e Sentinel.queue_full
    then public_error 409 (codes "queue_full")
    else if errors_is e Sentinel.already_purchased
    then public_error 409 (codes "already_purchased")
    else if errors_is e Sentinel.invalid_transition || errors_is e Sentinel.payment_failed
    then public_error 409 (codes "invalid_transition")
    else if errors_is e Sentinel.adjustment_conflict || errors_is e Sentinel.conflict
    then public_error 409 (codes "idempotency_conflict")
    else if errors_is e Sentinel.out_of_stock
    then public_error 410 (codes "sold_out")
    else if errors_is e Sentinel.attempt_gone
        || errors_is e Sentinel.invitation_expired
        || errors_is e Sentinel.checkout_expired
    then public_error 410 (codes "expired")
    else if errors_is e Sentinel.metrics_unavailable
    then public_error 503 (codes "metrics_unavailable")
    else public_error 500 (codes "internal_error")
