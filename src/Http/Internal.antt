-- ===== src/Http/Internal.antt =====
-- Which errors internal/app/http/middleware/error.go hides.
use good_queue.Base.{◌≡◌, not, List, [], ◌∷◌, ◌==◌, arith}
use good_queue.Domain.{Sentinel, Error, errors_is}
use good_queue.Queue.Background.{any_of}
use good_queue.Http.{map_error}

-- The sentinels that a client is told about.
abbrev pub public_sentinels : List Sentinel
public_sentinels =
    Sentinel.invalid_identity ∷ Sentinel.invalid_input ∷ Sentinel.attempt_not_found
    ∷ Sentinel.not_found ∷ Sentinel.queue_disabled ∷ Sentinel.queue_full
    ∷ Sentinel.already_purchased ∷ Sentinel.invalid_transition ∷ Sentinel.payment_failed
    ∷ Sentinel.adjustment_conflict ∷ Sentinel.conflict ∷ Sentinel.out_of_stock
    ∷ Sentinel.attempt_gone ∷ Sentinel.invitation_expired ∷ Sentinel.checkout_expired
    ∷ Sentinel.metrics_unavailable ∷ []

-- An error is answered with 500 exactly when it wraps none of the public sentinels, however many
-- errors are joined in it: one public sentinel anywhere is enough for another status.
pub map_error-internal :
    (e : Error) → ((map_error e).status == 500) ≡ not (any_of (errors_is e) public_sentinels)
unfolding map_error any_of
map_error-internal e = ground arith
