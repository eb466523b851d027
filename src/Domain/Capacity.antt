-- ===== src/Domain/Capacity.antt =====
-- internal/pkg/domain/queue_attempt.go: WaitingCapacity and NextQueueSequence, with their int64
-- bounds written out.
pub mod Bounds
use good_queue.Base.{ℕ, ◌+◌, ◌-◌, ◌*◌, ◌/◌, ◌&&◌, not, ltb, ◌==◌, if◌then◌else◌, ℤ, pos, negsuc}
use good_queue.Domain.Errors.{wrapped, Sentinel, Result, ok, err}

-- math.MaxInt64
abbrev pub max_int64 : ℕ
max_int64 = 9223372036854775807

-- math.MaxInt32
abbrev pub max_int32 : ℕ
max_int32 = 2147483647

-- `stock * percent` is computed only where it fits, so no operation here wraps.
unfoldable pub waiting_capacity : ℤ → ℤ → Result ℕ
waiting_capacity (pos stock) (pos percent) =
    let product = stock * percent in
    if not (stock == 0) && ltb (max_int64 / stock) percent
    then err (wrapped Sentinel.invalid_input)
    else if ltb (max_int64 - 99) product
    then err (wrapped Sentinel.invalid_input)
    else ok ((product + 99) / 100)
waiting_capacity (pos stock) (negsuc percent) = err (wrapped Sentinel.invalid_input)
waiting_capacity (negsuc stock) percent = err (wrapped Sentinel.invalid_input)

unfoldable pub next_queue_sequence : ℕ → Result ℕ
next_queue_sequence current =
    if ltb current 1
    then err (wrapped Sentinel.invalid_input)
    else if current == max_int64
    then err (wrapped Sentinel.queue_sequence_exhausted)
    else ok (current + 1)
