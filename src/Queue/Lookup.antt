-- ===== src/Queue/Lookup.antt =====
-- The searches and counts over the attempts of a transaction, and the tests on states
-- (internal/repository/postgres/queue_attempt.go, from findReplay to reservesStock).
pub mod Found
use good_queue.Base.{
  ℕ, Bool, true, false, ◌&&◌, ◌||◌, not, Option, none, some, List, [], ◌∷◌, ltb, ◌==◌,
  if◌then◌else◌, bytes_eq, count_where,
}
use good_queue.Domain.{
  AttemptId, ExternalUserId, IdempotencyKey, QueueAttempt, QueueAttemptState, waiting, invited,
  checkout, purchased, state_eq, Error, Result, ok, err,
}

module _ {ℓ} {A : Type ℓ} where
  -- A loop that returns at the first hit.
  unfoldable pub find_first : (A → Bool) → List A → Option A
  find_first p [] = none
  find_first p (x ∷ xs) = if p x then some x else find_first p xs

  -- The same from the end.
  unfoldable pub find_last : (A → Bool) → List A → Option A
  find_last p [] = none
  find_last p (x ∷ xs) = elim (find_last p xs) [
    | some y ↦ some y
    | none ↦ if p x then some x else none
  ]

unfoldable pub is_active_state : QueueAttemptState → Bool
is_active_state state = state_eq state waiting || state_eq state invited || state_eq state checkout

unfoldable pub is_terminal_state : QueueAttemptState → Bool
is_terminal_state state = not (is_active_state state) && not (state_eq state purchased)

unfoldable pub reserves_stock : QueueAttemptState → Bool
reserves_stock state = state_eq state invited || state_eq state checkout

unfoldable pub find_replay :
    List QueueAttempt → ExternalUserId → IdempotencyKey → Option QueueAttempt
unfolding find_first
find_replay attempts user key =
    find_first (λ a. bytes_eq a.external_user_id user && bytes_eq a.idempotency_key key) attempts

unfoldable pub find_active_attempt : List QueueAttempt → ExternalUserId → Option QueueAttempt
unfolding find_first
find_active_attempt attempts user =
    find_first (λ a. bytes_eq a.external_user_id user && is_active_state a.state) attempts

unfoldable pub latest_attempt_for_user : List QueueAttempt → ExternalUserId → Option QueueAttempt
unfolding find_last
latest_attempt_for_user attempts user = find_last (λ a. bytes_eq a.external_user_id user) attempts

unfoldable pub find_attempt_by_id : List QueueAttempt → AttemptId → Option QueueAttempt
unfolding find_first
find_attempt_by_id attempts id = find_first (λ a. a.id == id) attempts

unfoldable pub count_waiting : List QueueAttempt → ℕ
count_waiting attempts = count_where (λ a. state_eq a.state waiting) attempts

unfoldable pub count_waiting_ahead : List QueueAttempt → ℕ → ℕ
count_waiting_ahead attempts sequence =
    count_where (λ a. state_eq a.state waiting && ltb a.queue_sequence sequence) attempts

-- `now.Before(*deadline)`
unfoldable pub before : ℕ → Option ℕ → Result Bool
before now none = err Error.panic
before now (some deadline) = ok (ltb now deadline)

unfoldable pub is_effective_at : QueueAttempt → ℕ → Result Bool
unfolding before
is_effective_at attempt now = elim attempt.state [
  | QueueAttemptState.invited ↦ before now attempt.invitation_deadline
  | QueueAttemptState.checkout ↦ before now attempt.checkout_deadline
  | QueueAttemptState.waiting ↦ ok true
  | _ ↦ ok false
]
