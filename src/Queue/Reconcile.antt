-- ===== src/Queue/Reconcile.antt =====
-- reconcileLockedProductBounded and hasReconciliationWork
-- (internal/repository/postgres/queue_attempt.go). Stock and reservations are int32 columns that
-- CHECK constraints keep between 0 and the stock, and `reserved--` follows a reserving attempt.
pub mod Reference
pub mod Loops
pub mod Turns
pub mod Promote
pub mod Total
pub mod Succeeds
pub mod Quiet
use good_queue.Base.{
  ℕ, ◌+◌, ◌-◌, ◌*◌, ◌<◌, Bool, true, false, ◌&&◌, ◌||◌, not, Option, none, some, List, [], ◌∷◌,
  ◌++◌, ltb, leb, ◌==◌, if◌then◌else◌, Bytes, count_where, length,
}
use good_queue.Domain.{
  QueueAttempt, QueueAttemptState, state_eq, Sentinel, Error, wrapped, Result, ok, err, ◌>>=◌, ◌>>◌,
  guard,
}
use good_queue.Store.Tables.{Database, ProductRow}
use good_queue.Queue.Repository.{
  Repository, TransactionState, LockedProduct, reserved_invariant_error, terminal_invite_expired,
  terminal_checkout_expired,
}
use good_queue.Queue.Lookup.{reserves_stock, before}
use good_queue.Queue.Transitions.{
  transition_to_expired, transition_waiting_to_sold_out, promote_waiting_attempt, update_product,
}

-- What the loops change besides the attempts; `available` is set before the last one.
pub record Progress : Type 0 where
  pub tx : Database
  pub available : ℕ
  pub reserved : ℕ
  pub transitions : ℕ

abbrev pub Pass : Type 0
Pass = List QueueAttempt × Progress

abbrev pub unless_before : Result Bool → QueueAttemptState → Result (Option QueueAttemptState)
unless_before (ok true) state = ok none
unless_before (ok false) state = ok (some state)
unless_before (err e) state = err e

-- The two expiry tests of an attempt: the state it expires to, if its deadline has come.
unfoldable pub expired_state : ℕ → QueueAttempt → Result (Option QueueAttemptState)
expired_state now attempt = elim attempt.state [
  | QueueAttemptState.invited ↦
      unless_before (before now attempt.invitation_deadline) QueueAttemptState.invite_expired
  | QueueAttemptState.checkout ↦
      unless_before (before now attempt.checkout_deadline) QueueAttemptState.checkout_expired
  | _ ↦ ok none
]

abbrev pub expiry_reason : QueueAttemptState → Bytes
expiry_reason QueueAttemptState.invite_expired = terminal_invite_expired
expiry_reason _ = terminal_checkout_expired

-- The body of the first loop.
unfoldable pub expire_attempt :
    ℕ → QueueAttempt → Progress → Option QueueAttemptState → Result (QueueAttempt × Progress)
expire_attempt now attempt p none = ok (attempt, p)
expire_attempt now attempt p (some state) = do
  (attempt', tx') ← transition_to_expired p.tx attempt now state (expiry_reason state)
  ok (attempt', record p { tx = tx'; reserved = p.reserved - 1; transitions = p.transitions + 1 })

-- `for index := range state.attempts { if stop { break }; body }`: memory is `done ++ rest`, and a
-- `break` leaves `rest` as it is.
unfoldable pub for_each :
    (Progress → Bool)
    → (QueueAttempt → Progress → Result (QueueAttempt × Progress))
    → List QueueAttempt
    → List QueueAttempt
    → Progress
    → Result Pass
for_each stop body done [] p = ok (done, p)
for_each stop body done (a ∷ rest) p =
    let turn = (do (a', p') ← body a p; for_each stop body (done ++ a' ∷ []) rest p') in
    if stop p then ok (done ++ a ∷ rest, p) else turn

abbrev pub expire_body : ℕ → QueueAttempt → Progress → Result (QueueAttempt × Progress)
expire_body now a p = expired_state now a >>= expire_attempt now a p

unfoldable pub expire_loop : ℕ → ℕ → List QueueAttempt → Progress → Result Pass
expire_loop now limit = for_each (λ p. p.transitions == limit) (expire_body now) []

-- The second loop, at stock 0: whoever waits is told that the product is sold out.
unfoldable pub sell_out_attempt : ℕ → QueueAttempt → Progress → Result (QueueAttempt × Progress)
sell_out_attempt now attempt p =
    if state_eq attempt.state QueueAttemptState.waiting
    then (do
      (attempt', tx') ← transition_waiting_to_sold_out p.tx attempt now
      ok (attempt', record p { tx = tx'; transitions = p.transitions + 1 }))
    else ok (attempt, p)

unfoldable pub sold_out_loop : ℕ → ℕ → List QueueAttempt → Progress → Result Pass
sold_out_loop now limit = for_each (λ p. p.transitions == limit) (sell_out_attempt now) []

-- The other second loop: the waiting attempts get what is available, in order.
unfoldable pub promote_attempt :
    Repository → ℕ → QueueAttempt → Progress → Result (QueueAttempt × Progress)
promote_attempt repository now attempt p =
    if state_eq attempt.state QueueAttemptState.waiting
    then (do
      (attempt', tx') ← promote_waiting_attempt repository now attempt p.tx
      ok (
        attempt',
        record {
          tx = tx';
          available = p.available - 1;
          reserved = p.reserved + 1;
          transitions = p.transitions + 1;
        },
      ))
    else ok (attempt, p)

unfoldable pub promote_loop : Repository → ℕ → ℕ → List QueueAttempt → Progress → Result Pass
promote_loop repository now limit =
    for_each (λ p. p.available == 0 || p.transitions == limit) (promote_attempt repository now) []

-- What is left to do for one attempt, once an int32 `available` is known to be non-negative.
unfoldable pub has_work : ℕ → ℕ → ℕ → List QueueAttempt → Result Bool
has_work now stock available [] = ok false
has_work now stock available (a ∷ rest) =
    let others = has_work now stock available rest in
    do
      state ← expired_state now a
      elim state [
        | some s ↦ ok true
        | none ↦
            if state_eq a.state QueueAttemptState.waiting && (stock == 0 || ltb 0 available)
            then ok true
            else others
      ]

unfoldable pub has_reconciliation_work : TransactionState → Result Bool
has_reconciliation_work state =
    has_work state.now state.product.allocatable_stock
      (state.product.allocatable_stock - state.product.reserved) state.attempts

-- The guarded UPDATE of products at the end, made when something changed.
unfoldable pub store_reserved : TransactionState → ℕ → Progress → Result Database
store_reserved state original p =
    if p.transitions == 0
    then ok p.tx
    else update_product
        (λ row.
          row.id == state.product.id
          && (row.reserved == original && leb p.reserved row.allocatable_stock))
        (λ row. record row { reserved = p.reserved; updated_at = state.now })
        reserved_invariant_error p.tx

unfoldable pub reserved_count : List QueueAttempt → ℕ
reserved_count attempts = count_where (λ a. reserves_stock a.state) attempts

-- Both loops, one after the other.
abbrev pub start : TransactionState → Progress
start state = record {
  tx = state.tx;
  available = 0;
  reserved = state.product.reserved;
  transitions = 0;
}

-- The second loop, which depends on the stock.
unfoldable pub second_loop : Repository → ℕ → TransactionState → Pass → Result Pass
second_loop repository limit state (attempts, p) =
    if state.product.allocatable_stock == 0
    then sold_out_loop state.now limit attempts p
    else promote_loop repository state.now limit attempts
        (record p { available = state.product.allocatable_stock - p.reserved })

unfoldable pub run_loops : Repository → ℕ → TransactionState → Result Pass
run_loops repository limit state = do
  pass ← expire_loop state.now limit state.attempts (start state)
  second_loop repository limit state pass

pub record Reconciled : Type 0 where
  pub state : TransactionState
  pub transitions : ℕ
  pub more_work : Bool

unfoldable pub reconcile_locked_product_bounded :
    Repository → ℕ → TransactionState → Result Reconciled
reconcile_locked_product_bounded repository limit state =
    if not (reserved_count state.attempts == state.product.reserved)
      || ltb state.product.allocatable_stock state.product.reserved
    then err reserved_invariant_error
    else (do
      (attempts, p) ← run_loops repository limit state
      tx' ← store_reserved state state.product.reserved p
      let state' = record state {
        tx = tx';
        product = record (state.product) { reserved = p.reserved };
        attempts = attempts;
      }
      more ← has_reconciliation_work state'
      ok (record { state = state'; transitions = p.transitions; more_work = more }))

unfoldable pub reconcile_locked_product : Repository → TransactionState → Result TransactionState
reconcile_locked_product repository state = do
  r ← reconcile_locked_product_bounded repository (length state.attempts * 2 + 1) state
  ok r.state
