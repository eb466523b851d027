-- ===== src/Queue/Invariant/Moves.antt =====
-- One attempt of a ready transaction moves to another state, and the row of the product follows.
use good_queue.Base.{
  ℕ, ◌+◌, ◌-◌, ◌≤◌, ◌<◌, ◌≡◌, refl, subst, ◌&&◌, List, [], ◌∷◌, ◌++◌, ◌==◌, arith, tally, ltb,
}
use good_queue.Domain.{QueueAttempt, ok, Error}
use good_queue.Store.Rows.{Keyed}
use good_queue.Store.Updates.{find_row-middle_none}
use good_queue.Store.Tables.{ProductRow, attempt_key}
use good_queue.Queue.Repository.{TransactionState}
use good_queue.Queue.Lookup.{reserves_stock}
use good_queue.Queue.Transitions.{release_reservation, replace_attempt}
use good_queue.Queue.Invariant.{InTransaction}
use good_queue.Queue.Invariant.Step.{IsTransition, updated, InTransaction-updated}
use good_queue.Queue.Invariant.Ready.{Stored, Ready, update_product-Stored}

-- The transaction after the move.
abbrev pub moved :
    QueueAttempt
    → (QueueAttempt → QueueAttempt)
    → List QueueAttempt
    → List QueueAttempt
    → ℕ
    → ℕ
    → List ProductRow
    → TransactionState
    → TransactionState
moved a set xs ys stock reserved products state = record state {
  tx = record (updated a set state.tx) { products = products };
  product = record (state.product) { allocatable_stock = stock; reserved = reserved };
  attempts = xs ++ set a ∷ ys;
}

pub moved-Ready :
    (base : List QueueAttempt) (state : TransactionState) (a : QueueAttempt)
    → (set : QueueAttempt → QueueAttempt) (xs ys : List QueueAttempt) (stock reserved : ℕ)
    → (products : List ProductRow) → IsTransition a set
    → Ready base state
    → state.attempts ≡ xs ++ a ∷ ys
    → reserved + tally (reserves_stock a.state)
      ≡ state.product.reserved + tally (reserves_stock (set a).state)
    → reserved ≤ stock
    → Stored base state.product.id stock reserved state.product.next_queue_sequence products
    → Ready base (moved a set xs ys stock reserved products state)
moved-Ready base state a set xs ys stock reserved products t v split moves le s =
    let inside =
      subst
        (InTransaction state.product.id (record (state.tx) { attempts = base }) state.tx
          state.product.reserved)
        split v.inside in
    let m = InTransaction-updated a set t reserved xs ys inside moves in
    record {
      inside = record {
        valid = record { keyed = m.valid.keyed; timed = m.valid.timed; known = m.valid.known };
        mirrored = m.mirrored;
        distinct = m.distinct;
        owned = m.owned;
        counted = m.counted;
        covered = m.covered;
        others = m.others;
        products = refl;
      };
      bounded = le;
      stored = s;
    }

pub replace_attempt-middle :
    (b a : QueueAttempt) (xs ys : List QueueAttempt)
    → b.id ≡ a.id
    → Keyed attempt_key (xs ++ a ∷ ys)
    → replace_attempt b (xs ++ a ∷ ys) ≡ xs ++ b ∷ ys
unfolding replace_attempt
replace_attempt-middle b a [] ys e k = ground arith
replace_attempt-middle b a (x ∷ xs) ys e k = ground (
  arith,
  replace_attempt-middle b a xs ys e k.1,
  find_row-middle_none attempt_key x.id xs a ys k.0,
)

-- A reservation is released where one is held.
pub release_reservation-Stored :
    (base : List QueueAttempt) (state : TransactionState) (e : Error)
    → 0 < state.product.reserved
    → Stored base state.product.id state.product.allocatable_stock state.product.reserved
        state.product.next_queue_sequence state.tx.products
    → (products : List ProductRow) × (release_reservation state e
        ≡ ok (record state {
          tx = record (state.tx) { products = products };
          product = record (state.product) { reserved = state.product.reserved - 1 };
        }))
      × Stored base state.product.id state.product.allocatable_stock
          (state.product.reserved - 1)
          state.product.next_queue_sequence
          products
unfolding release_reservation
release_reservation-Stored base state e h s =
    let u =
      update_product-Stored base state.product.id state.product.allocatable_stock
        state.product.reserved state.product.next_queue_sequence state.product.allocatable_stock
        (state.product.reserved - 1) state.product.next_queue_sequence
        (λ row.
          row.id == state.product.id
          && (row.reserved == state.product.reserved && ltb 0 row.reserved))
        (λ row. record row { reserved = row.reserved - 1; updated_at = state.now })
        (λ r p. ground arith) (λ r. refl) (λ r i st rs sq. (ground arith, st, ground arith, sq)) e
        state.tx s in
    (_, rw u.0 refl, u.1)
