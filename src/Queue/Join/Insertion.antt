-- ===== src/Queue/Join/Insertion.antt =====
-- createAttempt: where the new attempt is placed, and its INSERT
-- (internal/repository/postgres/queue_attempt.go).
use good_queue.Base.{
  ℕ, ◌+◌, ◌≤◌, ◌≡◌, ◌≢◌, refl, ◌&&◌, Bool, true, false, none, some, List, [], ◌∷◌, ◌==◌, arith, ltb,
  leb, tally, count_where, All, Bool-cases, inl, inr, if◌then◌else◌, pos,
}
use good_queue.Domain.{QueueAttempt, QueueAttemptState, ProductId, Error, ok, ◌>>◌, state_eq}
use good_queue.Domain.Capacity.{waiting_capacity}
use good_queue.Store.Rows.{find_row, find_row-key}
use good_queue.Store.Tables.{
  Database, ProductRow, OutboxRow, DeduplicationKey, invited_key, compensation_key, attempt_key,
  product_key,
}
use good_queue.Queue.Repository.{Repository, TransactionState, reserved_invariant_error}
use good_queue.Queue.Lookup.{reserves_stock, count_waiting}
use good_queue.Queue.Join.{
  update_product_for_new_attempt, respect_unique, insert_attempt, place_attempt,
}
use good_queue.Queue.Keeps.{Holds, bind-Holds, guard-Holds}
use good_queue.Queue.Invariant.{has_deadline, Known, Valid, held}
use good_queue.Queue.Invariant.Ready.{Stored, Ready, update_product-Stored}
use good_queue.Queue.Invariant.Loading.{Consistent, settled}

find_row-uncounted :
    (i : ℕ) (rows : List QueueAttempt)
    → count_where (λ row. row.id == i) rows ≡ 0
    → find_row attempt_key i rows ≡ none
unfolding find_row
find_row-uncounted i [] h = refl
find_row-uncounted i (r ∷ rows) h = ground (arith, find_row-uncounted i rows)

Known-inserted :
    (a : QueueAttempt) (rows : List QueueAttempt) (outbox : List OutboxRow)
    → find_row attempt_key a.id rows ≡ none
    → All (λ row. Known rows row.deduplication_key) outbox
    → All (λ row. Known (a ∷ rows) row.deduplication_key) outbox
unfolding find_row
Known-inserted a rows [] f h = tt
Known-inserted a rows (row ∷ outbox) f h =
    (known row.deduplication_key h.0, Known-inserted a rows outbox f h.1)
  where
    known : (k : DeduplicationKey) → Known rows k → Known (a ∷ rows) k
    known (compensation_key i) g = tt
    known (invited_key i v) (b, found, le) = (b, other, le)
      where
        other : find_row attempt_key i (a ∷ rows) ≡ some b
        other = elim (Bool-cases (a.id == i)) [
          | inl e ↦ let same : a.id ≡ i = ground arith in ground arith
          | inr e ↦ rw e found
        ]

-- A new attempt of the locked product, whose counter takes its reservation.
pub inserted-Consistent :
    (base : List QueueAttempt) (id stock reserved sequence : ℕ) (a : QueueAttempt) (tx : Database)
    → Valid tx
    → find_row attempt_key a.id tx.attempts ≡ none
    → has_deadline a ≡ true
    → a.product_id ≡ id
    → Stored base id stock reserved sequence tx.products
    → reserved ≤ stock
    → held id tx.attempts + tally (reserves_stock a.state) ≡ reserved
    → ((q : ProductId) → q ≢ id → held q tx.attempts ≡ held q base)
    → Consistent (record tx { attempts = a ∷ tx.attempts })
unfolding held
inserted-Consistent base id stock reserved sequence a tx v fresh timed mine s le counts others =
    record {
      valid = record {
        keyed = (fresh, v.keyed);
        timed = (timed, v.timed);
        known = Known-inserted a tx.attempts tx.outbox fresh v.known;
      };
      distinct = s.unique;
      balanced =
          settled base (a ∷ tx.attempts) id tx.products s.row (λ q n. ground (arith, others q n))
            s.found s.unique
            (ground
              (arith, find_row-key product_key id tx.products s.found, s.has_reserved, s.has_stock))
            s.elsewhere;
    }

-- The row that INSERT makes has an id that no other has.
abbrev pub Inserted : QueueAttempt → Database → Database → Type 0
Inserted a tx tx' =
    (find_row attempt_key a.id tx.attempts ≡ none)
    × (record tx { attempts = a ∷ tx.attempts } ≡ tx')

pub insert_attempt-Inserted :
    (a : QueueAttempt) (tx : Database) → Holds (Inserted a tx) (insert_attempt a tx)
unfolding insert_attempt
insert_attempt-Inserted a tx =
    let row = record tx { attempts = a ∷ tx.attempts } in
    guard-Holds (Inserted a tx) (count_where (λ row. row.id == a.id) tx.attempts == 0)
      Error.database_error (respect_unique a tx >> ok row)
      (λ e.
        bind-Holds (Inserted a tx) (respect_unique a tx) (λ done. ok row)
          (λ u h. (find_row-uncounted a.id tx.attempts (ground arith), refl)))

-- What place_attempt leaves: the product's row follows the state that the attempt gets.
pub record Placed (base : List QueueAttempt) (state : TransactionState) (a : QueueAttempt)
    (r : QueueAttempt × TransactionState) : Type 0 where
  pub reserved : ℕ
  pub sequence : ℕ
  pub attempts : r.1.tx.attempts ≡ state.tx.attempts
  pub outbox : r.1.tx.outbox ≡ state.tx.outbox
  pub stored :
      Stored base state.product.id state.product.allocatable_stock reserved sequence r.1.tx.products
  pub bounded : reserved ≤ state.product.allocatable_stock
  pub counts : state.product.reserved + tally (reserves_stock r.0.state) ≡ reserved
  pub product : r.0.product_id ≡ a.product_id
  pub timed : has_deadline r.0 ≡ true

updated-Stored :
    (base : List QueueAttempt) (state : TransactionState) (next : ℕ) (reserve : Bool)
    → Stored base state.product.id state.product.allocatable_stock state.product.reserved
        state.product.next_queue_sequence state.tx.products
    → (if reserve then state.product.reserved + 1 else state.product.reserved)
      ≤ state.product.allocatable_stock
    → (products : List ProductRow) × (update_product_for_new_attempt state next reserve
        ≡ ok (record state {
          tx = record (state.tx) { products = products };
          product = record (state.product) {
            next_queue_sequence = next;
            reserved = if reserve then state.product.reserved + 1 else state.product.reserved;
          };
        }))
      × Stored base state.product.id state.product.allocatable_stock
          (if reserve then state.product.reserved + 1 else state.product.reserved)
          next
          products
unfolding update_product_for_new_attempt
updated-Stored base state next reserve s le =
    let reserved' = if reserve then state.product.reserved + 1 else state.product.reserved in
    let u =
      update_product-Stored base state.product.id state.product.allocatable_stock
        state.product.reserved state.product.next_queue_sequence state.product.allocatable_stock
        reserved' next
        (λ row.
          row.id == state.product.id
          && (row.next_queue_sequence == state.product.next_queue_sequence
              && (row.reserved == state.product.reserved && leb reserved' row.allocatable_stock)))
        (λ row. record row {
          next_queue_sequence = next;
          reserved = reserved';
          updated_at = state.now;
        })
        (λ r p. ground arith) (λ r. refl) (λ r i st rs sq. (ground arith, st, refl, refl))
        reserved_invariant_error state.tx s in
    (_, rw u.0 refl, u.1)

pub place_attempt-Placed :
    (repository : Repository) (base : List QueueAttempt) (state : TransactionState)
    → (a : QueueAttempt) (next : ℕ) → Ready base state
    → a.state ≡ QueueAttemptState.waiting
    → has_deadline a ≡ true
    → Holds (Placed base state a) (place_attempt repository state a next)
unfolding place_attempt reserves_stock state_eq has_deadline
place_attempt-Placed repository base state a next v w timed =
    elim (Bool-cases (ltb state.product.reserved state.product.allocatable_stock)) [
      | inl e ↦
          let u = updated-Stored base state next true v.stored (ground arith) in
          rw (e, u.1)
            (record {
              reserved = state.product.reserved + 1;
              sequence = next;
              attempts = refl;
              outbox = refl;
              stored = u.2;
              bounded = ground arith;
              counts = refl;
              product = refl;
              timed = refl;
            })
      | inr e ↦
          let u = updated-Stored base state next false v.stored v.bounded in
          rw e (
            bind-Holds (Placed base state a)
              (waiting_capacity (pos state.product.allocatable_stock)
                repository.waiting_buffer_percent)
              _
              (λ capacity h.
                guard-Holds (Placed base state a) (ltb (count_waiting state.attempts) capacity) _ _
                  (λ room. rw (u.1) (record {
                    reserved = state.product.reserved;
                    sequence = next;
                    attempts = refl;
                    outbox = refl;
                    stored = u.2;
                    bounded = v.bounded;
                    counts = rw w (omega arith);
                    product = refl;
                    timed = timed;
                  }))))
    ]
