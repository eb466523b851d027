-- ===== src/Queue/Invariant/Loading.antt =====
-- The transaction that lockProduct and lockProductAttempts load from a consistent database
-- (internal/repository/postgres/queue_attempt.go), and the database that a ready transaction leaves.
use good_queue.Base.{
  ℕ, ◌≡◌, ◌≢◌, refl, sym, subst, ◌∙◌, ◌⊎◌, inl, inr, true, ◌&&◌, none, some, List, [], ◌∷◌, ◌==◌,
  arith, All, Bool-cases,
}
use good_queue.Domain.{QueueAttempt, state_eq, ProductId, ok}
use good_queue.Store.Rows.{find_row, Keyed, find_row-key}
use good_queue.Store.Updates.{All-find_row}
use good_queue.Store.Tables.{Database, ProductRow, product_key}
use good_queue.Queue.Repository.{TransactionState, AttemptLockScope}
use good_queue.Queue.Lookup.{reserves_stock, is_active_state}
use good_queue.Queue.Reconcile.{reserved_count}
use good_queue.Queue.Transaction.{lock_product, in_scope, lock_product_attempts}
use good_queue.Queue.Invariant.{Valid, held}
use good_queue.Queue.Invariant.Ready.{Balanced, Ready}
use good_queue.Queue.Invariant.Sorted.{
  Keyed-select_sorted, Mirrors-select_sorted, All-select_sorted, count_where-select_sorted,
}

-- A database between transactions: its rows are valid, the ids of the products are distinct, and
-- every product's counter is what its attempts reserve, at most the stock.
pub record Consistent (db : Database) : Type 0 where
  pub valid : Valid db
  pub distinct : Keyed product_key db.products
  pub balanced : All (Balanced db.attempts) db.products

in_scope-product :
    (db : Database) (id : ProductId) (scope : AttemptLockScope) (a : QueueAttempt)
    → in_scope db id scope a ≡ true
    → a.product_id ≡ id
unfolding in_scope
in_scope-product db id scope a h = ground arith

in_scope-reserves :
    (db : Database) (id : ProductId) (scope : AttemptLockScope) (a : QueueAttempt)
    → (in_scope db id scope a && reserves_stock a.state)
      ≡ (a.product_id == id && reserves_stock a.state)
unfolding in_scope is_active_state reserves_stock state_eq
in_scope-reserves db id scope a = ground arith

-- The transaction that withLockedProduct starts on the product of `row`.
abbrev pub begun : Database → ProductRow → ℕ → AttemptLockScope → TransactionState
begun db row now scope = record {
  tx = db;
  product = record {
    id = row.id;
    allocatable_stock = row.allocatable_stock;
    reserved = row.reserved;
    next_queue_sequence = row.next_queue_sequence;
    queue_enabled = row.queue_enabled;
  };
  now = now;
  attempts = lock_product_attempts db row.id scope;
}

pub lock_product-found :
    (db : Database) (row : ProductRow)
    → find_row product_key row.id db.products ≡ some row
    → lock_product db row.id
      ≡ ok (record {
        id = row.id;
        allocatable_stock = row.allocatable_stock;
        reserved = row.reserved;
        next_queue_sequence = row.next_queue_sequence;
        queue_enabled = row.queue_enabled;
      })
unfolding lock_product
lock_product-found db row f = rw (f, lock_product) refl

All-widen :
    (attempts : List QueueAttempt) (id : ProductId) (rows : List ProductRow)
    → All (Balanced attempts) rows
    → All (λ r. (r.id ≡ id) ⊎ Balanced attempts r) rows
All-widen attempts id [] h = tt
All-widen attempts id (r ∷ rows) h = (inr h.0, All-widen attempts id rows h.1)

pub begun-Ready :
    (db : Database) (row : ProductRow) (now : ℕ) (scope : AttemptLockScope)
    → Consistent db
    → find_row product_key row.id db.products ≡ some row
    → Ready db.attempts (begun db row now scope)
unfolding lock_product_attempts held reserved_count
begun-Ready db row now scope c f =
    let p = in_scope db row.id scope in
    let b = All-find_row product_key (Balanced db.attempts) db.products row.id row c.balanced f in
    let count =
      count_where-select_sorted p (λ a. reserves_stock a.state)
        (λ a. a.product_id == row.id && reserves_stock a.state) (in_scope-reserves db row.id scope)
        db.attempts in
    record {
      inside = record {
        valid = c.valid;
        mirrored = Mirrors-select_sorted p db.attempts c.valid.keyed;
        distinct = Keyed-select_sorted p db.attempts c.valid.keyed;
        owned =
            All-select_sorted p (λ a. a.product_id ≡ row.id)
              (λ a h. in_scope-product db row.id scope a h) db.attempts;
        counted = count ∙ sym b.0;
        covered = sym b.0;
        others = λ q n. refl;
        products = refl;
      };
      bounded = b.1;
      stored = record {
        row = row;
        found = f;
        has_stock = refl;
        has_reserved = refl;
        has_sequence = refl;
        unique = c.distinct;
        elsewhere = All-widen db.attempts row.id db.products c.balanced;
      };
    }

settled_none :
    (base attempts : List QueueAttempt) (id : ProductId) (rows : List ProductRow)
    → ((q : ℕ) → q ≢ id → held q attempts ≡ held q base)
    → find_row product_key id rows ≡ none
    → All (λ r. (r.id ≡ id) ⊎ Balanced base r) rows
    → All (Balanced attempts) rows
unfolding find_row
settled_none base attempts id [] o f h = tt
settled_none base attempts id (r ∷ rows) o f h = elim (Bool-cases (r.id == id)) [
  | inl e ↦ ground arith
  | inr e ↦
      let f' = rw e at f in (ground (arith, o r.id), settled_none base attempts id rows o f' h.1)
]

pub settled :
    (base attempts : List QueueAttempt) (id : ProductId) (rows : List ProductRow) (row : ProductRow)
    → ((q : ℕ) → q ≢ id → held q attempts ≡ held q base)
    → find_row product_key id rows ≡ some row
    → Keyed product_key rows
    → Balanced attempts row
    → All (λ r. (r.id ≡ id) ⊎ Balanced base r) rows
    → All (Balanced attempts) rows
unfolding find_row
settled base attempts id [] row o f k b h = tt
settled base attempts id (r ∷ rows) row o f k b h = elim (Bool-cases (r.id == id)) [
  | inl e ↦
      let f' = rw e at f in
      let same : row ≡ r = ground arith in
      let none_left : find_row product_key id rows ≡ none =
        subst (λ i. find_row product_key i rows ≡ none) (ground arith) k.0 in
      (subst (Balanced attempts) same b, settled_none base attempts id rows o none_left h.1)
  | inr e ↦
      let f' = rw e at f in
      (ground (arith, o r.id), settled base attempts id rows row o f' k.1 b h.1)
]

pub Ready-Consistent :
    (base : List QueueAttempt) (state : TransactionState) → Ready base state → Consistent state.tx
Ready-Consistent base state v = record {
  valid = v.inside.valid;
  distinct = v.stored.unique;
  balanced =
      settled base state.tx.attempts state.product.id state.tx.products v.stored.row v.inside.others
        v.stored.found v.stored.unique
        (ground (
          arith,
          v.stored.has_reserved,
          v.stored.has_stock,
          v.inside.covered,
          v.bounded,
          find_row-key product_key state.product.id state.tx.products v.stored.found,
        ))
        v.stored.elsewhere;
}
