-- ===== src/Queue/Invariant/Ready.antt =====
-- The row of the locked product, and the state in which reconciliation can start.
use good_queue.Base.{ℕ, ◌≤◌, ◌≡◌, sym, subst, ◌∙◌, ◌⊎◌, inl, Bool, true, some, List, All}
use good_queue.Domain.{QueueAttempt, ok, Error}
use good_queue.Store.Rows.{
  update_rows, find_row, Keyed, count_where-hit, update_rows-Keyed, find_row-update_self,
  find_row-key,
}
use good_queue.Store.Updates.{All-update}
use good_queue.Store.Tables.{Database, ProductRow, product_key}
use good_queue.Queue.Repository.{TransactionState}
use good_queue.Queue.Transitions.{update_product}
use good_queue.Queue.Invariant.{held, InTransaction}

-- A row of another product holds what its attempts reserve.
abbrev pub Balanced : List QueueAttempt → ProductRow → Type 0
Balanced attempts row =
    (row.reserved ≡ held row.id attempts) × (row.reserved ≤ row.allocatable_stock)

-- The table has the product's row with these values; `base` is the attempts at the start.
pub record Stored (base : List QueueAttempt) (id stock reserved sequence : ℕ)
    (products : List ProductRow) : Type 0 where
  pub row : ProductRow
  pub found : find_row product_key id products ≡ some row
  pub has_stock : row.allocatable_stock ≡ stock
  pub has_reserved : row.reserved ≡ reserved
  pub has_sequence : row.next_queue_sequence ≡ sequence
  pub unique : Keyed product_key products
  pub elsewhere : All (λ r. (r.id ≡ id) ⊎ Balanced base r) products

pub record Ready (base : List QueueAttempt) (state : TransactionState) : Type 0 where
  pub inside :
      InTransaction state.product.id
        (record (state.tx) { attempts = base })
        state.tx
        state.product.reserved
        state.attempts
  pub bounded : state.product.reserved ≤ state.product.allocatable_stock
  pub stored :
      Stored base state.product.id state.product.allocatable_stock state.product.reserved
        state.product.next_queue_sequence state.tx.products

-- A guarded UPDATE of the product's row, whose guard the stored values pass.
module _ (base : List QueueAttempt) (id stock reserved sequence stock' reserved' sequence' : ℕ)
    (hit : ProductRow → Bool) (set : ProductRow → ProductRow)
    (only : (r : ProductRow) → hit r ≡ true → r.id ≡ id)
    (stays : (r : ProductRow) → (set r).id ≡ r.id)
    (passes : (r : ProductRow)
      → r.id ≡ id
      → r.allocatable_stock ≡ stock
      → r.reserved ≡ reserved
      → r.next_queue_sequence ≡ sequence
      → (hit r ≡ true)
        × ((set r).allocatable_stock ≡ stock')
        × ((set r).reserved ≡ reserved')
        × ((set r).next_queue_sequence ≡ sequence')) where
  pub update_product-Stored :
      (e : Error) (tx : Database)
      → Stored base id stock reserved sequence tx.products
      → (update_product hit set e tx
          ≡ ok (record tx { products = update_rows hit set tx.products }))
        × Stored base id stock' reserved' sequence' (update_rows hit set tx.products)
  unfolding update_product
  update_product-Stored e tx s =
      let keyed_id = find_row-key product_key id tx.products s.found in
      let p = passes s.row keyed_id s.has_stock s.has_reserved s.has_sequence in
      (
        rw (count_where-hit product_key hit set id only stays tx.products s.unique s.found p.0),
        record {
          row = set s.row;
          found = find_row-update_self product_key hit set id only stays tx.products s.found p.0;
          has_stock = p.1;
          has_reserved = p.2;
          has_sequence = p.3;
          unique = update_rows-Keyed product_key hit set id only stays tx.products s.unique;
          elsewhere =
              All-update product_key hit set s.row (λ r h. only r h ∙ sym keyed_id) stays p.0 _
                tx.products s.unique
                (subst (λ i. find_row product_key i tx.products ≡ some s.row) (sym keyed_id)
                  s.found)
                (inl (stays s.row ∙ keyed_id)) s.elsewhere;
        },
      )
