-- ===== src/Domain/Product.antt =====
-- internal/pkg/domain/product.go: a product as the catalogue shows it, and its free stock. The
-- schema's CHECK constraints keep stock and reservations non-negative, so they are natural numbers.
use good_queue.Base.{ℕ, ◌-◌, Bool, Bytes, leb, if◌then◌else◌}
use good_queue.Domain.Attempt.{ProductId}

pub record Product : Type 0 where
  pub id : ProductId
  pub title : Bytes
  pub description : Bytes
  pub image_url : Bytes
  pub category : Bytes
  pub price_cents : ℕ
  pub queue_enabled : Bool
  pub allocatable_stock : ℕ
  pub reserved : ℕ
  pub next_queue_sequence : ℕ
  pub waiting_count : ℕ
  pub waiting_capacity : ℕ

unfoldable pub free_stock : Product → ℕ
free_stock product =
    if leb product.allocatable_stock product.reserved
    then 0
    else product.allocatable_stock - product.reserved
