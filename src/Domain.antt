-- ===== src/Domain.antt =====
-- internal/pkg/domain: errors, queue attempts, products and their arithmetic.
mod Errors
mod Attempt
mod Product
pub mod Capacity
pub mod Framing
pub mod Payment
pub mod Parsing
unfoldable pub use Errors.*
unfoldable pub use Attempt.*
unfoldable pub use Product.*
