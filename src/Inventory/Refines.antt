-- ===== src/Inventory/Refines.antt =====
-- Every operation of app/services/inventory.py either raises and has written nothing, or has one
-- `Effect` on the transaction.
pub mod Outcome
mod Holding
mod Shipping
mod Counting
pub use Outcome.{Ends, owns_variant_id}
pub use Holding.*
pub use Shipping.*
pub use Counting.*
