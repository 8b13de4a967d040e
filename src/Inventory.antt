-- ===== src/Inventory.antt =====
-- app/services/inventory.py: every operation on stock.
mod Ttn
mod Tables
mod Reservations
mod Stock
pub mod Effect
pub mod Refines
pub mod Invariant
pub mod Calls
pub mod History
pub mod Lifecycle
pub mod Isolation
pub mod Accepts
pub use Ttn.{validate_ttn}
unfoldable pub use Tables.*
unfoldable pub use Reservations.*
unfoldable pub use Stock.*
