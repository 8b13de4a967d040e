-- ===== src/Tasks.antt =====
-- app/tasks.py: the periodic jobs. Each runs in a session of its own and commits at its end. A
-- message to the owner of a shop is a row of the list that a job returns.
mod Renewals
mod Reservations
pub mod Expiry
pub mod Dead
pub mod LowStock
pub mod Turns
pub mod Charges
pub mod Grace
pub mod Tracking
pub mod Parcels
unfoldable pub use Renewals.*
unfoldable pub use Reservations.*
