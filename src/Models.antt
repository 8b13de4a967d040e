-- ===== src/Models.antt =====
-- app/models.py: the tables that the services read and write.
mod Stock
mod Plans
mod Errors
mod Shops
pub use Stock.*
unfoldable pub use Plans.*
pub use Errors.*
pub use Shops.*
