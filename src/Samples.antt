-- ===== src/Samples.antt =====
-- Concrete tables and requests, on which the theorems are applied.
pub mod Shelf
mod StockRuns
mod OrderRuns
pub mod BillingRuns
mod JobRuns
mod AccessRuns
mod CheckoutRuns
mod ParcelRuns
mod CatalogRuns
mod TeamRuns
