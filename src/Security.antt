-- ===== src/Security.antt =====
-- app/security: what the program itself decides; the cryptography is left to libraries.
mod RateLimit
pub mod Window
unfoldable pub use RateLimit.*
