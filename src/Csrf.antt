-- ===== src/Csrf.antt =====
-- The protection against cross-site requests: src/common/csrf/.
mod Token
mod Guard
pub mod Signing
unfoldable pub use Token.*
unfoldable pub use Guard.*
