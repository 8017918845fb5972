-- ===== src/Pages.antt =====
-- Lists read page by page: src/common/pagination/cursor.ts, and the keyset queries of the
-- repositories that use it.
mod Cursor
mod Keyset
pub mod RoundTrip
pub mod Walk
unfoldable pub use Cursor.*
unfoldable pub use Keyset.*
