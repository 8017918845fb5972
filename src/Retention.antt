-- ===== src/Retention.antt =====
-- The clean-up of the two tables that only grow: src/modules/retention/.
mod Sweep
pub mod Batches
pub mod Bounds
unfoldable pub use Sweep.*
