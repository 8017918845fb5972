-- ===== src/Inventory/Contract.antt =====
-- The three strategies keep the contract of InventoryReserver: `verdict` and `take_stock`.
mod Conditional
mod Redis
mod Counter
pub use Conditional.*
pub use Redis.*
pub use Counter.*
