-- ===== src/Inventory.antt =====
-- Stock of a SKU and the three strategies that take it: src/modules/order/inventory-reserver.ts,
-- src/modules/order/strategies/ and the stock statements of src/modules/order/order.repository.ts.
mod Statements
mod Interface
pub mod Optimistic
pub mod Pessimistic
pub mod RedisAtomic
pub mod Stock
pub mod Contract
unfoldable pub use Statements.*
unfoldable pub use Interface.*
