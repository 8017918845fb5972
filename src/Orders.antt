-- ===== src/Orders.antt =====
-- Orders: src/modules/order/order.service.ts, order.repository.ts, order.expiry.service.ts,
-- order-payment.service.ts.
pub mod Uuid
mod Creation
mod Quota
mod Cancellation
pub mod Reads
pub mod History
mod Place
mod Cancel
mod Expiry
pub mod Ledger
pub mod Placing
unfoldable pub use Creation.*
unfoldable pub use Quota.*
unfoldable pub use Cancellation.*
unfoldable pub use Place.*
unfoldable pub use Cancel.*
unfoldable pub use Expiry.*
