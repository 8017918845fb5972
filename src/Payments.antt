-- ===== src/Payments.antt =====
-- Payments: src/modules/order/order-payment.service.ts, src/modules/payment/ and the idempotency
-- marks of src/modules/outbox/idempotency.repository.ts.
mod Once
mod Settling
pub mod Process
pub mod Signature
pub mod Laws
pub mod Acceptance
pub mod Signing
unfoldable pub use Once.*
unfoldable pub use Settling.*
