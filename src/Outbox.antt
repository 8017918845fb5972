-- ===== src/Outbox.antt =====
-- The outbox: src/modules/outbox/outbox.repository.ts and outbox.relay.ts. Rows that `createOrder`
-- wrote are put into the queue and then marked.
mod Rounds
pub mod Delivery
pub mod Blocking
unfoldable pub use Rounds.*
