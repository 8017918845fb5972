-- ===== src/SaleEvents.antt =====
-- Sale events: src/modules/sale-event/sale-event.repository.ts, sale-event.service.ts and
-- sale-event.dto.ts. Units move from a SKU to the event when it is published, and what is left of
-- them moves back when it is closed.
mod Publishing
mod Closing
pub mod Status
pub mod Drafting
pub mod Repeating
pub mod Allocation
pub mod Returning
pub mod Once
unfoldable pub use Publishing.*
unfoldable pub use Closing.*
