-- ===== src/Orders/Ledger.antt =====
-- Where the units of a SKU are: in its stock, or in orders that are not cancelled. The two together
-- are what the handlers of src/modules/order must not change.
mod Held
pub mod Creating
pub mod Cancelling
pub mod Outcome
pub mod Ending
pub mod Withdrawal
pub mod Sweeping
unfoldable pub use Held.*
