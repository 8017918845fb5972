-- ===== src/Store.antt =====
-- The rows of the PostgreSQL tables that the modules share, the errors that a call may end in, and
-- calls as functions of a state (src/modules/order, src/modules/sale-event, prisma/schema.prisma).
mod Rows
mod Effects
mod State
pub use Rows.*
pub use Effects.*
pub use State.*
