-- ===== src/Auth.antt =====
-- Accounts and sessions: src/modules/auth/ and the counters of src/infra/redis/redis.service.ts and
-- src/common/security/ip-rate-limit.guard.ts.
mod Rows
mod Repository
mod Counters
mod Service
pub mod Guards
pub mod Rotation
pub mod Entry
pub mod Race
pub mod Replay
unfoldable pub use Rows.*
unfoldable pub use Repository.*
unfoldable pub use Counters.*
unfoldable pub use Service.*
