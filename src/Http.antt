-- ===== src/Http.antt =====
-- The HTTP edge of the program: the error classes of the modules, src/common/filters/, and the
-- controllers with the pipe that reads their bodies.
pub mod Errors
pub mod Filter
pub mod Answers
pub mod Probes
pub mod Routes
pub mod Repeating
pub mod Reused
pub mod Placing
pub mod Webhooks
pub mod Sessions
pub mod Leaving
