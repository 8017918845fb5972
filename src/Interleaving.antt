-- ===== src/Interleaving.antt =====
-- Order calls, cancellations and payments that run at the same time.
pub mod Calls
pub mod Keys
pub mod Statements
pub mod Writing
pub mod Balance
pub mod Advancing
pub mod Runs
pub mod Alone
pub mod Paying
