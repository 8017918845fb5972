-- ===== src/Tests.antt =====
-- Runs on a small shop, and the theorems at inputs that meet their hypotheses.
mod Shop
mod Stock
mod Placing
mod Cancelling
mod Paying
mod Selling
mod Relaying
mod Entering
mod Signing
mod Mailing
mod Paging
mod Cleaning
mod Working
mod Guarding
mod Naming
mod Racing
mod Serving
