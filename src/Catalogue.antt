-- ===== src/Catalogue.antt =====
-- Products and their variants: src/modules/product/.
pub mod Rows
pub mod Slug
pub mod Code
pub mod Repository
pub mod Service
pub mod Naming
pub mod Creation
pub mod Reading
