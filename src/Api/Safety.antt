-- ===== src/Api/Safety.antt =====
-- The handlers in every environment.
pub mod Tasks
pub mod Gates
pub mod Ownership
pub mod Reads
pub mod Events
pub mod Total
pub mod Serve
