-- ===== src/Lifecycle.antt =====
-- What the rows go through, in every order of statements that the service can issue.
pub mod Keys
pub mod Gates
pub mod Tasks
pub mod Claims
pub mod Parents
