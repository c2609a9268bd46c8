-- ===== src/Session/Safe.antt =====
-- What holds of a request in every environment: it never dereferences nil, and all that happens to
-- the tables meanwhile is a sequence of issued statements.
pub mod Facts
pub mod Rules
pub use Facts.*
pub use Rules.*
