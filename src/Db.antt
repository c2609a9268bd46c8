-- ===== src/Db.antt =====
-- internal/db: the tables, the statements that write them, and the repositories.
pub mod Rows
pub mod Store
pub mod Statement
pub mod TaskRepo
pub mod GateRepo
pub mod AgentRepo
pub mod EventRepo
pub mod Secrets
pub mod Migrations
