-- ===== src/Api/Claiming.antt =====
-- ClaimTask of internal/api/task_handler.go, run alone: every branch of the handler.
pub mod Spec
pub mod Checks
pub mod Handler
