-- ===== src/Api/Unblocking.antt =====
-- UnblockTask of internal/api/task_handler.go, run alone: every branch of the handler.
pub mod Gate
pub mod Handler
