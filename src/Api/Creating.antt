-- ===== src/Api/Creating.antt =====
-- CreateTask of internal/api/task_handler.go.
pub mod Handler
pub mod Spec
