-- ===== src/Api/TaskHandler.antt =====
-- internal/api/task_handler.go. A request whose body is not JSON comes as `none`.
pub mod Create
pub mod Transitions
pub mod Gates
pub mod Reads
pub mod Events
