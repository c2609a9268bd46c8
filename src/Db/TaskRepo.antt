-- ===== src/Db/TaskRepo.antt =====
-- internal/db/task_repo.go: the repository of tasks.
pub mod Reads
pub mod Transitions
pub mod Expiry
pub mod Artifacts
pub mod Listing
pub mod Safety
pub mod Update
pub mod Quiet
pub mod Moves
pub mod Failing
pub mod Sweeps
pub mod Timeouts
