-- ===== src/Timeout/Service.antt =====
-- internal/timeout/timeout.go: one check, and the loop.
use acb_go.Prelude.{ℕ, suc, zero, Bool, ◌&&◌, List, [], ◌∷◌, if◌then◌else◌}
use acb_go.Prelude.Int.{ℤ, pos, ltb_ℤ}
use acb_go.Models.{Agent}
use acb_go.Session.{M, pure, on_error, ◌>>=◌, ◌>>◌}
use acb_go.Db.TaskRepo.Expiry.{
  minutes, expire_pending_tasks, expire_stale_in_progress_tasks, release_agent_tasks,
}
use acb_go.Db.AgentRepo.{list_stale}

-- The service's fields; `has_agent_repo` says that `agentRepo` is not nil.
pub record TimeoutService : Type 0 where
  pub pending_timeout_min : ℤ
  pub task_timeout_min : ℤ
  pub agent_stale_min : ℤ
  pub has_agent_repo : Bool

-- The errors are logged, and the next step runs.
unfoldable pub check_pending : TimeoutService → M (Unit {0})
check_pending s =
    if ltb_ℤ (pos 0) s.pending_timeout_min
    then on_error (expire_pending_tasks s.pending_timeout_min >>= λ ids. pure tt) (λ x. pure tt)
    else pure tt

unfoldable pub check_tasks : TimeoutService → M (Unit {0})
check_tasks s =
    if ltb_ℤ (pos 0) s.task_timeout_min
    then on_error (expire_stale_in_progress_tasks s.task_timeout_min >>= λ ids. pure tt)
        (λ x. pure tt)
    else pure tt

unfoldable pub release_each : List Agent → M (Unit {0})
release_each [] = pure tt
release_each (a ∷ rest) =
    on_error (release_agent_tasks a.name >>= λ ids. pure tt) (λ x. pure tt) >> release_each rest

unfoldable pub check_agents : TimeoutService → M (Unit {0})
check_agents s =
    if ltb_ℤ (pos 0) s.agent_stale_min && s.has_agent_repo
    then on_error (list_stale (minutes s.agent_stale_min) >>= release_each) (λ x. pure tt)
    else pure tt

unfoldable pub check : TimeoutService → M (Unit {0})
check s = check_pending s >> (check_tasks s >> check_agents s)

-- The first check, and one for each tick until the service is stopped.
unfoldable pub run_service : TimeoutService → (ticks : ℕ) → M (Unit {0})
run_service s zero = check s
run_service s (suc ticks) = run_service s ticks >> check s
