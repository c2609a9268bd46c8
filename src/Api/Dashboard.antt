-- ===== src/Api/Dashboard.antt =====
-- internal/api/dashboard_handler.go: Dashboard.
pub mod Agreement
use acb_go.Prelude.{
  ℕ, ◌*◌, String, Bool, true, ◌&&◌, Option, none, some, List, [], ◌∷◌, ◌++◌, length, ltb,
  if◌then◌else◌,
}
use acb_go.Prelude.Int.{ℤ, pos, ltb_ℤ}
use acb_go.Db.TaskRepo.Expiry.{minutes}
use acb_go.Api.Grouping.{group_tasks_by_status}
use acb_go.Models.{Status, Task, Agent}
use acb_go.Session.{M, pure, on_error, or_respond, ◌>>=◌}
use acb_go.Db.TaskRepo.Reads.{TaskCounts, list, get_task_counts}
use acb_go.Db.AgentRepo.{list_stale}
use acb_go.Api.Response.{Response, dashboard_json, write_json, write_error_safe}

pub record DashboardHandler : Type 0 where
  pub stale_agent_min : ℤ
  pub has_agent_repo : Bool

unfoldable pub stale_count : DashboardHandler → M ℕ
stale_count h =
    if ltb_ℤ (pos 0) h.stale_agent_min && h.has_agent_repo
    then on_error (list_stale (minutes h.stale_agent_min) >>= λ agents. pure (length agents))
        (λ x. pure 0)
    else pure 0

unfoldable pub dashboard : DashboardHandler → M Response
dashboard h =
    or_respond get_task_counts (λ x. write_error_safe 500 "counts_failed")
      λ counts.
        or_respond (list "" "" []) (λ x. write_error_safe 500 "list_failed")
          λ tasks. do
            stale ← stale_count h
            pure (
                write_json 200
                  (dashboard_json counts (group_tasks_by_status tasks) stale counts.total))
