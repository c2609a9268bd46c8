-- ===== src/Api/TaskHandler/Transitions.antt =====
-- internal/api/task_handler.go: ClaimTask, StartTask, CompleteTask, FailTask and TaskHeartbeat.
use acb_go.Prelude.{String, Bool, not, ◌||◌, Option, none, some, ◌==◌, is_empty, if◌then◌else◌}
use acb_go.Models.{Status, is, Task}
use acb_go.Session.{
  M, publish, notify, dispatch_new, pure, get_env, deref, spawn, if_nil, or_respond, ◌>>=◌, ◌>>◌,
}
use acb_go.Db.TaskRepo.Reads.{get_by_id, check_parents_completed}
use acb_go.Db.TaskRepo.Transitions.{
  claim_task, start_task, complete_task, fail_task, FailTaskResult,
}
use acb_go.Db.TaskRepo.Expiry.{update_task_heartbeat}
use acb_go.Db.AgentRepo.{get_by_name, has_all}
use acb_go.Api.Response.{
  Response, task_json, status_json, write_json, write_error, write_error_safe, transition_error,
}

-- `if h.dispatcher != nil { go h.dispatcher.NotifyStatusChange(…) }`
unfoldable pub notify_change : Task → Status → Status → String → M (Unit {0})
notify_change task old new action = do
  present ← get_env (λ e. e.has_dispatcher)
  if present then spawn (notify task old new action) else pure tt

unfoldable pub invalid_json : M Response
invalid_json = pure (write_error 400 "invalid_json" "invalid request body")

unfoldable pub task_not_found : M Response
task_not_found = pure (write_error 404 "not_found" "task not found")

-- The end that ClaimTask, StartTask and CompleteTask share: publish, notify, answer.
unfoldable pub announce :
    String → Option Task → String → (Task → String) → String → Status → Status → String → M Response
announce id moved event agent summary old new action = do
  task ← deref moved
  spawn (publish event id (agent task) "" summary task.required_skills)
  notify_change task old new action
  pure (write_json 200 (task_json task))

-- From the check of the parents on.
unfoldable pub with_parents : String → Task → M Response → M Response
with_parents id task rest =
    if is_empty task.parents
    then rest
    else or_respond (check_parents_completed id) (λ x. write_error_safe 500 "check_parents_failed")
        λ parents_done.
          if parents_done
          then rest
          else pure (
              write_error 403 "parents_incomplete" "parent tasks must be completed before claiming")

unfoldable pub with_skills : Task → String → M Response → M Response
with_skills task assignee rest =
    if is_empty task.required_skills
    then rest
    else or_respond (get_by_name assignee) (λ x. write_error_safe 500 "get_agent_failed")
        λ agent. if_nil agent (pure (write_error 404 "agent_not_found" "agent not found")) λ a.
          if has_all a.skills task.required_skills
          then rest
          else pure (write_error 403 "missing_skills" "agent lacks required skills")

unfoldable pub claim_checked : String → String → Task → M Response
claim_checked id assignee task = with_parents id task (
    with_skills task assignee (
      or_respond (claim_task id assignee) (transition_error "claim_failed") λ claimed.
        announce id claimed "task_claimed" (λ _. assignee) "" task.status Status.claimed
          "task_claimed"))

-- `assignee` is the field of the decoded body.
unfoldable pub claim : String → Option String → M Response
claim id none = invalid_json
claim id (some assignee) =
    if assignee == ""
    then pure (write_error 400 "missing_assignee" "assignee is required")
    else or_respond (get_by_id id) (λ x. write_error_safe 500 "get_failed")
        λ task. if_nil task task_not_found (claim_checked id assignee)

unfoldable pub start : String → M Response
start id =
    or_respond (get_by_id id) (λ x. write_error_safe 500 "get_failed")
      λ task. if_nil task task_not_found λ t.
        or_respond (start_task id) (transition_error "start_failed") λ started.
          announce id started "task_started" Task.assignee "" t.status Status.in_progress
            "task_started"

unfoldable pub complete : String → Option String → M Response
complete id none = invalid_json
complete id (some summary) =
    or_respond (get_by_id id) (λ x. write_error_safe 500 "get_task_failed")
      λ task. if_nil task task_not_found λ t.
        or_respond (complete_task id summary) (transition_error "complete_failed") λ completed.
          announce id completed "task_completed" Task.assignee summary t.status Status.completed
            "task_completed"

-- The two ends of FailTask: the task was queued again, or it stays failed.
unfoldable pub after_fail : String → Status → FailTaskResult → M (Unit {0})
after_fail id old result =
    if result.did_retry
    then (do
      present ← get_env (λ e. e.has_dispatcher)
      if present
          then spawn (notify result.task old Status.pending "task_retried")
            >> spawn (dispatch_new result.task)
          else pure tt
      spawn (publish "new_task" id "" "" "" result.task.required_skills))
    else notify_change result.task old Status.failed "task_failed"

unfoldable pub fail : String → Option String → M Response
fail id none = invalid_json
fail id (some reason) =
    or_respond (get_by_id id) (λ x. write_error_safe 500 "get_task_failed")
      λ task. if_nil task task_not_found λ t.
        or_respond (fail_task id reason) (transition_error "fail_failed") λ result. do
          spawn
              (publish "task_failed" id result.task.assignee "" reason result.task.required_skills)
          after_fail id t.status result
          pure (write_json 200 (task_json result.task))

unfoldable pub is_alive : Task → Bool
is_alive t = is t.status Status.in_progress || is t.status Status.claimed

unfoldable pub task_heartbeat : String → M Response
task_heartbeat id =
    or_respond (get_by_id id) (λ x. write_error_safe 500 "get_failed")
      λ task. if_nil task task_not_found λ t.
        if not (is_alive t)
        then pure (
            write_error 409 "invalid_status"
              "heartbeat only allowed for claimed or in_progress tasks")
        else or_respond (update_task_heartbeat id) (λ x. write_error_safe 500 "heartbeat_failed")
            λ _. pure (write_json 200 (status_json "ok"))
