-- ===== src/Api/Response.antt =====
-- internal/api/response.go: what a handler answers. A body is the value that is encoded as JSON.
use acb_go.Prelude.{ℕ, String, Option, List}
use acb_go.Prelude.Int.{ℤ}
use acb_go.Models.{Status, Task, Gate, Agent, Artifact}
use acb_go.Db.EventRepo.{ListedEvent}
use acb_go.Db.TaskRepo.Reads.{TaskGraph, TaskCounts}
use acb_go.Api.Grouping.{Grouped}
use acb_go.Session.{Error, conflict, Blob}

-- componentStatus of health.go.
pub record ComponentStatus : Type 0 where
  pub status : String
  pub error : String

pub data Body : Type 0 where
  error_response : (code message : String) → Body
  conflict_response : (code message : String) → Status → Body
  task_json : Task → Body
  task_or_null : Option Task → Body
  tasks_json : List Task → Body
  graph_json : TaskGraph → Body
  gates_json : List Gate → Body
  events_json : List ListedEvent → Body
  gate_json : (gate_id status : String) → Body
  status_json : String → Body
  cursor_json : Option ℤ → Body
  agent_json : Agent → Body
  artifact_json : Artifact → Body
  artifacts_json : List Artifact → Body
  object_body : Blob → Body
  health_json : (status : String) → List (String × ComponentStatus) → Body
  dashboard_json : TaskCounts → Grouped → (stale total : ℕ) → Body
  no_body : Body

pub record Response : Type 0 where
  pub code : ℕ
  pub body : Body

unfoldable pub write_json : ℕ → Body → Response
write_json code body = record { code = code; body = body }

unfoldable pub write_error : ℕ → String → String → Response
unfolding write_json
write_error code error message = write_json code (error_response error message)

unfoldable pub write_error_safe : ℕ → String → Response
unfolding write_error
write_error_safe code error = write_error code error "internal server error"

unfoldable pub write_conflict : String → String → Status → Response
unfolding write_json
write_conflict error message current = write_json 409 (conflict_response error message current)

-- The answer to a transition that failed: `errors.As` picks the conflicts.
unfoldable pub transition_error : String → Error → Response
unfolding write_conflict write_error_safe
transition_error error (conflict current message) = write_conflict error message current
transition_error error _ = write_error_safe 409 error
