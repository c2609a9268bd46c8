-- ===== src/Api/TaskHandler/Reads.antt =====
-- internal/api/task_handler.go: ListTasks, GetTask, TaskGraph and DispatchNext, with FindNextForAgent
-- of internal/dispatcher/dispatcher.go, which the last one calls.
use acb_go.Prelude.{
  String, Bool, true, false, ◌&&◌, Option, none, some, List, [], ◌∷◌, ◌==◌, is_empty, if◌then◌else◌,
}
use acb_go.Prelude.Int.{ltb_ℤ}
use acb_go.Models.{Task}
use acb_go.Session.{M, pure, on_error, if_nil, or_respond, ◌>>=◌}
use acb_go.Db.TaskRepo.Reads.{get_by_id, list, get_dependency_graph, are_parents_completed}
use acb_go.Db.AgentRepo.{get_by_name, has_all}
use acb_go.Api.Response.{
  Response, task_json, tasks_json, graph_json, no_body, write_json, write_error, write_error_safe,
}
use acb_go.Api.TaskHandler.Transitions.{task_not_found}

unfoldable pub list_tasks : String → String → List String → M Response
list_tasks status assignee required =
    or_respond (list status assignee required) (λ x. write_error_safe 500 "list_failed")
      λ tasks. pure (write_json 200 (tasks_json tasks))

unfoldable pub get_task : String → M Response
get_task id =
    or_respond (get_by_id id) (λ x. write_error_safe 500 "get_failed")
      λ task. if_nil task task_not_found λ t. pure (write_json 200 (task_json t))

unfoldable pub task_graph : String → M Response
task_graph id =
    or_respond (get_dependency_graph id) (λ x. write_error_safe 500 "graph_failed")
      λ graph. if_nil graph task_not_found λ g. pure (write_json 200 (graph_json g))

-- The test of the parents in the loop of FindNextForAgent; an error counts as not done.
unfoldable pub parents_done : Task → M Bool
parents_done t =
    if is_empty t.parents
    then pure true
    else on_error (are_parents_completed t.parents) (λ x. pure false)

unfoldable pub matching : List String → List Task → M (List Task)
matching skills [] = pure []
matching skills (t ∷ ts) = parents_done t >>= λ done. matching skills ts >>= λ rest.
    if done && has_all skills t.required_skills then pure (t ∷ rest) else pure rest

-- The lowest number is the highest priority, and the first task wins a tie.
unfoldable pub best_of : Task → List Task → Task
best_of best [] = best
best_of best (t ∷ ts) = best_of (if ltb_ℤ t.priority best.priority then t else best) ts

unfoldable pub best : List Task → Option Task
best [] = none
best (t ∷ ts) = some (best_of t ts)

unfoldable pub find_next_for_agent : String → M (Option Task)
find_next_for_agent name = get_by_name name >>= λ agent.
    if_nil agent (pure none)
      λ a. list "pending" "" [] >>= λ tasks. matching a.skills tasks >>= λ found. pure (best found)

unfoldable pub dispatch_next : String → M Response
dispatch_next agent =
    if agent == ""
    then pure (write_error 400 "missing_agent" "agent query parameter is required")
    else or_respond (find_next_for_agent agent) (λ x. write_error_safe 500 "dispatch_failed")
        λ task. if_nil task (pure (write_json 204 no_body)) λ t. pure (write_json 200 (task_json t))
