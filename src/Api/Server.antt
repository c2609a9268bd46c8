-- ===== src/Api/Server.antt =====
-- internal/api/router.go: the routes of the tasks and their gates. A request is what the router and
-- the JSON decoder make of it; the authentication in front of them
-- is in Service.
use acb_go.Prelude.{String, Option, List}
use acb_go.Session.{M}
use acb_go.Api.Response.{Response}
use acb_go.Api.TaskHandler.Create.{CreateInput, create_task}
use acb_go.Api.TaskHandler.Transitions.{claim, start, complete, fail, task_heartbeat}
use acb_go.Api.TaskHandler.Gates.{BlockInput, block, unblock, answer, approve, list_gates}
use acb_go.Api.TaskHandler.Events.{EventsQuery, list_events, list_global_events}
use acb_go.Api.TaskHandler.Reads.{list_tasks, get_task, task_graph, dispatch_next}

pub data Request : Type 0 where
  post_task : Option CreateInput → Request
  get_tasks : String → String → List String → Request
  get_one get_graph get_gates : (id : String) → Request
  post_claim post_unblock post_complete post_fail : (id : String) → Option String → Request
  post_start post_heartbeat : (id : String) → Request
  post_block : (id : String) → Option BlockInput → Request
  post_answer post_approve : (id gate_id : String) → Option String → Request
  get_dispatch : (agent : String) → Request
  get_task_events : (id : String) → Request
  get_events : EventsQuery → Request

unfoldable pub serve : Request → M Response
serve (post_task input) = create_task input
serve (get_tasks status assignee skills) = list_tasks status assignee skills
serve (get_one id) = get_task id
serve (get_graph id) = task_graph id
serve (get_gates id) = list_gates id
serve (post_claim id assignee) = claim id assignee
serve (post_unblock id gate_id) = unblock id gate_id
serve (post_complete id summary) = complete id summary
serve (post_fail id reason) = fail id reason
serve (post_start id) = start id
serve (post_heartbeat id) = task_heartbeat id
serve (post_block id input) = block id input
serve (post_answer id gate_id text) = answer id gate_id text
serve (post_approve id gate_id text) = approve id gate_id text
serve (get_dispatch agent) = dispatch_next agent
serve (get_task_events id) = list_events id
serve (get_events q) = list_global_events q
