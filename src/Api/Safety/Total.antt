-- ===== src/Api/Safety/Total.antt =====
-- A handler turns every error of a repository into a response.
use acb_go.Prelude.{String, Option, none, some, arith}
use acb_go.Models.{Status, Task}
use acb_go.Session.{pure}
use acb_go.Api.Safety.Events.{list_events-NoError, list_global_events-NoError}
use acb_go.Session.Total.{NoError, total_rules}
use acb_go.Api.TaskHandler.Create.{
  CreateInput, choose_id, dispatch, store_task, checked, create_task,
}
use acb_go.Api.TaskHandler.Transitions.{
  notify_change, invalid_json, task_not_found, announce, with_parents, with_skills, claim_checked,
  claim, start, complete, fail, after_fail, task_heartbeat,
}
use acb_go.Api.TaskHandler.Gates.{
  BlockInput, open_gate, block, resume, unblock, with_gate, answer, approve, list_gates,
}
use acb_go.Api.TaskHandler.Reads.{list_tasks, get_task, task_graph, dispatch_next}
use acb_go.Api.Server.{
  Request, post_task, post_claim, post_unblock, post_complete, post_fail, post_start, post_block,
  post_answer, post_approve, get_task_events, get_events, serve,
}

announce-NoError :
    (id : String) (o : Option Task) (event : String) (agent : Task → String) (summary : String)
    (old new : Status) (action : String)
    → NoError (announce id o event agent summary old new action)
unfolding announce notify_change
announce-NoError id o event agent summary old new action = search total_rules depth 20

claim-NoError : (id : String) (input : Option String) → NoError (claim id input)
unfolding claim claim_checked with_parents with_skills invalid_json task_not_found
claim-NoError id none = search total_rules
claim-NoError id (some a) = search (total_rules, announce-NoError) depth 20

complete-NoError : (id : String) (input : Option String) → NoError (complete id input)
unfolding complete invalid_json task_not_found
complete-NoError id none = search total_rules
complete-NoError id (some a) = search (total_rules, announce-NoError) depth 20

fail-NoError : (id : String) (input : Option String) → NoError (fail id input)
unfolding fail after_fail notify_change invalid_json task_not_found
fail-NoError id none = search total_rules
fail-NoError id (some a) = search total_rules depth 20

block-NoError : (id : String) (input : Option BlockInput) → NoError (block id input)
unfolding block open_gate notify_change invalid_json task_not_found
block-NoError id none = search total_rules
block-NoError id (some a) = search total_rules depth 20

unblock-NoError : (id : String) (input : Option String) → NoError (unblock id input)
unfolding unblock resume notify_change invalid_json task_not_found
unblock-NoError id none = search total_rules
unblock-NoError id (some a) = search total_rules depth 20

answer-NoError : (id gate_id : String) (input : Option String) → NoError (answer id gate_id input)
unfolding answer with_gate invalid_json
answer-NoError id gate_id none = search total_rules
answer-NoError id gate_id (some a) = search total_rules depth 20

approve-NoError : (id gate_id : String) (input : Option String) → NoError (approve id gate_id input)
unfolding approve with_gate invalid_json
approve-NoError id gate_id none = search total_rules
approve-NoError id gate_id (some a) = search total_rules depth 20

store_task-NoError : (t : Task) → NoError (store_task t)
unfolding store_task dispatch
store_task-NoError t = search total_rules depth 20

choose_id-NoError : (id : String) → NoError (choose_id id)
unfolding choose_id pure
choose_id-NoError id = record { at = λ e w x h. ground arith }

create_task-NoError : (input : Option CreateInput) → NoError (create_task input)
unfolding create_task checked
create_task-NoError none = search total_rules
create_task-NoError (some input) =
    search (total_rules, choose_id-NoError, store_task-NoError) depth 20

pub serve-NoError : (q : Request) → NoError (serve q)
unfolding serve list_tasks get_task task_graph list_gates start task_heartbeat dispatch_next
    task_not_found
serve-NoError (post_task input) = create_task-NoError input
serve-NoError (post_claim id assignee) = claim-NoError id assignee
serve-NoError (post_unblock id gate_id) = unblock-NoError id gate_id
serve-NoError (post_complete id summary) = complete-NoError id summary
serve-NoError (post_fail id reason) = fail-NoError id reason
serve-NoError (post_block id input) = block-NoError id input
serve-NoError (post_answer id gate_id text) = answer-NoError id gate_id text
serve-NoError (post_approve id gate_id text) = approve-NoError id gate_id text
serve-NoError (post_start id) = search (total_rules, announce-NoError) depth 20
serve-NoError (get_task_events id) = list_events-NoError id
serve-NoError (get_events q) = list_global_events-NoError q
serve-NoError _ = search total_rules depth 20
