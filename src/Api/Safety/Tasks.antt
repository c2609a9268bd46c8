-- ===== src/Api/Safety/Tasks.antt =====
-- The handlers of internal/api/task_handler.go that move a task, in every environment.
use acb_go.Prelude.{String, ◌≡◌, refl, Option, none, some, ◌==◌, is_empty}
use acb_go.Prelude.Int.{pos}
use acb_go.Models.{Status, Task}
use acb_go.Config.{Config}
use acb_go.Session.{M, Error, pure, if_nil, or_respond}
use acb_go.Session.Safe.{
  Post-if, Safe-get_env, Safe-spawn, Safe-seq, Fact, unreached, unknown, row, Safe, Safe-pure,
  Safe-return, Safe-throw, Safe-query, Safe-exec, Safe-bind, Safe-then, Safe->>, Safe-if,
  Safe-if_nil, Safe-on_error, Safe-forget, Safe-deref, Safe-unreached, Safe-or_respond,
  Safe-then_respond, if_found, not_nil, safe_rules,
}
use acb_go.Db.TaskRepo.Reads.{get_by_id}
use acb_go.Db.TaskRepo.Transitions.{FailTaskResult}
use acb_go.Db.TaskRepo.Expiry.{update_task_heartbeat}
use acb_go.Db.TaskRepo.Safety.{
  Safe-read, lookup-Safe, reread-Safe, get_by_id-Safe, create-Safe, claim_task-Safe,
  start_task-Safe, complete_task-Safe, fail_task-Safe, check_parents_completed-Safe, repo_rules,
}
use acb_go.Db.AgentRepo.{get_by_name}
use acb_go.Api.Response.{Response}
use acb_go.Api.TaskHandler.Create.{
  CreateInput, choose_id, new_task, dispatch, store_task, checked, create_task,
}
use acb_go.Api.TaskHandler.Transitions.{
  notify_change, invalid_json, task_not_found, announce, with_parents, with_skills, claim_checked,
  claim, start, complete, fail, after_fail, task_heartbeat,
}

-- A handler's answer teaches nothing.
abbrev pub Answers : Fact → M Response → Type 0
Answers k m = Safe k m (λ _. unknown)

pub Answers-pure : (k : Fact) (r : Response) → Answers k (pure r)
Answers-pure k r = Safe-forget k _ _ (Safe-pure unknown r)

pub Answers-invalid_json : (k : Fact) → Answers k invalid_json
unfolding invalid_json
Answers-invalid_json k = Answers-pure k _

pub Answers-not_found : (k : Fact) → Answers k task_not_found
unfolding task_not_found
Answers-not_found k = Answers-pure k _

-- `get_by_id`, its two early returns, and the rest with the task in the tables.
pub Answers-lookup :
    (id : String) (bad : Error → Response) (g : Task → M Response)
    → ((t : Task) → Answers (row id) (g t))
    → Answers unknown (or_respond (get_by_id id) bad λ o. if_nil o task_not_found g)
Answers-lookup id bad g sg =
    Safe-or_respond unknown (if_found id) _ bad _ (lookup-Safe id)
      λ o. Safe-if_nil (if_found id) (λ _. unknown) o _ g (Answers-not_found unknown) sg

pub notify_change-Safe :
    (k : Fact) (t : Task) (old new : Status) (action : String)
    → Safe k (notify_change t old new action) (λ _. k)
unfolding notify_change
notify_change-Safe k t old new action = search safe_rules depth 12

pub ruleset answer_rules = (
  Safe-then, Safe->>, Safe-then_respond, Safe-if, Safe-get_env, Safe-spawn, Answers-pure,
  notify_change-Safe, Safe-read,
)

announce-Safe :
    (id : String) (o : Option Task) (event : String) (agent : Task → String) (summary : String)
    (old new : Status) (action : String)
    → Answers (not_nil id o) (announce id o event agent summary old new action)
unfolding announce
announce-Safe id o event agent summary old new action =
    Safe-bind (not_nil id o) (λ _. row id) (λ _. unknown) _ _ (Safe-deref id o)
      λ t. search answer_rules depth 12

with_parents-Safe :
    (id : String) (t : Task) (rest : M Response)
    → Answers (row id) rest
    → Answers (row id) (with_parents id t rest)
unfolding with_parents
with_parents-Safe id t rest sr = search (answer_rules, check_parents_completed-Safe) depth 12

with_skills-Safe :
    (k : Fact) (t : Task) (assignee : String) (rest : M Response)
    → Answers k rest
    → Answers k (with_skills t assignee rest)
unfolding with_skills get_by_name
with_skills-Safe k t assignee rest sr =
    Safe-if k (λ _. unknown) (is_empty t.required_skills) _ _ sr
      (Safe-then_respond k _ _ _ (Safe-read k _) λ agent.
        Safe-if_nil (λ _. k) (λ _. unknown) agent _ _ (Answers-pure k _)
          (λ a. Safe-if k (λ _. unknown) _ _ _ sr (Answers-pure k _)))

claim_checked-Safe :
    (id assignee : String) (t : Task) → Answers (row id) (claim_checked id assignee t)
unfolding claim_checked
claim_checked-Safe id assignee t = with_parents-Safe id t _ (
    with_skills-Safe (row id) t assignee _ (
      Safe-or_respond (row id) (not_nil id) _ _ _ (claim_task-Safe id assignee)
        (λ o. announce-Safe id o _ _ _ _ _ _)))

pub claim-Safe : (id : String) (input : Option String) → Answers unknown (claim id input)
unfolding claim
claim-Safe id none = Answers-invalid_json unknown
claim-Safe id (some assignee) =
    Safe-if unknown (λ _. unknown) (assignee == "") _ _ (Answers-pure unknown _)
      (Answers-lookup id _ _ (claim_checked-Safe id assignee))

pub start-Safe : (id : String) → Answers unknown (start id)
unfolding start
start-Safe id = Answers-lookup id _ _ λ t.
    Safe-or_respond (row id) (not_nil id) _ _ _ (start_task-Safe id)
      (λ o. announce-Safe id o _ _ _ _ _ _)

pub complete-Safe : (id : String) (input : Option String) → Answers unknown (complete id input)
unfolding complete
complete-Safe id none = Answers-invalid_json unknown
complete-Safe id (some summary) = Answers-lookup id _ _ λ t.
    Safe-or_respond (row id) (not_nil id) _ _ _ (complete_task-Safe id summary)
      (λ o. announce-Safe id o _ _ _ _ _ _)

after_fail-Safe :
    (k : Fact) (id : String) (old : Status) (result : FailTaskResult)
    → Safe k (after_fail id old result) (λ _. k)
unfolding after_fail
after_fail-Safe k id old result = search (safe_rules, notify_change-Safe) depth 14

pub fail-Safe : (id : String) (input : Option String) → Answers unknown (fail id input)
unfolding fail
fail-Safe id none = Answers-invalid_json unknown
fail-Safe id (some reason) =
    Answers-lookup id _ _ λ t. search (answer_rules, fail_task-Safe, after_fail-Safe) depth 14

pub task_heartbeat-Safe : (id : String) → Answers unknown (task_heartbeat id)
unfolding task_heartbeat update_task_heartbeat
task_heartbeat-Safe id = Answers-lookup id _ _ λ t. search (answer_rules, safe_rules) depth 14

dispatch-Safe : (id : String) (o : Option Task) → Safe (not_nil id o) (dispatch o) (λ _. unknown)
unfolding dispatch
dispatch-Safe id o =
    Safe-then (not_nil id o) (λ _. unknown) _ _ (Safe-get_env (not_nil id o) _)
      λ present.
        Safe-if (not_nil id o) (λ _. unknown) present _ _
          (Safe-bind (not_nil id o) (λ _. row id) (λ _. unknown) _ _ (Safe-deref id o)
            (λ t. Safe-forget (row id) _ _ (Safe-spawn unknown _)))
          (Safe-forget (not_nil id o) _ _ (Safe-pure unknown tt))

-- Between the INSERT and the SELECT nobody can take the task away.
store_task-Safe :
    (t : Task) → t.status ≡ Status.unset → t.retry_count ≡ pos 0 → Answers unknown (store_task t)
unfolding store_task
store_task-Safe t e z =
    Safe-or_respond unknown (λ _. row t.id) _ _ _ (create-Safe t e z)
      λ _. Safe-or_respond (row t.id) (not_nil t.id) _ _ _ (reread-Safe t.id) λ o.
        Safe->> (not_nil t.id o) (λ _. unknown) _ _ (Safe-spawn (not_nil t.id o) _)
          (Safe-seq (not_nil t.id o) unknown (λ _. unknown) _ _ (dispatch-Safe t.id o)
            (Answers-pure unknown _))

new_task-Safe :
    (id : String) (input : CreateInput) → Answers unknown (store_task (new_task id input))
unfolding new_task
new_task-Safe id input = store_task-Safe _ refl refl

choose_id-Safe : (id : String) → Safe unknown (choose_id id) (λ _. unknown)
unfolding choose_id
choose_id-Safe id = record {
  at = λ e f w h.
      Post-if unknown (id == "") w.store _ _ ((Safe-pure unknown _).at e f w h)
        ((Safe-pure unknown id).at e f w h);
}

checked-Safe :
    (cfg : Option Config) (input : CreateInput) (rest : M Response)
    → Answers unknown rest
    → Answers unknown (checked cfg input rest)
unfolding checked
checked-Safe cfg input rest sr = search (Safe-if, Answers-pure) depth 12

pub create_task-Safe : (input : Option CreateInput) → Answers unknown (create_task input)
unfolding create_task
create_task-Safe none = Answers-pure unknown _
create_task-Safe (some input) =
    Safe-if unknown (λ _. unknown) (input.title == "") _ _ (Answers-pure unknown _)
      (Safe-then unknown (λ _. unknown) _ _ (choose_id-Safe input.id)
        λ id.
          Safe-then unknown (λ _. unknown) _ _ (Safe-get_env unknown _)
            λ cfg. checked-Safe cfg input _ (new_task-Safe id input))
