-- ===== src/Api/Safety/Reads.antt =====
-- The handlers of internal/api/task_handler.go that only read, in every environment.
use acb_go.Prelude.{String, none, List, [], ◌∷◌, ◌==◌}
use acb_go.Models.{Task}
use acb_go.Session.Safe.{
  unknown, Safe, Safe-pure, Safe-then, Safe-if, Safe-if_nil, Safe-then_respond, safe_rules,
}
use acb_go.Db.TaskRepo.Reads.{
  list, get_tasks_by_ids, children_ids, get_dependency_graph, are_parents_completed,
}
use acb_go.Db.TaskRepo.Safety.{Safe-read, get_by_id-Safe}
use acb_go.Db.AgentRepo.{get_by_name}
use acb_go.Api.TaskHandler.Reads.{parents_done, matching, find_next_for_agent, dispatch_next}
use acb_go.Api.Safety.Tasks.{Answers, Answers-pure}

pub list-Safe :
    (status assignee : String) (skills : List String)
    → Safe unknown (list status assignee skills) (λ _. unknown)
unfolding list
list-Safe status assignee skills = search (safe_rules, Safe-read) depth 12

get_tasks_by_ids-Safe : (ids : List String) → Safe unknown (get_tasks_by_ids ids) (λ _. unknown)
unfolding get_tasks_by_ids
get_tasks_by_ids-Safe ids = search (safe_rules, Safe-read) depth 12

children_ids-Safe : (id : String) → Safe unknown (children_ids id) (λ _. unknown)
unfolding children_ids
children_ids-Safe id = search (safe_rules, Safe-read) depth 12

pub graph-Safe : (id : String) → Safe unknown (get_dependency_graph id) (λ _. unknown)
unfolding get_dependency_graph
graph-Safe id =
    Safe-then unknown (λ _. unknown) _ _ (get_by_id-Safe unknown id)
      λ o.
        Safe-if_nil (λ _. unknown) (λ _. unknown) o _ _ (Safe-pure unknown none)
          λ t. search (safe_rules, get_tasks_by_ids-Safe, children_ids-Safe) depth 12

parents_done-Safe : (t : Task) → Safe unknown (parents_done t) (λ _. unknown)
unfolding parents_done are_parents_completed
parents_done-Safe t = search (safe_rules, Safe-read) depth 12

matching-Safe :
    (skills : List String) (ts : List Task) → Safe unknown (matching skills ts) (λ _. unknown)
unfolding matching
matching-Safe skills [] = Safe-pure unknown []
matching-Safe skills (t ∷ ts) =
    Safe-then unknown (λ _. unknown) _ _ (parents_done-Safe t)
      λ done.
        Safe-then unknown (λ _. unknown) _ _ (matching-Safe skills ts) λ rest. search safe_rules

find_next-Safe : (name : String) → Safe unknown (find_next_for_agent name) (λ _. unknown)
unfolding find_next_for_agent get_by_name
find_next-Safe name =
    Safe-then unknown (λ _. unknown) _ _ (Safe-read unknown _)
      λ agent.
        Safe-if_nil (λ _. unknown) (λ _. unknown) agent _ _ (Safe-pure unknown none)
          λ a. search (safe_rules, list-Safe, matching-Safe) depth 12

pub dispatch_next-Safe : (agent : String) → Answers unknown (dispatch_next agent)
unfolding dispatch_next
dispatch_next-Safe agent =
    Safe-if unknown (λ _. unknown) (agent == "") _ _ (Answers-pure unknown _)
      (Safe-then_respond unknown _ _ _ (find_next-Safe agent) λ task.
        Safe-if_nil (λ _. unknown) (λ _. unknown) task _ _ (Answers-pure unknown _)
          (λ t. Answers-pure unknown _))
