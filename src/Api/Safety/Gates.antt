-- ===== src/Api/Safety/Gates.antt =====
-- The handlers of internal/api/task_handler.go that work on gates, in every environment.
use acb_go.Prelude.{String, Option, none, some, ◌==◌, ◌||◌}
use acb_go.Models.{Status, GateStatus, Task}
use acb_go.Db.Statement.{GateUpdate}
use acb_go.Session.{M}
use acb_go.Session.Safe.{
  Fact, unknown, row, Safe, Safe-if, Safe-if_nil, Safe-deref, Safe-bind, Safe-or_respond,
  Safe-then_respond, not_nil, Safe-reached, safe_rules,
}
use acb_go.Db.TaskRepo.Safety.{Safe-read, reread-Safe, block_task-Safe, update_status-Safe}
use acb_go.Db.GateRepo.{
  create_gate, get_by_task_id, get_gate_by_id, move_gate, ask_gate, answer_gate, resolve_gate,
}
use acb_go.Api.Response.{Response}
use acb_go.Api.TaskHandler.Gates.{
  BlockInput, new_gate, open_gate, block, resume, unblock, with_gate, answer, approve, list_gates,
}
use acb_go.Api.Safety.Tasks.{
  Answers, Answers-pure, Answers-invalid_json, Answers-lookup, answer_rules,
}

create_gate-Safe :
    (k : Fact) (id : String) (input : BlockInput)
    → Safe k (create_gate (new_gate id input)) (λ _. k)
unfolding create_gate new_gate
create_gate-Safe k id input = search safe_rules depth 12

open_gate-Safe :
    (id : String) (input : BlockInput) (old : Status) (o : Option Task)
    → Answers (not_nil id o) (open_gate id input old o)
unfolding open_gate
open_gate-Safe id input old o =
    Safe-then_respond (not_nil id o) _ _ _ (create_gate-Safe (not_nil id o) id input) λ _.
      Safe-bind (not_nil id o) (λ _. row id) (λ _. unknown) _ _ (Safe-deref id o)
        λ t. search answer_rules depth 12

pub block-Safe : (id : String) (input : Option BlockInput) → Answers unknown (block id input)
unfolding block
block-Safe id none = Answers-invalid_json unknown
block-Safe id (some input) =
    Safe-if unknown (λ _. unknown) (input.gate_id == "" || input.question == "") _ _
      (Answers-pure unknown _)
      (Answers-lookup id _ _ λ t.
        Safe-or_respond (row id) (not_nil id) _ _ _ (block_task-Safe id) λ b.
          Safe-reached id b _ (λ _. unknown)
            (Safe-or_respond (row id) (not_nil id) _ _ _ (reread-Safe id)
              (open_gate-Safe id input t.status)))

pub move_gate-Safe :
    (k : Fact) (u : GateUpdate) (id : String) (s : GateStatus) → Safe k (move_gate u id s) (λ _. k)
unfolding move_gate
move_gate-Safe k u id s = search safe_rules depth 12

ruleset gate_rules = (answer_rules, move_gate-Safe)

resume-Safe :
    (id gate_id : String) (old : Status) (o : Option Task)
    → Answers (not_nil id o) (resume id gate_id old o)
unfolding resume
resume-Safe id gate_id old o =
    Safe-bind (not_nil id o) (λ _. row id) (λ _. unknown) _ _ (Safe-deref id o)
      λ t. search answer_rules depth 12

pub unblock-Safe : (id : String) (input : Option String) → Answers unknown (unblock id input)
unfolding unblock resolve_gate
unblock-Safe id none = Answers-invalid_json unknown
unblock-Safe id (some gate_id) =
    Safe-if unknown (λ _. unknown) (gate_id == "") _ _ (Answers-pure unknown _)
      (Answers-lookup id _ _ λ t.
        Safe-then_respond (row id) _ _ _ (move_gate-Safe (row id) _ _ _) λ _.
          Safe-then_respond (row id) _ _ _ (update_status-Safe (row id) id) λ _.
            Safe-or_respond (row id) (not_nil id) _ _ _ (reread-Safe id)
              (resume-Safe id gate_id t.status))

with_gate-Safe :
    (id gate_id : String) (wanted : GateStatus) (complaint : GateStatus → String)
    (rest : M Response)
    → Answers unknown rest
    → Answers unknown (with_gate id gate_id wanted complaint rest)
unfolding with_gate get_gate_by_id
with_gate-Safe id gate_id wanted complaint rest sr =
    Safe-then_respond unknown _ _ _ (Safe-read unknown _) λ gate.
      Safe-if_nil (λ _. unknown) (λ _. unknown) gate _ _ (Answers-pure unknown _)
        λ g. search (Safe-if, Answers-pure) depth 8

pub answer-Safe :
    (id gate_id : String) (input : Option String) → Answers unknown (answer id gate_id input)
unfolding answer ask_gate
answer-Safe id gate_id none = Answers-invalid_json unknown
answer-Safe id gate_id (some text) = search (gate_rules, with_gate-Safe) depth 12

pub approve-Safe :
    (id gate_id : String) (input : Option String) → Answers unknown (approve id gate_id input)
unfolding approve answer_gate
approve-Safe id gate_id none = Answers-invalid_json unknown
approve-Safe id gate_id (some text) = search (gate_rules, with_gate-Safe) depth 12

pub list_gates-Safe : (id : String) → Answers unknown (list_gates id)
unfolding list_gates get_by_task_id
list_gates-Safe id = Answers-lookup id _ _ λ t. search answer_rules
