-- ===== src/Api/TaskHandler/Gates.antt =====
-- internal/api/task_handler.go: BlockTask, UnblockTask, AnswerGate, ApproveGate and ListTaskGates.
use acb_go.Prelude.{String, ◌<>◌, not, ◌||◌, Option, none, some, [], ◌==◌, if◌then◌else◌}
use acb_go.Models.{Status, GateStatus, is_gate, Task, Gate}
use acb_go.Session.{M, publish, pure, deref, spawn, if_nil, or_respond, ◌>>=◌, ◌>>◌}
use acb_go.Db.TaskRepo.Reads.{get_by_id}
use acb_go.Db.TaskRepo.Transitions.{block_task, update_status}
use acb_go.Db.GateRepo.{
  create_gate, get_by_task_id, get_gate_by_id, ask_gate, answer_gate, resolve_gate,
}
use acb_go.Api.Response.{
  Response, task_json, gate_json, gates_json, write_json, write_error, write_error_safe,
  transition_error,
}
use acb_go.Api.TaskHandler.Transitions.{notify_change, invalid_json, task_not_found}

pub record BlockInput : Type 0 where
  pub gate_id : String
  pub question : String

unfoldable pub new_gate : String → BlockInput → Gate
new_gate id input = record {
  gate_id = input.gate_id;
  task_id = id;
  question = input.question;
  ask = "";
  status = GateStatus.pending;
  answer = "";
  created_at = 0;
  answered_at = none;
}

-- From the second reading of the task on.
unfoldable pub open_gate : String → BlockInput → Status → Option Task → M Response
open_gate id input old blocked =
    or_respond (create_gate (new_gate id input)) (λ x. write_error_safe 500 "gate_create_failed")
      λ _. do
        task ← deref blocked
        spawn (publish "task_blocked" id task.assignee input.gate_id "" task.required_skills)
        notify_change task old Status.blocked "task_blocked"
        pure (write_json 200 (task_json task))

unfoldable pub block : String → Option BlockInput → M Response
block id none = invalid_json
block id (some input) =
    if input.gate_id == "" || input.question == ""
    then pure (write_error 400 "missing_fields" "gate_id and question are required")
    else or_respond (get_by_id id) (λ x. write_error_safe 500 "get_task_failed")
        λ task. if_nil task task_not_found λ t.
          or_respond (block_task id) (transition_error "block_failed") λ _.
            or_respond (get_by_id id) (λ x. write_error_safe 500 "get_task_failed")
              (open_gate id input t.status)

unfoldable pub resume : String → String → Status → Option Task → M Response
resume id gate_id old unblocked = do
  task ← deref unblocked
  spawn (publish "task_unblocked" id task.assignee gate_id "" [])
  notify_change task old Status.in_progress "task_unblocked"
  pure (write_json 200 (task_json task))

-- `gate_id` is the field of the decoded body.
unfoldable pub unblock : String → Option String → M Response
unblock id none = invalid_json
unblock id (some gate_id) =
    if gate_id == ""
    then pure (write_error 400 "missing_gate_id" "gate_id is required")
    else or_respond (get_by_id id) (λ x. write_error_safe 500 "get_task_failed")
        λ task. if_nil task task_not_found λ t.
          or_respond (resolve_gate gate_id) (λ x. write_error_safe 409 "resolve_failed")
            λ _.
              or_respond (update_status id Status.in_progress)
                (λ x. write_error_safe 500 "update_failed")
                λ _.
                  or_respond (get_by_id id) (λ x. write_error_safe 500 "get_task_failed")
                    (resume id gate_id t.status)

abbrev pub gate_text : GateStatus → String
gate_text GateStatus.unset = ""
gate_text GateStatus.pending = "pending"
gate_text GateStatus.asked = "asked"
gate_text GateStatus.answered = "answered"
gate_text GateStatus.resolved = "resolved"

-- The gate has to be there, belong to the task and have the wanted status.
unfoldable pub with_gate :
    String → String → GateStatus → (GateStatus → String) → M Response → M Response
with_gate id gate_id wanted complaint rest =
    or_respond (get_gate_by_id gate_id) (λ x. write_error_safe 500 "get_gate_failed")
      λ gate. if_nil gate (pure (write_error 404 "gate_not_found" "gate not found")) λ g.
        if not (g.task_id == id)
        then pure (write_error 400 "gate_mismatch" "gate does not belong to this task")
        else if is_gate g.status wanted
        then rest
        else pure (write_error 409 "invalid_gate_status" (complaint g.status))

unfoldable pub answer : String → String → Option String → M Response
answer id gate_id none = invalid_json
answer id gate_id (some text) =
    if text == ""
    then pure (write_error 400 "missing_answer" "answer is required")
    else with_gate id gate_id GateStatus.pending (λ _. "gate is not in pending status")
        (or_respond (ask_gate gate_id text) (λ x. write_error_safe 409 "ask_gate_failed")
          λ _.
            spawn (publish "gate_answered" id "" gate_id text [])
            >> pure (write_json 200 (gate_json gate_id "asked")))

unfoldable pub approve : String → String → Option String → M Response
approve id gate_id none = invalid_json
approve id gate_id (some text) =
    if text == ""
    then pure (write_error 400 "missing_answer" "answer is required")
    else with_gate id gate_id GateStatus.asked
        (λ s. "gate is not in asked status, current: " <> gate_text s)
        (or_respond (answer_gate gate_id text) (λ x. write_error_safe 409 "approve_failed")
          λ _.
            spawn (publish "gate_approved" id "" gate_id text [])
            >> pure (write_json 200 (gate_json gate_id "answered")))

unfoldable pub list_gates : String → M Response
list_gates id =
    or_respond (get_by_id id) (λ x. write_error_safe 500 "get_task_failed")
      λ task. if_nil task task_not_found λ t.
        or_respond (get_by_task_id id) (λ x. write_error_safe 500 "list_gates_failed")
          λ gates. pure (write_json 200 (gates_json gates))
