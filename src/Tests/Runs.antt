-- ===== src/Tests/Runs.antt =====
-- Requests that are run on the sample board.
use acb_go.Prelude.{ℕ, false, String, ◌≡◌, refl, Option, none, some, List, [], ◌∷◌}
use acb_go.Models.{status_text, Status, Task}
use acb_go.Db.Rows.{find, update}
use acb_go.Session.{World, Outcome, ok, err, panic}
use acb_go.Api.Dispatching.Addresses.{is_private_ip, contains_ip, shortened}
use acb_go.Api.Response.{Response}
use acb_go.Api.Server.{
  Request, post_claim, post_fail, post_start, post_complete, get_dispatch, post_unblock,
  post_approve, serve,
}
use acb_go.Session.{
  arrive, run_all, pure, throw, query, exec, spawn, deref, get_env, on_error, if_nil, or_respond,
  ◌>>=◌, ◌>>◌,
}
use acb_go.Db.Statement.{run, after, selects, assigns, selects_gate, assigns_gate}
use acb_go.Config.{contains}
use acb_go.Db.AgentRepo.{get_by_name, has_all}
use acb_go.Db.GateRepo.{get_gate_by_id, answer_gate, resolve_gate, move_gate}
use acb_go.Db.TaskRepo.Reads.{
  scan_task_row, get_by_id, log_task_event, are_parents_completed, check_parents_completed, list,
  has_status, has_assignee, likes_all, pending_children_ids, mentions,
}
use acb_go.Db.TaskRepo.Transitions.{
  update_status, current_status, refuse, claim_task, start_task, complete_task, promote_children,
  promote_each, promote_child, fail_task, requeue,
}
use acb_go.Api.Response.{
  write_json, write_error, write_error_safe, write_conflict, transition_error,
}
use acb_go.Api.TaskHandler.Transitions.{
  claim, claim_checked, with_parents, with_skills, announce, notify_change, start, complete, fail,
  after_fail, task_not_found, invalid_json,
}
use acb_go.Api.TaskHandler.Gates.{approve, with_gate, unblock, resume}
use acb_go.Api.TaskHandler.Reads.{
  dispatch_next, find_next_for_agent, matching, parents_done, best, best_of,
}
use acb_go.Tests.Samples.{start_world, quiet_env, busy_env}

-- The code of the response, or 0.
abbrev code_of : Outcome Response → ℕ
code_of (ok r) = r.code
code_of (err x) = 0
code_of panic = 0

abbrev status_of : Option Task → Status
status_of none = Status.unset
status_of (some t) = t.status

abbrev result : String → Outcome Response × World → ℕ × Status
result id (o, w) = (code_of o, status_of (find Task.id id w.store.tasks))

-- One request after the other, in the quiet environment; the code of the last one, and the status of
-- a task.
abbrev session : List Request → World → Outcome Response × World
session [] w = (panic, w)
session (q ∷ []) w = serve q quiet_env w
session (q ∷ rest) w = session rest (serve q quiet_env w).1

abbrev outcome : List Request → String → ℕ × Status
outcome qs id = result id (session qs start_world)

abbrev worked : List Request
worked = post_claim "t2" (some "gopher") ∷ post_start "t2" ∷ post_complete "t2" (some "done") ∷ []

abbrev claimed_twice : List Request
claimed_twice = post_claim "t2" (some "gopher") ∷ post_claim "t2" (some "gopher") ∷ []

abbrev unblocked_elsewhere : List Request
unblocked_elsewhere = post_approve "t3" "g1" (some "yes") ∷ post_unblock "t1" (some "g1") ∷ []

-- A task is claimed, started and completed. The second claim is a conflict. The gate of one task moves
-- another, which is completed, back to in_progress. A failed attempt with retries left is pending again.
-- The open task is offered. A rival claims a task between the checks of the handler and its UPDATE.
sample_runs :
    (outcome worked "t2" ≡ (200, Status.completed))
    × (outcome claimed_twice "t2" ≡ (409, Status.claimed))
    × (outcome unblocked_elsewhere "t1" ≡ (200, Status.in_progress))
    × (outcome (post_fail "t3" (some "no") ∷ []) "t3" ≡ (200, Status.pending))
    × (outcome (get_dispatch "gopher" ∷ []) "t2" ≡ (200, Status.pending))
    × (result "t2" (serve (post_claim "t2" (some "gopher")) busy_env start_world)
        ≡ (409, Status.claimed))
unfolding serve update arrive run_all pure throw query exec spawn deref get_env on_error if_nil
    or_respond ◌>>=◌ ◌>>◌ run after selects assigns selects_gate assigns_gate find contains
    get_by_name has_all get_gate_by_id answer_gate resolve_gate move_gate scan_task_row get_by_id
    log_task_event are_parents_completed check_parents_completed list has_status has_assignee
    likes_all pending_children_ids mentions update_status current_status refuse claim_task
    start_task complete_task promote_children promote_each promote_child fail_task requeue
    write_json write_error write_error_safe write_conflict transition_error claim claim_checked
    with_parents with_skills announce notify_change start complete fail after_fail task_not_found
    invalid_json approve with_gate unblock resume dispatch_next find_next_for_agent matching
    parents_done best best_of status_text
sample_runs = (refl, refl, refl, refl, refl, refl)

-- The unspecified IPv6 address is not blocked.
unspecified_passes :
    is_private_ip (some (0 ∷ 0 ∷ 0 ∷ 0 ∷ 0 ∷ 0 ∷ 0 ∷ 0 ∷ 0 ∷ 0 ∷ 0 ∷ 0 ∷ 0 ∷ 0 ∷ 0 ∷ 0 ∷ []))
    ≡ false
unfolding is_private_ip contains_ip shortened
unspecified_passes = refl
