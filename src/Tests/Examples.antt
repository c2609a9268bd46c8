-- ===== src/Tests/Examples.antt =====
-- The theorems at concrete inputs, on the sample board.
use acb_go.Prelude.{
  arith, String, List, ◌≡◌, refl, Bool, true, Option, none, some, [], ◌∷◌, ◌⊎◌, ◌↔◌,
}
use acb_go.Models.{Status, is, Task, Gate, Agent}
use acb_go.Db.Rows.{find}
use acb_go.Db.Store.{HasKeys}
use acb_go.Db.Statement.{after, update_task, claim, run}
use acb_go.Session.{Outcome, World, ok, arrive, run_all}
use acb_go.Session.Evolution.{Evolves}
use acb_go.Db.TaskRepo.Reads.{are_parents_completed}
use acb_go.Db.TaskRepo.Transitions.{FailTaskResult, fail_task}
use acb_go.Db.TaskRepo.Failing.{FailSpec, fail_task-FailSpec}
use acb_go.Db.AgentRepo.{has_all}
use acb_go.Lifecycle.Keys.{Evolves-HasKeys}
use acb_go.Lifecycle.Gates.{Later, gate_forward}
use acb_go.Lifecycle.Claims.{Closed, closed_stays, claim_exclusive}
use acb_go.Lifecycle.Tasks.Graph.{Walk, task_walks}
use acb_go.Lifecycle.Parents.{AllDone, parents_exact}
use acb_go.Api.Response.{Response}
use acb_go.Api.Server.{post_claim, post_fail, serve}
use acb_go.Api.Safety.Serve.{serve_answers, serve-Evolves}
use acb_go.Api.TaskHandler.Transitions.{claim as claim_handler}
use acb_go.Api.TaskHandler.Reads.{find_next_for_agent}
use acb_go.Api.Claiming.Spec.{ClaimSpec, Idle}
use acb_go.Api.Claiming.Handler.{claim-ClaimSpec}
use acb_go.Api.Dispatching.Choice.{Chosen}
use acb_go.Api.Dispatching.Next.{fits, find_next_for_agent-Chosen}
use acb_go.Prelude.Int.{pos}
use acb_go.Session.Quiet.{time}
use acb_go.Api.Dispatching.Retries.{RetryEntry, drain}
use acb_go.Api.Dispatching.Draining.{drain_ends}
use acb_go.Api.Dispatching.Bounds.{IsBounded, drain-IsBounded}
use acb_go.Api.Dispatching.Addresses.{is_private_ip}
use acb_go.Api.Dispatching.Ranges.{mapped, is_private_ip-is_internal}
use acb_go.Tests.Samples.{deaf_sender, hooked_world, first_retry}
use acb_go.Db.TaskRepo.Expiry.{
  minutes, is_overdue, is_held_by, is_stale, expire_pending_tasks, expire_stale_in_progress_tasks,
  release_agent_tasks,
}
use acb_go.Db.TaskRepo.Sweeps.{Sweeps}
use acb_go.Db.TaskRepo.Timeouts.{
  IsFree, expire_pending_tasks-Sweeps, expire_stale_in_progress_tasks-Sweeps,
  release_agent_tasks-Sweeps,
}
use acb_go.Timeout.Service.{TimeoutService, run_service}
use acb_go.Timeout.Safety.{run_service-Evolves}
use acb_go.Api.TaskHandler.Gates.{unblock}
use acb_go.Api.Unblocking.Handler.{UnblockSpec, unblock-UnblockSpec}
use acb_go.Prelude.{map, ◌≤◌}
use acb_go.Models.{TaskEvent}
use acb_go.Db.EventRepo.{by_id, titled, page_limit, list_since}
use acb_go.Db.EventRepo.Pages.{IsPage, list_since-IsPage}
use acb_go.Api.Response.{gate_json, write_json}
use acb_go.Api.TaskHandler.Gates.{answer, approve, with_gate}
use acb_go.Api.Safety.Ownership.{answer-task_id, approve-task_id}
use acb_go.Db.GateRepo.{get_gate_by_id, ask_gate, answer_gate, move_gate}
use acb_go.Session.{or_respond, query, if_nil, exec, ◌>>=◌, ◌>>◌, spawn, pure}
use acb_go.Db.Statement.{selects_gate, assigns_gate, selects, assigns}
use acb_go.Db.Rows.{update}
use acb_go.Tests.Samples.{
  logged_world, approved_world, approved_gates-Unique, board, start_world, quiet_env, busy_env,
  quiet_env-IsQuiet, busy_env-IsFair, board-HasKeys, board_set, done_task, open_task, asked_gate,
  started_store, started, claimed_and_started, approved_store, approved,
}

serve_answers_example :
    (r : Response) × ((serve (post_claim "t2" (some "gopher")) busy_env start_world).0 ≡ ok r)
serve_answers_example =
    serve_answers (post_claim "t2" (some "gopher")) busy_env start_world busy_env-IsFair

serve-Evolves_example :
    Evolves board (serve (post_fail "t3" (some "no")) busy_env start_world).1.store
serve-Evolves_example =
    serve-Evolves (post_fail "t3" (some "no")) busy_env start_world busy_env-IsFair

Evolves-HasKeys_example : HasKeys started_store
Evolves-HasKeys_example = Evolves-HasKeys claimed_and_started board-HasKeys

gate_forward_example :
    (h : Gate) × (find Gate.gate_id "g1" approved_store.gates ≡ some h) × Later asked_gate h
unfolding find
gate_forward_example = gate_forward "g1" asked_gate approved refl

task_walks_example :
    (y : Task) × (find Task.id "t2" started_store.tasks ≡ some y)
    × Walk "t2" open_task started_store claimed_and_started y
unfolding find
task_walks_example = task_walks "t2" open_task claimed_and_started refl

closed_stays_example :
    (y : Task) × (find Task.id "t1" started_store.tasks ≡ some y) × Closed done_task y
unfolding find
closed_stays_example = closed_stays "t1" done_task claimed_and_started ((tt, refl), refl) refl refl

claim_exclusive_example :
    (run 202 (update_task (claim "t2" "rival")) started_store ≡ some (0, started_store))
    × ((y : Task) × (find Task.id "t2" started_store.tasks ≡ some y) × (y.assignee ≡ "gopher"))
unfolding find
claim_exclusive_example =
    claim_exclusive "t2" "gopher" "rival" 200 202 open_task board-HasKeys refl refl started
      (tt, refl)

parents_exact_example :
    (b : Bool) × ((are_parents_completed ("t1" ∷ "t1" ∷ []) quiet_env start_world).0 ≡ ok b)
    × ((b ≡ true) ↔ AllDone board.tasks ("t1" ∷ "t1" ∷ []))
unfolding arrive run_all
parents_exact_example = parents_exact ("t1" ∷ "t1" ∷ []) quiet_env start_world board-HasKeys refl

fail_task-FailSpec_example :
    (o : Outcome FailTaskResult) × (v : World) × (fail_task "t3" "no" quiet_env start_world
      ≡ (o, v))
    × FailSpec "t3" "no" start_world v o
fail_task-FailSpec_example =
    fail_task-FailSpec quiet_env quiet_env-IsQuiet "t3" "no" start_world board-HasKeys.tasks_unique
      (board_set "t3")

claim-ClaimSpec_example :
    (r : Response) × (v : World) × (claim_handler "t2" (some "gopher") quiet_env start_world
      ≡ (ok r, v))
    × ClaimSpec quiet_env "t2" "gopher" start_world v r
claim-ClaimSpec_example =
    claim-ClaimSpec quiet_env "t2" "gopher" start_world quiet_env-IsQuiet board-HasKeys.tasks_unique
      (board_set "t2") refl

find_next_for_agent-Chosen_example :
    (o : Option Task) × (v : World) × (find_next_for_agent "gopher" quiet_env start_world
      ≡ (ok o, v))
    × Idle start_world v
    × (((find Agent.name "gopher" board.agents ≡ none) × (o ≡ none))
        ⊎ ((a : Agent) × (find Agent.name "gopher" board.agents ≡ some a)
            × Chosen (fits board.tasks a.skills) board.tasks o
            × ((t : Task)
                → (fits board.tasks a.skills t ≡ true) ↔ (
                    (is t.status Status.pending ≡ true)
                    × AllDone board.tasks t.parents
                    × (has_all a.skills t.required_skills ≡ true)))))
find_next_for_agent-Chosen_example =
    find_next_for_agent-Chosen quiet_env "gopher" start_world quiet_env-IsQuiet
      board-HasKeys.tasks_unique

unblock-UnblockSpec_example :
    (r : Response) × (v : World) × (unblock "t1" (some "g1") quiet_env approved_world ≡ (ok r, v))
    × UnblockSpec quiet_env "t1" "g1" approved_world v r
unfolding after run
unblock-UnblockSpec_example =
    unblock-UnblockSpec quiet_env "t1" "g1" approved_world quiet_env-IsQuiet
      board-HasKeys.tasks_unique approved_gates-Unique (board_set "t1") refl

expire_pending_tasks-Sweeps_example :
    (ids : List String) × (v : World) × (expire_pending_tasks (pos 1) quiet_env start_world
      ≡ (ok ids, v))
    × Sweeps
        (λ u. u.status ≡ Status.failed)
        (is_overdue (minutes (pos 1)) (time quiet_env start_world))
        ids
        start_world
        v
expire_pending_tasks-Sweeps_example =
    expire_pending_tasks-Sweeps quiet_env (pos 1) start_world quiet_env-IsQuiet
      board-HasKeys.tasks_unique refl

expire_stale_in_progress_tasks-Sweeps_example :
    (ids : List String) × (v : World) × (expire_stale_in_progress_tasks
        (pos 1)
        quiet_env
        start_world
      ≡ (ok ids, v))
    × Sweeps
        (λ u. u.status ≡ Status.failed)
        (is_stale (minutes (pos 1)) (time quiet_env start_world))
        ids
        start_world
        v
expire_stale_in_progress_tasks-Sweeps_example =
    expire_stale_in_progress_tasks-Sweeps quiet_env (pos 1) start_world quiet_env-IsQuiet
      board-HasKeys.tasks_unique refl

release_agent_tasks-Sweeps_example :
    (ids : List String) × (v : World) × (release_agent_tasks "gopher" quiet_env start_world
      ≡ (ok ids, v))
    × Sweeps IsFree (is_held_by "gopher") ids start_world v
release_agent_tasks-Sweeps_example =
    release_agent_tasks-Sweeps quiet_env "gopher" start_world quiet_env-IsQuiet
      board-HasKeys.tasks_unique

abbrev service : TimeoutService
service = record {
  pending_timeout_min = pos 30;
  task_timeout_min = pos 10;
  agent_stale_min = pos 10;
  has_agent_repo = true;
}

run_service-Evolves_example :
    ((run_service service 2 busy_env start_world).0 ≡ ok tt)
    × Evolves board (run_service service 2 busy_env start_world).1.store
run_service-Evolves_example = run_service-Evolves service 2 busy_env start_world busy_env-IsFair

list_since-IsPage_example :
    (found : List TaskEvent) × ((list_since "" "gopher"
        (pos 2)
        (pos 0)
        true
        quiet_env
        logged_world).0
      ≡ ok (map (titled (arrive quiet_env logged_world).store) found))
    × IsPage
        (by_id (pos 0))
        "gopher"
        (page_limit (pos 2))
        (arrive quiet_env logged_world).store.events
        found
    × (page_limit (pos 2) ≤ 200)
list_since-IsPage_example =
    list_since-IsPage "" "gopher" (pos 2) (pos 0) quiet_env logged_world refl

answer-task_id_example :
    (g : Gate) × (find Gate.gate_id "g2"
        (answer "t3" "g2" (some "yes") busy_env start_world).1.store.gates
      ≡ some g)
    × (g.task_id ≡ "t3")
unfolding answer with_gate get_gate_by_id ask_gate move_gate or_respond query if_nil exec ◌>>=◌ ◌>>◌
    spawn pure arrive run_all after run selects_gate assigns_gate selects assigns update find
    write_json
answer-task_id_example =
    answer-task_id "t3" "g2" "yes" busy_env start_world (write_json 200 (gate_json "g2" "asked"))
      busy_env-IsFair refl refl

approve-task_id_example :
    (g : Gate) × (find Gate.gate_id "g1"
        (approve "t3" "g1" (some "yes") busy_env start_world).1.store.gates
      ≡ some g)
    × (g.task_id ≡ "t3")
unfolding approve with_gate get_gate_by_id answer_gate move_gate or_respond query if_nil exec ◌>>=◌
    ◌>>◌ spawn pure arrive run_all after run selects_gate assigns_gate selects assigns update find
    write_json
approve-task_id_example =
    approve-task_id "t3" "g1" "yes" busy_env start_world
      (write_json 200 (gate_json "g1" "answered")) busy_env-IsFair refl refl

drain_ends_example : (drain deaf_sender 6 (first_retry ∷ []) quiet_env hooked_world).0 ≡ ok []
drain_ends_example =
    drain_ends deaf_sender 6 (first_retry ∷ []) quiet_env hooked_world (λ x. refl) (omega arith)

drain-IsBounded_example :
    (r : List RetryEntry) × (v : World) × (drain deaf_sender 2
        (first_retry ∷ [])
        quiet_env
        hooked_world
      ≡ (ok r, v))
    × IsBounded deaf_sender r
drain-IsBounded_example =
    drain-IsBounded deaf_sender 2 (first_retry ∷ []) quiet_env hooked_world (λ x. refl)
      (omega arith, (omega arith, tt))

is_private_ip-is_internal_example :
    (is_private_ip (some (169 ∷ 254 ∷ 169 ∷ 254 ∷ [])) ≡ true)
    × (is_private_ip (some (mapped 169 254 169 254)) ≡ true)
is_private_ip-is_internal_example =
    is_private_ip-is_internal 169 254 169 254 (omega arith) (omega arith) (omega arith)
      (omega arith)
