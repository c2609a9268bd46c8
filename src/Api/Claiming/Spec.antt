-- ===== src/Api/Claiming/Spec.antt =====
-- ClaimTask of internal/api/task_handler.go, run alone: what the request may come to.
use acb_go.Prelude.{
  String, ◌≡◌, true, false, none, some, List, [], ◌∷◌, ◌++◌, if◌then◌else◌, ◌⊎◌, is_empty,
}
use acb_go.Models.{Status, is, Task, Agent}
use acb_go.Db.Rows.{find}
use acb_go.Session.{Env, World, Effect, publish, notify}
use acb_go.Db.AgentRepo.{has_all}
use acb_go.Db.TaskRepo.Moves.{Rewrites}
use acb_go.Lifecycle.Parents.{AllDone}
use acb_go.Api.Response.{Response, task_json, write_json, write_error, write_conflict}

-- Nothing was written and nothing was started.
pub record Idle (w v : World) : Type 0 where
  pub same_store : v.store ≡ w.store
  pub same_spawned : v.spawned ≡ w.spawned

-- The claimant has the skills that the task asks for, if it asks for some.
abbrev pub Skilled : List Agent → String → List String → Type 0
Skilled agents who required =
    (is_empty required ≡ true)
    ⊎ ((a : Agent) × (find Agent.name who agents ≡ some a) × (has_all a.skills required ≡ true))

-- What ClaimTask starts at its end.
abbrev pub announced : Env → String → String → Task → Status → List Effect
announced e id who u old =
    publish "task_claimed" id who "" "" u.required_skills
    ∷ (if e.has_dispatcher then notify u old Status.claimed "task_claimed" ∷ [] else [])

pub data ClaimSpec (e : Env) (id who : String) (w v : World) : Response → Type 0 where
  no_task :
      find Task.id id w.store.tasks ≡ none
      → Idle w v
      → ClaimSpec e id who w v (write_error 404 "not_found" "task not found")
  parents_open :
      (t : Task)
      → find Task.id id w.store.tasks ≡ some t
      → ¬ AllDone w.store.tasks t.parents
      → Idle w v
      → ClaimSpec e id who w v
          (write_error 403 "parents_incomplete" "parent tasks must be completed before claiming")
  no_agent :
      (t : Task)
      → find Task.id id w.store.tasks ≡ some t
      → AllDone w.store.tasks t.parents
      → find Agent.name who w.store.agents ≡ none
      → Idle w v
      → ClaimSpec e id who w v (write_error 404 "agent_not_found" "agent not found")
  unskilled :
      (t : Task) (a : Agent)
      → find Task.id id w.store.tasks ≡ some t
      → AllDone w.store.tasks t.parents
      → find Agent.name who w.store.agents ≡ some a
      → has_all a.skills t.required_skills ≡ false
      → Idle w v
      → ClaimSpec e id who w v (write_error 403 "missing_skills" "agent lacks required skills")
  taken :
      (t : Task)
      → find Task.id id w.store.tasks ≡ some t
      → AllDone w.store.tasks t.parents
      → Skilled w.store.agents who t.required_skills
      → is t.status Status.pending ≡ false
      → Idle w v
      → ClaimSpec e id who w v
          (write_conflict "claim_failed" "task is not in pending status" t.status)
  claimed :
      (t u : Task)
      → find Task.id id w.store.tasks ≡ some t
      → AllDone w.store.tasks t.parents
      → Skilled w.store.agents who t.required_skills
      → is t.status Status.pending ≡ true
      → u.status ≡ Status.claimed
      → u.assignee ≡ who
      → Rewrites id u w v
      → v.spawned ≡ w.spawned ++ announced e id who u t.status
      → ClaimSpec e id who w v (write_json 200 (task_json u))
