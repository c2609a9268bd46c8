-- ===== src/Tests/Handlers.antt =====
-- The theorems on the other handlers and services at concrete inputs.
use acb_go.Prelude.{ℕ, String, ◌≡◌, ◌⊎◌, refl, true, false, some, [], ◌∷◌}
use acb_go.Prelude.Int.{pos}
use acb_go.Models.{Status, is}
use acb_go.Session.{World, Blob, ok, arrive}
use acb_go.Db.Secrets.{token_prefix}
use acb_go.Storage.{connected}
use acb_go.Db.TaskRepo.Reads.{TaskCounts}
use acb_go.Api.Response.{Response, dashboard_json, write_json, write_error}
use acb_go.Api.ArtifactHandler.{cleanup_artifacts}
use acb_go.Api.Cleaning.Handler.{Cleans, cleanup_artifacts-Cleans}
use acb_go.Api.Grouping.{Grouped}
use acb_go.Api.Dashboard.{DashboardHandler, dashboard}
use acb_go.Api.Dashboard.Agreement.{Row, dashboard-Row}
use acb_go.Session.{Env}
use acb_go.Session.Quiet.{IsQuiet}
use acb_go.Config.Load.{load}
use acb_go.Api.ArtifactHandler.{FormFile, Multipart, upload_artifact, delete_artifact}
use acb_go.Api.Uploading.{Uploads, upload_artifact-Uploads}
use acb_go.Api.Deleting.{Removes, delete_artifact-Removes}
use acb_go.Api.Health.{Pinged}
use acb_go.Api.Service.{Services, post_cleanup, route, panic_recovery, handle}
use acb_go.Api.Service.Answers.{authed, Replied, handle_answers}
use acb_go.Api.Service.Guarded.{Admitted, handle-Admitted}
use acb_go.Prelude.{eqb, ◌≤◌, Bool}
use acb_go.Db.Migrations.{empty_schema, run_migrations}
use acb_go.Db.Migrations.Once.{starts, up_to, run_migrations_once}
use acb_go.Prelude.{Any, subst}
use acb_go.Api.TaskHandler.Create.{CreateInput, create_task}
use acb_go.Api.Creating.Spec.{Creates}
use acb_go.Api.Creating.Handler.{create_task-Creates}
use acb_go.Storage.Laws.{IsUp}
use acb_go.Api.Response.{health_json}
use acb_go.Api.Health.{health}
use acb_go.Api.Health.Report.{Stored, Broken, report, health-Broken}
use acb_go.Tests.Services.{memory-IsUp}
use acb_go.Tests.Samples.{
  start_world, quiet_env, busy_env, quiet_env-IsQuiet, board-HasKeys, gopher, board,
}
use acb_go.Tests.Services.{stored_hash, crypto, memory, memory-IsBucket, registry}

-- A world in which the agent has a token.
abbrev token_world : World
token_world = record start_world {
  store = record board {
    agents =
        record gopher { token = stored_hash; token_prefix = token_prefix crypto "sesame-1" } ∷ [];
  };
}

-- An object of the task, and one of another.
abbrev text_file : Blob
text_file = record { content = 104 ∷ 105 ∷ []; size = 2; content_type = "text/plain" }

abbrev stored_world : World
stored_world = record start_world {
  objects = ("t3/report", text_file) ∷ ("t1/notes", text_file) ∷ [];
}

cleanup_artifacts-Cleans_example :
    Cleans "t3" quiet_env stored_world (cleanup_artifacts (connected "acb" (some memory)) "t3")
cleanup_artifacts-Cleans_example =
    cleanup_artifacts-Cleans memory memory-IsBucket "acb" quiet_env quiet_env-IsQuiet "t3"
      stored_world board-HasKeys.tasks_unique

abbrev handler : DashboardHandler
handler = record { stale_agent_min = pos 10; has_agent_repo = true }

dashboard-Row_example :
    (c : TaskCounts) × (g : Grouped) × (n : ℕ) × (v : World) × (dashboard handler quiet_env
        start_world
      ≡ (ok (write_json 200 (dashboard_json c g n c.total)), v))
    × ((s : Status) → is s Status.unset ≡ false → Row board.tasks c g s)
    × (v.store ≡ board)
dashboard-Row_example =
    dashboard-Row quiet_env quiet_env-IsQuiet handler start_world (refl, (refl, (refl, tt)))

abbrev configured_env : Env
configured_env = record quiet_env { cfg = some (load (λ key. "")) }

configured_env-IsQuiet : IsQuiet configured_env
configured_env-IsQuiet = record { alone = λ n. refl; up = λ n. refl }

abbrev file : FormFile
file = record { filename = "report.txt"; size = 2; head = some (104 ∷ 105 ∷ []); rest = [] }

abbrev form : Multipart
form = record { parse_form = λ limit. some (some file); detect = λ head. "text/plain" }

upload_artifact-Uploads_example :
    Uploads memory "acb" form configured_env "t3"
      (load (λ key. ""))
      start_world
      (upload_artifact (connected "acb" (some memory)) form "t3")
upload_artifact-Uploads_example =
    upload_artifact-Uploads memory "acb" form configured_env "t3" memory-IsBucket
      configured_env-IsQuiet (load (λ key. "")) start_world refl board-HasKeys.tasks_unique

delete_artifact-Removes_example :
    Removes "t3" "t1/notes" quiet_env stored_world
      (delete_artifact (connected "acb" (some memory)) "t3" "t1/notes")
delete_artifact-Removes_example =
    delete_artifact-Removes memory memory-IsBucket "acb" quiet_env quiet_env-IsQuiet "t3" "t1/notes"
      stored_world board-HasKeys.tasks_unique

abbrev services : Services
services = record {
  registry = registry;
  admin_token = "boot";
  storage = connected "acb" (some memory);
  error_text = λ x. "failed";
  database = Pinged.answers;
  redis = Pinged.no_client;
}

handle_answers_example :
    (r : Response) × (v : World) × (handle services "Bearer sesame-1" "root"
        (post_cleanup "t3")
        busy_env
        token_world
      ≡ (ok r, v))
    × Replied
        (authed services "Bearer sesame-1" "root" (post_cleanup "t3") busy_env token_world)
        r
        v
handle_answers_example =
    handle_answers services "Bearer sesame-1" "root" (post_cleanup "t3") busy_env token_world

handle-Admitted_example :
    ((message : String) × (v : World) × (handle services "Bearer sesame-1" "root"
          (post_cleanup "t3")
          busy_env
          token_world
        ≡ (ok (write_error 401 "unauthorized" message), v)))
    ⊎ ((caller : String) × (v : World) × (handle services "Bearer sesame-1" "root"
            (post_cleanup "t3")
            busy_env
            token_world
          ≡ panic_recovery (route services (post_cleanup "t3") caller) busy_env v)
        × Admitted services "Bearer sesame-1" (arrive busy_env token_world).store.agents caller)
handle-Admitted_example =
    handle-Admitted services "Bearer sesame-1" "root" (post_cleanup "t3") busy_env token_world refl

-- A start that fails in the second migration.
abbrev second_fails : ℕ → Bool
second_fails n = eqb n 7

run_migrations_once_example :
    (k j : ℕ) × (starts (second_fails ∷ []) empty_schema ≡ up_to k)
    × (k ≤ j)
    × (j ≤ 3)
    × ((run_migrations (λ n. false) (starts (second_fails ∷ []) empty_schema)).1.schema ≡ up_to j)
    × ((run_migrations (λ n. false) (starts (second_fails ∷ []) empty_schema)).0 ≡ true → j ≡ 3)
    × (((n : ℕ) → false ≡ false)
        → (run_migrations (λ n. false) (starts (second_fails ∷ []) empty_schema)).0 ≡ true)
run_migrations_once_example = run_migrations_once (second_fails ∷ []) (λ n. false)

health-Broken_example :
    (stored : Pinged) × (status : String) × (v : World) × (health
        (λ x. "failed")
        Pinged.answers
        (Pinged.fails "timeout")
        (some (connected "acb" (some memory)))
        quiet_env
        start_world
      ≡ (
        ok (
            write_json 200
              (health_json status (report Pinged.answers (Pinged.fails "timeout") stored))),
        v,
      ))
    × ((Any Broken (report Pinged.answers (Pinged.fails "timeout") stored) × (status ≡ "degraded"))
        ⊎ ((Any Broken (report Pinged.answers (Pinged.fails "timeout") stored) → ⊥)
            × (status ≡ "ok")))
    × Stored (λ x. "failed") (some memory) "acb" quiet_env start_world stored v
health-Broken_example =
    health-Broken (λ x. "failed") Pinged.answers (Pinged.fails "timeout") (some memory) "acb"
      quiet_env start_world (λ s h. let k : memory ≡ s = cc in subst IsUp k memory-IsUp)

abbrev wanted : CreateInput
wanted = record {
  id = "t9";
  title = "Analyze log files";
  assignee = "";
  priority = pos 3;
  parents = "t1" ∷ [];
  skills = [];
  required_skills = "go" ∷ [];
  tags = [];
  body_goal = "Find anomalies";
  body_context = "";
  body_deliverable_fmt = "markdown";
  body_deliverable_path = "";
  max_retries = pos 1;
}

create_task-Creates_example :
    (r : Response) × (v : World) × (create_task (some wanted) quiet_env start_world ≡ (ok r, v))
    × Creates quiet_env start_world v (some wanted) r
create_task-Creates_example =
    create_task-Creates quiet_env (some wanted) start_world quiet_env-IsQuiet
