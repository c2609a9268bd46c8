-- ===== src/Db/TaskRepo/Artifacts.antt =====
-- internal/db/task_repo.go: the list of artifacts in a task's row.
use acb_go.Prelude.{String, not, Option, none, some, List, [], ◌∷◌, ◌++◌, ◌==◌, filter}
use acb_go.Models.{Artifact, Task}
use acb_go.Db.Rows.{find}
use acb_go.Db.Statement.{update_task, set_artifacts}
use acb_go.Session.{M, not_found, pure, throw, exec, query, if_nil, ◌>>=◌}

abbrev artifacts_of : Option Task → Option (List Artifact)
artifacts_of none = none
artifacts_of (some t) = some t.artifacts

-- getArtifactsJSON, and the decoding that its callers do.
unfoldable pub get_artifacts : String → M (List Artifact)
get_artifacts id = do
  found ← query (λ now s. artifacts_of (find Task.id id s.tasks))
  if_nil found (throw (not_found id)) λ list. pure list

-- The number of rows is not looked at.
unfoldable pub set_artifacts_json : String → List Artifact → M (Unit {0})
set_artifacts_json id list = exec (update_task (set_artifacts id list)) >>= λ n. pure tt

unfoldable pub add_artifact : String → Artifact → M (Unit {0})
add_artifact id artifact = do list ← get_artifacts id; set_artifacts_json id (list ++ artifact ∷ [])

unfoldable pub remove_artifact : String → String → M (Unit {0})
remove_artifact id key = do
  list ← get_artifacts id
  set_artifacts_json id (filter (λ a. not (a.key == key)) list)
