-- ===== src/Api/TaskHandler/Create.antt =====
-- internal/api/task_handler.go: CreateTask.
use acb_go.Prelude.{
  String, Bool, true, false, not, ◌&&◌, Option, none, some, List, [], ◌==◌, is_empty, if◌then◌else◌,
}
use acb_go.Prelude.Int.{ℤ, pos}
use acb_go.Models.{Status, Task}
use acb_go.Config.{Config, validate_skills, validate_tags}
use acb_go.Session.{M, publish, dispatch_new, pure, get_env, deref, spawn, or_respond, ◌>>=◌, ◌>>◌}
use acb_go.Db.TaskRepo.Reads.{get_by_id}
use acb_go.Db.TaskRepo.Transitions.{create}
use acb_go.Api.Response.{Response, task_or_null, write_json, write_error, write_error_safe}

pub record CreateInput : Type 0 where
  pub id : String
  pub title : String
  pub assignee : String
  pub priority : ℤ
  pub parents : List String
  pub skills : List String
  pub required_skills : List String
  pub tags : List String
  pub body_goal : String
  pub body_context : String
  pub body_deliverable_fmt : String
  pub body_deliverable_path : String
  pub max_retries : ℤ

-- uuid.New().String(), where the request names no id.
unfoldable pub choose_id : String → M String
choose_id id e w = if id == "" then pure (e.uuid w.calls) e w else pure id e w

unfoldable pub new_task : String → CreateInput → Task
new_task id input = record {
  id = id;
  title = input.title;
  assignee = input.assignee;
  status = Status.unset;
  priority = input.priority;
  parents = input.parents;
  skills = input.skills;
  required_skills = input.required_skills;
  tags = input.tags;
  body_goal = input.body_goal;
  body_context = input.body_context;
  body_deliverable_fmt = input.body_deliverable_fmt;
  body_deliverable_path = input.body_deliverable_path;
  created_at = 0;
  updated_at = 0;
  summary = "";
  artifacts = [];
  last_heartbeat = none;
  max_retries = input.max_retries;
  retry_count = pos 0;
}

-- `if h.dispatcher != nil { go … }`; a goroutine that is handed a nil task dereferences it.
unfoldable pub dispatch : Option Task → M (Unit {0})
dispatch task = do
  present ← get_env (λ e. e.has_dispatcher)
  if present then (do t ← deref task; spawn (dispatch_new t)) else pure tt

unfoldable pub store_task : Task → M Response
store_task task =
    or_respond (create task) (λ x. write_error_safe 500 "create_failed")
      λ _.
        or_respond (get_by_id task.id) (λ x. write_error_safe 500 "get_task_failed")
          λ created_task. do
            spawn (publish "new_task" task.id task.assignee "" "" task.required_skills)
            dispatch created_task
            pure (write_json 201 (task_or_null created_task))

unfoldable pub has_cfg : Option Config → Bool
has_cfg none = false
has_cfg (some c) = true

-- `len(l) > 0` and some entry is not in the catalog.
unfoldable pub breaks : (List String → List String) → List String → Bool
breaks validate l = not (is_empty l) && not (is_empty (validate l))

-- The three checks against the catalogs, in their order.
unfoldable pub checked : Option Config → CreateInput → M Response → M Response
checked cfg input rest =
    if breaks (validate_skills cfg) input.required_skills
    then pure (
        write_error 400 "invalid_required_skills"
          "one or more required skills are not in the allowed catalog")
    else if breaks (validate_skills cfg) input.skills
    then pure (write_error 400 "invalid_skills" "one or more skills are not in the allowed catalog")
    else if has_cfg cfg && breaks (validate_tags cfg) input.tags
    then pure (write_error 400 "invalid_tags" "one or more tags are not in the allowed catalog")
    else rest

unfoldable pub create_task : Option CreateInput → M Response
create_task none = pure (write_error 400 "invalid_json" "invalid request body")
create_task (some input) =
    if input.title == "" then pure (write_error 400 "missing_title" "title is required") else do
      id ← choose_id input.id
      cfg ← get_env (λ e. e.cfg)
      checked cfg input (store_task (new_task id input))
