-- ===== src/Db/TaskRepo/Reads.antt =====
-- internal/db/task_repo.go: the queries of tasks, and the event log of task_event_repo.go.
use Prim.Native.Char.{code}
use acb_go.Prelude.{
  ℕ, ◌+◌, String, ◌<>◌, Bool, true, ◌&&◌, Option, none, some, List, [], ◌∷◌, map, ◌==◌, eqb,
  if◌then◌else◌, count, filter, length, is_empty,
}
use acb_go.Models.{status_text, Status, is, Task}
use acb_go.Config.{contains}
use acb_go.Db.Rows.{find}
use acb_go.Db.Statement.{insert_event}
use acb_go.Session.{Env, M, not_found, pure, throw, exec, query, get_env, on_error, if_nil, ◌>>=◌}

unfoldable pub scan_task_row : Task → Task
scan_task_row t = record t {
  status = if is t.status Status.unset then Status.pending else t.status;
}

abbrev pub scanned : Option Task → Option Task
scanned none = none
scanned (some t) = some (scan_task_row t)

unfoldable pub get_by_id : String → M (Option Task)
get_by_id id = query (λ now s. scanned (find Task.id id s.tasks))

-- An error of InsertEvent is dropped.
unfoldable pub log_task_event : String → String → String → String → M (Unit {0})
log_task_event id event agent detail = do
  present ← get_env (λ e. e.has_event_repo)
  if present
      then on_error (exec (insert_event id event agent detail) >>= λ n. pure tt) (λ x. pure tt)
      else pure tt

unfoldable pub get_tasks_by_ids : List String → M (List Task)
get_tasks_by_ids ids =
    if is_empty ids
    then pure []
    else query (λ now s. map scan_task_row (filter (λ t. contains ids t.id) s.tasks))

unfoldable pub are_parents_completed : List String → M Bool
are_parents_completed ids =
    if is_empty ids
    then pure true
    else query λ now s.
      eqb (count (λ t. contains ids t.id && is t.status Status.completed) s.tasks) (length ids)

unfoldable pub check_parents_completed : String → M Bool
check_parents_completed id = do
  task ← get_by_id id
  if_nil task (throw (not_found id)) λ t. are_parents_completed t.parents

-- strings.NewReplacer(`%`, `\%`, `_`, `\_`).
unfoldable pub escape : String → String
escape String.[] = ""
escape (String.◌∷◌ c s) =
    if eqb (code c) b'%'
    then "\\%" <> escape s
    else if eqb (code c) b'_'
    then "\\_" <> escape s
    else String.◌∷◌ c (escape s)

-- One `AND required_skills LIKE` for each skill.
unfoldable pub likes_all : Env → List String → Task → Bool
likes_all e [] t = true
likes_all e (skill ∷ rest) t =
    e.like (e.marshal t.required_skills) ("%" <> (escape skill <> "%")) && likes_all e rest t

unfoldable pub has_status : String → Task → Bool
has_status s t = if s == "" then true else status_text t.status == s

unfoldable pub has_assignee : String → Task → Bool
has_assignee a t = if a == "" then true else t.assignee == a

-- TaskRepo.List; the empty status, the empty assignee and no skill select every task.
unfoldable pub list : String → String → List String → M (List Task)
list status assignee skills = do
  e ← get_env (λ e. e)
  query λ now s.
      filter (λ t. has_status status t && has_assignee assignee t && likes_all e skills t) s.tasks

-- `parents LIKE '%id%'`.
unfoldable pub mentions : Env → String → Task → Bool
mentions e id t = e.like (e.marshal t.parents) ("%" <> (id <> "%"))

-- The ids of the children, and of the pending ones.
unfoldable pub children_ids : String → M (List String)
children_ids id = do
  e ← get_env (λ e. e)
  query λ now s. map Task.id (filter (mentions e id) s.tasks)

unfoldable pub pending_children_ids : String → M (List String)
pending_children_ids id = do
  e ← get_env (λ e. e)
  query λ now s. map Task.id (filter (λ t. mentions e id t && is t.status Status.pending) s.tasks)

pub record TaskGraph : Type 0 where
  pub task : Task
  pub parents : List Task
  pub children : List Task

-- A failed batch load leaves the list empty.
unfoldable pub get_dependency_graph : String → M (Option TaskGraph)
get_dependency_graph id = do
  task ← get_by_id id
  if_nil task (pure none) λ t. do
    parents ← on_error (get_tasks_by_ids t.parents) (λ x. pure [])
    ids ← children_ids id
    children ← on_error (get_tasks_by_ids ids) (λ x. pure [])
    pure (some (record { task = t; parents = parents; children = children }))

pub record TaskCounts : Type 0 where
  pub pending : ℕ
  pub claimed : ℕ
  pub in_progress : ℕ
  pub blocked : ℕ
  pub completed : ℕ
  pub failed : ℕ
  pub total : ℕ

-- SELECT status, COUNT(*) … GROUP BY status; a status without rows keeps the zero of Go's struct.
unfoldable pub tally : List Task → TaskCounts
tally ts =
    let n = λ (s : Status). count (λ t. is t.status s) ts in
    record {
      pending = n Status.pending;
      claimed = n Status.claimed;
      in_progress = n Status.in_progress;
      blocked = n Status.blocked;
      completed = n Status.completed;
      failed = n Status.failed;
      total =
          n Status.pending
          + n Status.claimed
          + n Status.in_progress
          + n Status.blocked
          + n Status.completed
          + n Status.failed;
    }

unfoldable pub get_task_counts : M TaskCounts
get_task_counts = query (λ now s. tally s.tasks)
