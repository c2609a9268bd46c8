-- ===== src/Lifecycle/Tasks/Graph.antt =====
-- The walk of a task through its status graph, in every history of statements.
use acb_go.Prelude.{ℕ, String, ◌≡◌, refl, ◌≢◌, some, List, [], ◌∷◌}
use acb_go.Models.{Task}
use acb_go.Db.Rows.{find, update, find-append}
use acb_go.Db.Store.{Store}
use acb_go.Db.Statement.{
  Statement, insert_task, update_task, insert_gate, update_gate, upsert_agent, update_agent,
  insert_event, stored_task, after, run, TaskUpdate, set_status, claim, start, block, complete,
  fail, retry, expire_pending, release, expire_stale, heartbeat, set_artifacts, selects, assigns,
}
use acb_go.Session.Evolution.{
  Issued, Evolves, here, next, TasksChange, after-TasksChange, task-update,
}
use acb_go.Lifecycle.Tasks.{touched}
use acb_go.Lifecycle.Tasks.Moves.{Step, touched-Step}

-- The update is not refused.
updates_row :
    (now : ℕ) (u : TaskUpdate) (s : Store)
    → Issued (update_task u)
    → (after now (update_task u) s).tasks ≡ update (selects u) (assigns now u) s.tasks
unfolding after run
updates_row now (set_status id v) s i = rw i refl
updates_row now (claim id a) s i = refl
updates_row now (start id) s i = refl
updates_row now (block id) s i = refl
updates_row now (complete id a) s i = refl
updates_row now (fail id a) s i = refl
updates_row now (retry id) s i = refl
updates_row now (expire_pending id) s i = refl
updates_row now (release id) s i = refl
updates_row now (expire_stale id a) s i = refl
updates_row now (heartbeat id) s i = refl
updates_row now (set_artifacts id a) s i = refl

-- A statement that is no update of tasks leaves the row.
other_keeps :
    (now : ℕ) (q : Statement) (id : String) (s : Store) (x : Task)
    → ((u : TaskUpdate) → q ≢ update_task u)
    → find Task.id id s.tasks ≡ some x
    → (ts : List Task) → TasksChange now q s ts
    → find Task.id id ts ≡ some x
other_keeps now q id s x n f ts (TasksChange.kept e) = rw e f
other_keeps now q id s x n f ts (TasksChange.updated u c _ e) = absurd (n u c)
other_keeps now q id s x n f ts (TasksChange.inserted t _ _ e) =
    rw (e, find-append Task.id id s.tasks (stored_task now t ∷ []), f) refl

-- The row of a task after the next statement.
abbrev StepTo : String → ℕ → Statement → Store → Task → Type 0
StepTo id now q s x = (y : Task) × (find Task.id id (after now q s).tasks ≡ some y) × Step q x y

other_steps :
    (id : String) (now : ℕ) (q : Statement) (s : Store) (x : Task)
    → ((u : TaskUpdate) → q ≢ update_task u)
    → find Task.id id s.tasks ≡ some x
    → StepTo id now q s x
other_steps id now q s x n f = (
  x,
  other_keeps now q id s x n f _ (after-TasksChange now q s),
  Step.stays (λ u e _ _. n u e) refl,
)

steps :
    (id : String) (now : ℕ) (q : Statement) (s : Store) (x : Task)
    → Issued q
    → find Task.id id s.tasks ≡ some x
    → StepTo id now q s x
steps id now (update_task u) s x i f = (
  touched now u x,
  rw (updates_row now u s i, task-update now u id s.tasks, f) refl,
  touched-Step now u x i,
)
steps id now (insert_task t) s x i f = other_steps id now _ s x (λ u e. cc) f
steps id now (insert_gate g) s x i f = other_steps id now _ s x (λ u e. cc) f
steps id now (update_gate g) s x i f = other_steps id now _ s x (λ u e. cc) f
steps id now (upsert_agent a) s x i f = other_steps id now _ s x (λ u e. cc) f
steps id now (update_agent a) s x i f = other_steps id now _ s x (λ u e. cc) f
steps id now (insert_event k v a d) s x i f = other_steps id now _ s x (λ u e. cc) f

-- The rows that a task really has in a history: one for each of its statements, each with the step
-- that this statement made.
pub data Walk (id : String) (x : Task) {s : Store} : (t : Store) → Evolves s t → Task → Type 0 where
  rest : find Task.id id s.tasks ≡ some x → Walk id x s here x
  walk :
      {t u : Store} {e : Evolves s t} {now : ℕ} {q : Statement} {i : Issued q}
      {eq : u ≡ after now q t} {y z : Task}
      → Walk id x t e y
      → find Task.id id u.tasks ≡ some z
      → Step q y z
      → Walk id x u (next e now q i eq) z

-- In every history a task stays in the table, and every statement changes its row by a step of the
-- graph: only an update that names the task and finds it in a status in which this update may be
-- made (claim and expire_pending: pending; start: claimed; block: claimed or in_progress; complete,
-- fail and expire_stale: in_progress; retry, release and a status set by hand: any) takes it to this
-- update's status and holder; all others leave the row as it was. None changes its title, priority,
-- parents, required skills, goal, time of creation or retry limit, or lowers its count of retries.
pub task_walks :
    {s t : Store} (id : String) (x : Task) (e : Evolves s t)
    → find Task.id id s.tasks ≡ some x
    → (y : Task) × (find Task.id id t.tasks ≡ some y) × Walk id x t e y
task_walks id x here f = (x, f, Walk.rest f)
task_walks id x (next {t = t} {u = u} e now q i eq) f =
    let (y, g, w) = task_walks id x e f in
    let (z, h, m) = steps id now q t y i g in
    let k : find Task.id id u.tasks ≡ some z = rw eq h in (z, k, Walk.walk w k m)
