-- ===== src/Lifecycle/Tasks.antt =====
-- A row of the table of tasks through a history of statements, and the graph of its statuses.
pub mod Graph
pub mod Moves
use acb_go.Prelude.{
  ℕ, String, ◌≡◌, Option, none, some, List, [], ◌∷◌, ◌++◌, if◌then◌else◌, subst, sym, ap, ◌∙◌,
}
use acb_go.Models.{Task}
use acb_go.Db.Rows.{find, find-append}
use acb_go.Db.Store.{Store}
use acb_go.Db.Statement.{Statement, update_task, TaskUpdate, selects, assigns, stored_task, after}
use acb_go.Session.Evolution.{
  Issued, Evolves, here, next, TasksChange, after-TasksChange, task-update,
}

-- What the statement says if it is an update of tasks.
abbrev pub ForUpdate : (TaskUpdate → Type 0) → Statement → Type 0
ForUpdate P (Statement.update_task u) = P u
ForUpdate P _ = Unit

-- Every update of tasks in the history is of this kind.
abbrev pub Only : (TaskUpdate → Type 0) → {s t : Store} → Evolves s t → Type 0
Only P here = Unit
Only P (next e now q _ _) = Only P e × ForUpdate P q

abbrev pub Row : String → (Task → Type 0) → Store → Type 0
Row id P s = (x : Task) × (find Task.id id s.tasks ≡ some x) × P x

abbrev pub touched : ℕ → TaskUpdate → Task → Task
touched now u x = if selects u x then assigns now u x else x

module _ (id : String) (P : Task → Type 0) (Allowed : TaskUpdate → Type 0)
    (keep : (now : ℕ) (u : TaskUpdate) (x : Task)
      → Issued (update_task u)
      → Allowed u
      → P x
      → P (touched now u x)) where
  Row-change :
      (now : ℕ) (q : Statement) (s : Store) (ts : List Task)
      → Issued q
      → ForUpdate Allowed q
      → TasksChange now q s ts
      → Row id P s
      → (y : Task) × (find Task.id id ts ≡ some y) × P y
  Row-change now q s ts i a (TasksChange.kept e) (x, f, p) = (x, rw e f, p)
  Row-change now q s ts i a (TasksChange.updated u c _ e) (x, f, p) = (
    touched now u x,
    rw (e, task-update now u id s.tasks, f),
    keep now u x (subst Issued c i) (subst (ForUpdate Allowed) c a) p,
  )
  Row-change now q s ts i a (TasksChange.inserted t _ _ e) (x, f, p) =
      (x, rw (e, find-append Task.id id s.tasks (stored_task now t ∷ []), f), p)

  -- A property of a row that the updates of a history keep holds of the row at its end.
  pub Row-ind : {s t : Store} (e : Evolves s t) → Only Allowed e → Row id P s → Row id P t
  Row-ind here o r = r
  Row-ind (next {t = t} e now q h eq) (o, a) r =
      subst (Row id P) (sym eq)
        (Row-change now q t _ h a (after-TasksChange now q t) (Row-ind e o r))
