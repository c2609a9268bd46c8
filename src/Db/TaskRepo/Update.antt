-- ===== src/Db/TaskRepo/Update.antt =====
-- An UPDATE of the task with one id: the row that it changes, the rows that it leaves, and how many it
-- reports.
use acb_go.Prelude.{
  ℕ, String, ◌≡◌, ◌≢◌, refl, true, false, none, some, List, arith, eq_iff, Option-cases, inl, inr,
}
use acb_go.Models.{Task}
use acb_go.Db.Rows.{
  find, update, key-find, Unique, absent_count, absent_update, refused_count, refused_update,
  admitted_count,
}
use acb_go.Db.Store.{Store}
use acb_go.Db.Statement.{
  run, TaskUpdate, update_task, set_status, claim, start, block, complete, fail, retry,
  expire_pending, release, expire_stale, heartbeat, set_artifacts, selects, assigns, admits,
}
use acb_go.Session.Evolution.{task-update}

-- The id in the WHERE clause.
abbrev pub target : TaskUpdate → String
target (set_status id _) = id
target (claim id _) = id
target (start id) = id
target (block id) = id
target (complete id _) = id
target (fail id _) = id
target (retry id) = id
target (expire_pending id) = id
target (release id) = id
target (expire_stale id _) = id
target (heartbeat id) = id
target (set_artifacts id _) = id

pub selects-target : (u : TaskUpdate) (t : Task) → selects u t ≡ true → t.id ≡ target u
unfolding selects
selects-target (set_status id _) t h = ground (arith, eq_iff t.id id)
selects-target u t h = ground (arith, eq_iff t.id (target u))

module _ (now : ℕ) (u : TaskUpdate) (s : Store) (unique : Unique Task.id s.tasks)
    (ok : admits u ≡ true) where
  -- The tables after the update.
  abbrev pub updated_store : Store
  updated_store = record s { tasks = update (selects u) (assigns now u) s.tasks }

  pub run-hit :
      (t : Task)
      → find Task.id (target u) s.tasks ≡ some t
      → selects u t ≡ true
      → run now (update_task u) s ≡ some (1, updated_store)
  unfolding run
  run-hit t f h =
      rw
        (
          ok,
          admitted_count Task.id (selects u) (assigns now u) (target u) (selects-target u) s.tasks t
              unique f h,
        )
        refl

  pub run-miss :
      (t : Task)
      → find Task.id (target u) s.tasks ≡ some t
      → selects u t ≡ false
      → run now (update_task u) s ≡ some (0, s)
  unfolding run
  run-miss t f h =
      rw
        (
          ok,
          refused_count Task.id (selects u) (assigns now u) (target u) (selects-target u) s.tasks t
              unique f h,
          refused_update Task.id (selects u) (assigns now u) (target u) (selects-target u) s.tasks t
              unique f h,
        )
        refl

  pub run-absent : find Task.id (target u) s.tasks ≡ none → run now (update_task u) s ≡ some (0, s)
  unfolding run
  run-absent f =
      rw
        (
          ok,
          absent_count Task.id (selects u) (assigns now u) (target u) (selects-target u) s.tasks f,
          absent_update Task.id (selects u) (assigns now u) (target u) (selects-target u) s.tasks f,
        )
        refl

pub target_row :
    (now : ℕ) (u : TaskUpdate) (ts : List Task) (t : Task)
    → find Task.id (target u) ts ≡ some t
    → selects u t ≡ true
    → find Task.id (target u) (update (selects u) (assigns now u) ts) ≡ some (assigns now u t)
target_row now u ts t f h = rw (task-update now u (target u) ts, f, h) refl

pub other_row :
    (now : ℕ) (u : TaskUpdate) (ts : List Task) (k : String)
    → k ≢ target u
    → find Task.id k (update (selects u) (assigns now u) ts) ≡ find Task.id k ts
other_row now u ts k n = elim (Option-cases (find Task.id k ts)) [
  | inl e ↦ ground (arith, task-update now u k ts)
  | inr (t, e) ↦
      ground (arith, task-update now u k ts, selects-target u t, key-find Task.id k ts t e, n)
]
