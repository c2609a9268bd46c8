-- ===== src/Db/TaskRepo/Moves.antt =====
-- A transition of internal/db/task_repo.go that runs alone: an UPDATE that hits, and its log entry.
use acb_go.Prelude.{String, ◌≡◌, ◌≢◌, refl, ◌∙◌, true, some}
use acb_go.Models.{Task}
use acb_go.Db.Rows.{find, Unique, Unique-update}
use acb_go.Db.Statement.{TaskUpdate, update_task, selects, assigns, admits}
use acb_go.Session.{Env, World, ok, exec}
use acb_go.Session.Evolution.{id-assigns}
use acb_go.Session.Quiet.{IsQuiet, ticked, time, wrote, exec_quiet}
use acb_go.Db.TaskRepo.Reads.{log_task_event}
use acb_go.Db.TaskRepo.Update.{run-hit, target, target_row, other_row, updated_store}
use acb_go.Db.TaskRepo.Quiet.{SameRows, log_quiet}

-- Between the two worlds the task `id` came to have the row u, and no other row of a task changed.
pub record Rewrites (id : String) (u : Task) (w v : World) : Type 0 where
  pub new_row : find Task.id id v.store.tasks ≡ some u
  pub other_rows :
      (k : String) → k ≢ id → find Task.id k v.store.tasks ≡ find Task.id k w.store.tasks

Rewrites-trans :
    {id : String} {t u : Task} {w v x : World}
    → Rewrites id t w v
    → Rewrites id u v x
    → Rewrites id u w x
Rewrites-trans p q = record {
  new_row = q.new_row;
  other_rows = λ k n. q.other_rows k n ∙ p.other_rows k n;
}

-- The same, with what the next call needs.
pub record Moves (id : String) (u : Task) (w v : World) : Type 0 where
  pub rewrites : Rewrites id u w v
  pub unique : Unique Task.id v.store.tasks
  pub same_gates : v.store.gates ≡ w.store.gates
  pub same_spawned : v.spawned ≡ w.spawned

pub Moves-trans :
    {id : String} {t u : Task} {w v x : World} → Moves id t w v → Moves id u v x → Moves id u w x
Moves-trans p q = record {
  rewrites = Rewrites-trans p.rewrites q.rewrites;
  unique = q.unique;
  same_gates = q.same_gates ∙ p.same_gates;
  same_spawned = q.same_spawned ∙ p.same_spawned;
}

Moves-log :
    {id : String} {u : Task} {w v x : World} → Moves id u w v → SameRows v x → Moves id u w x
Moves-log p q = record {
  rewrites = record {
    new_row = rw q.same_tasks p.rewrites.new_row;
    other_rows = λ k n. rw q.same_tasks (p.rewrites.other_rows k n);
  };
  unique = rw q.same_tasks p.unique;
  same_gates = q.same_gates ∙ p.same_gates;
  same_spawned = q.same_spawned ∙ p.same_spawned;
}

module _ (e : Env) (q : IsQuiet e) where
  -- A transition of a row that its WHERE clause selects, with its entry in the log.
  pub move_quiet :
      (u : TaskUpdate) (event agent detail : String) (w : World) (t : Task)
      → admits u ≡ true
      → Unique Task.id w.store.tasks
      → find Task.id (target u) w.store.tasks ≡ some t
      → selects u t ≡ true
      → (v x : World) × (exec (update_task u) e w ≡ (ok 1, v))
        × (log_task_event (target u) event agent detail e v ≡ (ok tt, x))
        × Moves (target u) (assigns (time e w) u t) w x
  move_quiet u event agent detail w t a k f h =
      let now = time e w in
      let v = wrote w (updated_store now u w.store k a) in
      let (x, l, s) = log_quiet e q (target u) event agent detail v in
      (
        v,
        x,
        exec_quiet e q _ w 1 _ (run-hit now u w.store k a t f h),
        l,
        Moves-log
            (record {
              rewrites = record {
                new_row = target_row now u w.store.tasks t f h;
                other_rows = other_row now u w.store.tasks;
              };
              unique =
                  Unique-update Task.id (selects u) (assigns now u) (λ y _. id-assigns now u y)
                    w.store.tasks k;
              same_gates = refl;
              same_spawned = refl;
            })
            s,
      )

pub Moves-tick : {id : String} {u : Task} {w v : World} → Moves id u w v → Moves id u w (ticked v)
Moves-tick m = record {
  rewrites = record { new_row = m.rewrites.new_row; other_rows = m.rewrites.other_rows };
  unique = m.unique;
  same_gates = m.same_gates;
  same_spawned = m.same_spawned;
}
