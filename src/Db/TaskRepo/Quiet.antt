-- ===== src/Db/TaskRepo/Quiet.antt =====
-- What the methods of the task repository do when they run alone.
use acb_go.Prelude.{
  ℕ, String, ◌≡◌, refl, ◌∙◌, false, none, some, arith, Option-cases, Bool-cases, inl, inr,
}
use acb_go.Models.{Status, is, Task}
use acb_go.Db.Rows.{find}
use acb_go.Db.Store.{Store}
use acb_go.Db.Statement.{run, insert_event}
use acb_go.Session.{
  Env, World, ok, err, pure, throw, exec, get_env, on_error, ◌>>=◌, not_found, conflict,
}
use acb_go.Session.Quiet.{
  IsQuiet, time, ticked, wrote, query_quiet, exec_quiet, exec-refused, bind-ok, bind-err,
  on_error-ok, on_error-err, if_true, if_false,
}
use acb_go.Db.TaskRepo.Reads.{scan_task_row, scanned, get_by_id, log_task_event}
use acb_go.Db.TaskRepo.Transitions.{current_status, refuse}

-- A row with a status is read as it is.
pub scan_set : (t : Task) → is t.status Status.unset ≡ false → scan_task_row t ≡ t
unfolding scan_task_row
scan_set t h = rw h refl

-- The event log apart, nothing is different.
pub record SameRows (w v : World) : Type 0 where
  pub same_tasks : v.store.tasks ≡ w.store.tasks
  pub same_gates : v.store.gates ≡ w.store.gates
  pub same_agents : v.store.agents ≡ w.store.agents
  pub same_spawned : v.spawned ≡ w.spawned

logged_rows :
    (id event agent detail : String) (now n : ℕ) (w : World) (s : Store)
    → run now (insert_event id event agent detail) w.store ≡ some (n, s)
    → SameRows w (wrote w s)
unfolding run
logged_rows id event agent detail now n w s h = record {
  same_tasks = ground arith;
  same_gates = ground arith;
  same_agents = ground arith;
  same_spawned = refl;
}

module _ (e : Env) (q : IsQuiet e) where
  log_event_quiet :
      (id event agent detail : String) (w : World)
      → (v : World) × (on_error
            (exec (insert_event id event agent detail) >>= λ n. pure tt)
            (λ x. pure tt)
            e
            w
          ≡ (ok tt, v))
        × SameRows w v
  unfolding pure
  log_event_quiet id event agent detail w =
      elim (Option-cases (run (time e w) (insert_event id event agent detail) w.store)) [
        | inl h ↦ (
          ticked w,
          on_error-err e _ _ w _ _ (bind-err e _ _ w _ _ (exec-refused e q _ w h)),
          record { same_tasks = refl; same_gates = refl; same_agents = refl; same_spawned = refl },
        )
        | inr ((n, s), h) ↦ (
          wrote w s,
          on_error-ok e _ _ w _ _ (bind-ok e _ _ w _ _ (exec_quiet e q _ w n s h)),
          logged_rows id event agent detail (time e w) n w s h,
        )
      ]

  -- Writing the log succeeds, or its error is dropped.
  pub log_quiet :
      (id event agent detail : String) (w : World)
      → (v : World) × (log_task_event id event agent detail e w ≡ (ok tt, v)) × SameRows w v
  unfolding log_task_event get_env ◌>>=◌ pure
  log_quiet id event agent detail w = elim (Bool-cases e.has_event_repo) [
    | inl y ↦
        let (v, h, s) = log_event_quiet id event agent detail w in
        (v, if_true e w e.has_event_repo _ _ y ∙ h, s)
    | inr n ↦ (
      w,
      if_false e w e.has_event_repo _ _ n,
      record { same_tasks = refl; same_gates = refl; same_agents = refl; same_spawned = refl },
    )
  ]

  pub get_by_id_quiet :
      (id : String) (w : World)
      → get_by_id id e w ≡ (ok (scanned (find Task.id id w.store.tasks)), ticked w)
  unfolding get_by_id
  get_by_id_quiet id w = query_quiet e q _ w

  -- What the second query of a refused transition finds.
  pub refuse_quiet :
      {A : Type 0} (id message : String) (w : World) (t : Task)
      → find Task.id id w.store.tasks ≡ some t
      → is t.status Status.unset ≡ false
      → refuse {A = A} id message e w ≡ (err (conflict t.status message), ticked w)
  unfolding refuse current_status throw
  refuse_quiet id message w t f n =
      bind-ok e _ _ w (ticked w) t.status
        (on_error-ok e _ _ w _ _ (query_quiet e q _ w ∙ rw f refl))
      ∙ if_false e (ticked w) (is t.status Status.unset) _ _ n

  pub refuse-missing :
      {A : Type 0} (id message : String) (w : World)
      → find Task.id id w.store.tasks ≡ none
      → refuse {A = A} id message e w ≡ (err (not_found id), ticked w)
  unfolding refuse current_status throw
  refuse-missing id message w f =
      bind-ok e _ _ w (ticked w) Status.unset
        (on_error-ok e _ _ w _ _ (query_quiet e q _ w ∙ rw f refl))
