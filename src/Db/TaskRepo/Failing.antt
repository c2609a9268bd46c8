-- ===== src/Db/TaskRepo/Failing.antt =====
-- FailTask of internal/db/task_repo.go, run alone: what it answers and what it leaves in the tables.
use acb_go.Prelude.{
  String, ◌≡◌, refl, ◌∙◌, true, false, none, some, arith, Option-cases, Bool-cases, inl, inr,
  eq_self,
}
use acb_go.Prelude.Int.{pos, ◌+ℤ◌, ◌≤ℤ◌, +ℤ_parts}
use acb_go.Models.{Status, is, Task}
use acb_go.Db.Rows.{find, Unique, key-find}
use acb_go.Db.Statement.{fail, retry, selects, assigns}
use acb_go.Session.{Env, World, Outcome, ok, err, M, pure, deref, ◌>>=◌, not_found, conflict}
use acb_go.Session.Quiet.{
  IsQuiet, time, ticked, exec_quiet, bind-ok, then-ok, if_true, if_false, deref-some,
}
use acb_go.Db.TaskRepo.Reads.{scan_task_row, get_by_id}
use acb_go.Db.TaskRepo.Update.{run-miss, run-absent}
use acb_go.Db.TaskRepo.Quiet.{get_by_id_quiet, refuse_quiet, refuse-missing}
use acb_go.Db.TaskRepo.Moves.{Moves, Moves-trans, Moves-tick, move_quiet}
use acb_go.Db.TaskRepo.Transitions.{FailTaskResult, requeue, may_retry, fail_task}

-- What a failed attempt may come to.
pub data FailSpec (id reason : String) (w v : World) : Outcome FailTaskResult → Type 0 where
  -- There is no such task.
  missing :
      find Task.id id w.store.tasks ≡ none
      → v.store ≡ w.store
      → FailSpec id reason w v (err (not_found id))
  -- It is not being worked on.
  refused :
      (t : Task)
      → find Task.id id w.store.tasks ≡ some t
      → is t.status Status.in_progress ≡ false
      → v.store ≡ w.store
      → FailSpec id reason w v (err (conflict t.status "task is not in in_progress status"))
  -- No retries are left.
  gave_up :
      (t u : Task)
      → find Task.id id w.store.tasks ≡ some t
      → is t.status Status.in_progress ≡ true
      → may_retry t ≡ false
      → u.status ≡ Status.failed
      → u.summary ≡ reason
      → Moves id u w v
      → FailSpec id reason w v
          (ok (record { task = u; did_retry = false; attempt = pos 0; max_retry = t.max_retries }))
  -- One is: the task is up for another agent, and the count stays within the limit.
  retried :
      (t u : Task)
      → find Task.id id w.store.tasks ≡ some t
      → is t.status Status.in_progress ≡ true
      → may_retry t ≡ true
      → u.status ≡ Status.pending
      → u.assignee ≡ ""
      → u.retry_count ≡ t.retry_count +ℤ pos 1
      → u.retry_count ≤ℤ t.max_retries
      → Moves id u w v
      → FailSpec id reason w v (
          ok (record {
            task = u;
            did_retry = true;
            attempt = u.retry_count;
            max_retry = t.max_retries;
          }))

within : (t : Task) → may_retry t ≡ true → (t.retry_count +ℤ pos 1) ≤ℤ t.max_retries
within t h = ground (arith, +ℤ_parts t.retry_count (pos 1))

-- Reading back the row of a task whose status is set.
fetched :
    {B : Type 0} (e : Env) (q : IsQuiet e) (id : String) (g : Task → M B) (w : World) (t : Task)
    → find Task.id id w.store.tasks ≡ some t
    → scan_task_row t ≡ t
    → (get_by_id id >>= λ o. deref o >>= g) e w ≡ g t e (ticked w)
fetched e q id g w t f h =
    bind-ok e (get_by_id id) (λ o. deref o >>= g) w (ticked w) (some t)
      (get_by_id_quiet e q id w ∙ rw (f, h) refl)
    ∙ deref-some e (ticked w) t g

module _ (e : Env) (q : IsQuiet e) (id reason : String) where
  requeued :
      (w : World)
      → Unique Task.id w.store.tasks
      → (task t : Task) → find Task.id id w.store.tasks ≡ some t
      → (v : World) × (requeue id reason task e w ≡ (
        ok (record {
          task = assigns (time e w) (retry id) t;
          did_retry = true;
          attempt = t.retry_count +ℤ pos 1;
          max_retry = task.max_retries;
        }),
        v,
      ))
        × Moves id (assigns (time e w) (retry id) t) w v
  unfolding requeue selects assigns scan_task_row pure
  requeued w k task t f =
      let now = time e w in
      let (v, x, r, l, m) =
        move_quiet e q (retry id) "TaskRetry" "" _ w t refl k f
          (rw (key-find Task.id id w.store.tasks t f) (eq_self id)) in
      (
        ticked x,
        bind-ok e _ _ w v 1 r
            ∙ then-ok e _ _ v x l
            ∙ fetched e q id _ x (assigns now (retry id) t) m.rewrites.new_row refl,
        Moves-tick m,
      )

module _ (e : Env) (q : IsQuiet e) (id reason : String) (w : World)
    (k : Unique Task.id w.store.tasks) where
  -- The UPDATE hits, and the row is read again.
  failed_quiet :
      (t : Task)
      → find Task.id id w.store.tasks ≡ some t
      → is t.status Status.in_progress ≡ true
      → (o : Outcome FailTaskResult) × (v : World) × (fail_task id reason e w ≡ (o, v))
        × FailSpec id reason w v o
  unfolding fail_task selects assigns scan_task_row pure
  failed_quiet t f y =
      let now = time e w in
      let u = assigns now (fail id reason) t in
      let (v, x, r, l, m) =
        move_quiet e q (fail id reason) "FailTask" "" reason w t refl k f
          (ground (arith, key-find Task.id id w.store.tasks t f, eq_self id)) in
      let so_far =
        bind-ok e _ _ w v 1 r
        ∙ then-ok e _ _ v x l
        ∙ fetched e q id _ x u m.rewrites.new_row refl in
      elim (Bool-cases (may_retry t)) [
        | inl b ↦
            let again = requeued e q id reason (ticked x) m.unique u u m.rewrites.new_row in
            (
              ok (record {
                task = assigns (time e (ticked x)) (retry id) u;
                did_retry = true;
                attempt = t.retry_count +ℤ pos 1;
                max_retry = t.max_retries;
              }),
              again.0,
              so_far ∙ if_true e (ticked x) (may_retry t) _ _ b ∙ again.1,
              FailSpec.retried t _ f y b refl refl refl (within t b)
                  (Moves-trans (Moves-tick m) again.2),
            )
        | inr b ↦ (
          ok (record { task = u; did_retry = false; attempt = pos 0; max_retry = t.max_retries }),
          ticked x,
          so_far ∙ if_false e (ticked x) (may_retry t) _ _ b,
          FailSpec.gave_up t u f y b refl refl (Moves-tick m),
        )
      ]

  -- Run alone, on tables with unique ids and a task whose status is set, FailTask reports a task that
  -- is not there, or that is not in progress, and changes nothing; otherwise the task fails with the
  -- reason as its summary or, if retries are left, is pending again for anybody with one more retry on
  -- its count, which stays within the limit. No other task changes and nothing is started.
  pub fail_task-FailSpec :
      ((t : Task) → find Task.id id w.store.tasks ≡ some t → is t.status Status.unset ≡ false)
      → (o : Outcome FailTaskResult) × (v : World) × (fail_task id reason e w ≡ (o, v))
        × FailSpec id reason w v o
  unfolding fail_task selects
  fail_task-FailSpec set = elim (Option-cases (find Task.id id w.store.tasks)) [
    | inl n ↦
        let x =
          exec_quiet e q _ w 0 w.store (run-absent (time e w) (fail id reason) w.store k refl n) in
        (
          err (not_found id),
          ticked (ticked w),
          bind-ok e _ _ w (ticked w) 0 x ∙ refuse-missing e q id _ (ticked w) n,
          FailSpec.missing n refl,
        )
    | inr (t, f) ↦ elim (Bool-cases (is t.status Status.in_progress)) [
      | inl y ↦ failed_quiet t f y
      | inr n ↦
          let x =
            exec_quiet e q _ w 0 w.store
              (run-miss (time e w) (fail id reason) w.store k refl t f (ground arith)) in
          (
            err (conflict t.status "task is not in in_progress status"),
            ticked (ticked w),
            bind-ok e _ _ w (ticked w) 0 x ∙ refuse_quiet e q id _ (ticked w) t f (set t f),
            FailSpec.refused t f n refl,
          )
    ]
  ]
