-- ===== src/Db/TaskRepo/Timeouts.antt =====
-- The three methods of internal/db/task_repo.go that the timeout service calls, run alone: they select
-- rows first and update them one by one.
use acb_go.Prelude.{ℕ, String, ◌≡◌, refl, ◌∙◌, true, List, arith, eq_iff, not}
use acb_go.Prelude.Int.{ℤ, ltb_ℤ, pos}
use acb_go.Models.{Status, Task}
use acb_go.Db.Rows.{Unique}
use acb_go.Db.Statement.{expire_pending, release, expire_stale, selects, assigns}
use acb_go.Session.{Env, World, ok, pure}
use acb_go.Session.Quiet.{IsQuiet, time, ticked, query_quiet, bind-ok, then-ok, if_false}
use acb_go.Db.TaskRepo.Expiry.{
  minutes, is_overdue, expire_pending_tasks, is_held_by, release_agent_tasks, is_stale,
  expire_stale_in_progress_tasks,
}
use acb_go.Db.TaskRepo.Sweeps.{Sweeps, swept-Sweeps, touched_by}

expired :
    (now : ℕ) (i : String) (x : Task)
    → x.status ≡ Status.failed
    → (touched_by now (expire_pending i) x).status ≡ Status.failed
unfolding selects assigns
expired now i x h = ground arith

-- Run alone with a limit above 0, on tables with unique ids, ExpirePendingTasks returns the ids of the
-- pending tasks that were created longer ago than the limit, however long they have been pending; these
-- have failed afterwards, and every other task is as it was.
pub expire_pending_tasks-Sweeps :
    (e : Env) (limit : ℤ) (w : World)
    → IsQuiet e
    → Unique Task.id w.store.tasks
    → ltb_ℤ (pos 0) limit ≡ true
    → (ids : List String) × (v : World) × (expire_pending_tasks limit e w ≡ (ok ids, v))
      × Sweeps (λ u. u.status ≡ Status.failed) (is_overdue (minutes limit) (time e w)) ids w v
unfolding expire_pending_tasks assigns selects is_overdue pure
expire_pending_tasks-Sweeps e limit w q u l =
    let (v, r, s) =
      swept-Sweeps e q expire_pending (λ i. refl) (λ i. refl) (λ x. x.status ≡ Status.failed)
        (λ now i x. refl) expired "PendingTimeout" _ (is_overdue (minutes limit) (time e w))
        (λ i x h y. ground (arith, eq_iff x.id i)) w u in
    (
      _,
      v,
      if_false e w (not (ltb_ℤ (pos 0) limit)) _ _ (rw l refl)
          ∙ bind-ok e _ _ w (ticked w) _ (query_quiet e q _ w)
          ∙ then-ok e _ _ (ticked w) v r,
      s,
    )

timed_out :
    (note : String) (now : ℕ) (i : String) (x : Task)
    → x.status ≡ Status.failed
    → (touched_by now (expire_stale i note) x).status ≡ Status.failed
unfolding selects assigns
timed_out note now i x h = ground arith

-- Run alone with a limit above 0, on tables with unique ids, ExpireStaleInProgressTasks returns the ids
-- of the tasks in progress whose last heartbeat, or creation where there is no heartbeat, is longer ago
-- than the limit, whenever they were started; these have failed afterwards, and every other task is as
-- it was.
pub expire_stale_in_progress_tasks-Sweeps :
    (e : Env) (limit : ℤ) (w : World)
    → IsQuiet e
    → Unique Task.id w.store.tasks
    → ltb_ℤ (pos 0) limit ≡ true
    → (ids : List String) × (v : World) × (expire_stale_in_progress_tasks limit e w ≡ (ok ids, v))
      × Sweeps (λ u. u.status ≡ Status.failed) (is_stale (minutes limit) (time e w)) ids w v
unfolding expire_stale_in_progress_tasks assigns selects is_stale pure
expire_stale_in_progress_tasks-Sweeps e limit w q u l =
    let (v, r, s) =
      swept-Sweeps e q (λ i. expire_stale i _) (λ i. refl) (λ i. refl)
        (λ x. x.status ≡ Status.failed) (λ now i x. refl) (timed_out _) "TaskHeartbeatTimeout" _
        (is_stale (minutes limit) (time e w)) (λ i x h y. ground (arith, eq_iff x.id i)) w u in
    (
      _,
      v,
      if_false e w (not (ltb_ℤ (pos 0) limit)) _ _ (rw l refl)
          ∙ bind-ok e _ _ w (ticked w) _ (query_quiet e q _ w)
          ∙ then-ok e _ _ (ticked w) v r,
      s,
    )

-- Free again for any agent.
abbrev pub IsFree : Task → Type 0
IsFree u = (u.status ≡ Status.pending) × (u.assignee ≡ "")

freed : (now : ℕ) (i : String) (x : Task) → IsFree x → IsFree (touched_by now (release i) x)
unfolding selects assigns
freed now i x (h, a) = (ground arith, ground arith)

-- Run alone, on tables with unique ids, ReleaseAgentTasks returns the ids of the tasks that the agent
-- has claimed or works on, these are pending and unassigned afterwards, and every other task is as it
-- was.
pub release_agent_tasks-Sweeps :
    (e : Env) (agent : String) (w : World)
    → IsQuiet e
    → Unique Task.id w.store.tasks
    → (ids : List String) × (v : World) × (release_agent_tasks agent e w ≡ (ok ids, v))
      × Sweeps IsFree (is_held_by agent) ids w v
unfolding release_agent_tasks assigns selects is_held_by pure
release_agent_tasks-Sweeps e agent w q u =
    let (v, r, s) =
      swept-Sweeps e q release (λ i. refl) (λ i. refl) IsFree (λ now i x. (refl, refl)) freed
        "StaleAgentRelease" _ (is_held_by agent) (λ i x h y. ground (arith, eq_iff x.id i)) w u in
    (_, v, bind-ok e _ _ w (ticked w) _ (query_quiet e q _ w) ∙ then-ok e _ _ (ticked w) v r, s)
