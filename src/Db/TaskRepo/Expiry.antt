-- ===== src/Db/TaskRepo/Expiry.antt =====
-- internal/db/task_repo.go: heartbeats, and the methods that the timeout service calls.
use acb_go.Prelude.{
  ℕ, ◌+◌, ◌*◌, String, ◌<>◌, Bool, not, ◌&&◌, ◌||◌, Option, none, some, List, [], ◌∷◌, map, ◌==◌,
  eqb, ltb, itoa_ℤ, if◌then◌else◌, filter,
}
use acb_go.Prelude.Int.{ℤ, pos, pos_part, ltb_ℤ}
use acb_go.Models.{Status, is, Task}
use acb_go.Db.Statement.{update_task, TaskUpdate, expire_pending, release, expire_stale, heartbeat}
use acb_go.Session.{M, not_found, invalid_timeout, pure, throw, exec, query, on_error, ◌>>=◌, ◌>>◌}
use acb_go.Db.TaskRepo.Reads.{log_task_event}

-- `$1::interval`, in microseconds.
abbrev pub minutes : ℤ → ℕ
minutes m = pos_part m * 60000000

-- A round of one of the three loops: an UPDATE that fails is logged and passed over.
unfoldable pub sweep_one : TaskUpdate → String → String → String → M (Unit {0})
sweep_one u id event detail =
    on_error (exec (update_task u) >>= λ n. log_task_event id event "" detail) (λ x. pure tt)

unfoldable pub sweep : (String → TaskUpdate) → String → String → List String → M (Unit {0})
sweep u event detail [] = pure tt
sweep u event detail (id ∷ ids) = sweep_one (u id) id event detail >> sweep u event detail ids

unfoldable pub is_overdue : ℕ → ℕ → Task → Bool
is_overdue limit now t = is t.status Status.pending && ltb (t.created_at + limit) now

unfoldable pub expire_pending_tasks : ℤ → M (List String)
expire_pending_tasks timeout = if not (ltb_ℤ (pos 0) timeout) then throw invalid_timeout else do
  ids ← query λ now s. map Task.id (filter (is_overdue (minutes timeout) now) s.tasks)
  sweep expire_pending "PendingTimeout"
      ("Task expired after " <> (itoa_ℤ timeout <> " minutes in pending status")) ids
  pure ids

unfoldable pub is_held_by : String → Task → Bool
is_held_by agent t =
    t.assignee == agent && (is t.status Status.claimed || is t.status Status.in_progress)

unfoldable pub release_agent_tasks : String → M (List String)
release_agent_tasks agent = do
  ids ← query λ now s. map Task.id (filter (is_held_by agent) s.tasks)
  sweep release "StaleAgentRelease" ("released from stale agent " <> agent) ids
  pure ids

unfoldable pub update_task_heartbeat : String → M (Unit {0})
update_task_heartbeat id = do
  n ← exec (update_task (heartbeat id))
  if eqb n 0 then throw (not_found id) else pure tt

-- The last heartbeat of a task, or its creation where there is none.
abbrev pub last_sign : Task → Option ℕ → ℕ
last_sign t none = t.created_at
last_sign t (some beat) = beat

unfoldable pub is_stale : ℕ → ℕ → Task → Bool
is_stale limit now t =
    is t.status Status.in_progress && ltb (last_sign t t.last_heartbeat + limit) now

unfoldable pub expire_stale_in_progress_tasks : ℤ → M (List String)
expire_stale_in_progress_tasks timeout = if not (ltb_ℤ (pos 0) timeout) then pure [] else do
  ids ← query λ now s. map Task.id (filter (is_stale (minutes timeout) now) s.tasks)
  sweep
      (λ id.
        expire_stale id
          ("Task timed out after " <> (itoa_ℤ timeout <> " minutes without heartbeat")))
      "TaskHeartbeatTimeout"
      ("Task expired after " <> (itoa_ℤ timeout <> " minutes without heartbeat")) ids
  pure ids
