-- ===== src/Db/TaskRepo/Transitions.antt =====
-- internal/db/task_repo.go: the methods that create a task and move it from status to status.
use acb_go.Prelude.{
  String, ◌<>◌, Bool, true, false, ◌&&◌, Option, none, some, List, [], ◌∷◌, eqb, itoa_ℤ,
  if◌then◌else◌,
}
use acb_go.Prelude.Int.{ℤ, pos, ◌+ℤ◌, ltb_ℤ}
use acb_go.Models.{Status, is, Task}
use acb_go.Db.Rows.{find}
use acb_go.Db.Statement.{
  insert_task, update_task, set_status, claim, start, block, complete, fail, retry,
}
use acb_go.Session.{M, not_found, conflict, pure, throw, deref, exec, query, on_error, ◌>>=◌, ◌>>◌}
use acb_go.Db.TaskRepo.Reads.{
  get_by_id, log_task_event, check_parents_completed, pending_children_ids,
}

unfoldable pub create : Task → M (Unit {0})
create t = do
  let task = record t { status = if is t.status Status.unset then Status.pending else t.status }
  n ← exec (insert_task task)
  log_task_event task.id "CreateTask" task.assignee ""

unfoldable pub update_status : String → Status → M (Unit {0})
update_status id status = do
  n ← exec (update_task (set_status id status))
  if eqb n 0 then throw (not_found id) else log_task_event id "UpdateStatus" "" ""

abbrev status_of : Option Task → Status
status_of none = Status.unset
status_of (some t) = t.status

-- `Scan(&current)` with its error dropped: the empty string if there is no row.
unfoldable pub current_status : String → M Status
current_status id =
    on_error (query (λ now s. status_of (find Task.id id s.tasks))) (λ x. pure Status.unset)

-- What an update that affected no row returns.
unfoldable pub refuse : {A : Type 0} → String → String → M A
refuse id message = do
  current ← current_status id
  if is current Status.unset then throw (not_found id) else throw (conflict current message)

unfoldable pub claim_task : String → String → M (Option Task)
claim_task id assignee = do
  n ← exec (update_task (claim id assignee))
  if eqb n 0
      then refuse id "task is not in pending status"
      else log_task_event id "ClaimTask" assignee "" >> get_by_id id

unfoldable pub start_task : String → M (Option Task)
start_task id = do
  n ← exec (update_task (start id))
  if eqb n 0
      then refuse id "task is not in claimed status"
      else log_task_event id "StartTask" "" "" >> get_by_id id

-- A task that is not there is reported as a conflict with an empty status.
unfoldable pub block_task : String → M (Option Task)
block_task id = do
  n ← exec (update_task (block id))
  if eqb n 0
      then (do
        current ← current_status id
        throw (conflict current "task is not in in_progress or claimed status"))
      else log_task_event id "BlockTask" "" "" >> get_by_id id

-- One round of the loop of PromoteChildren; a failed check is passed over.
unfoldable pub promote_child : String → String → M (Unit {0})
promote_child id child = do
  all_done ← on_error (check_parents_completed child) (λ x. pure false)
  if all_done
      then log_task_event child "ParentsCompleted" "" ("parent " <> (id <> " completed"))
      else pure tt

unfoldable pub promote_each : String → List String → M (Unit {0})
promote_each id [] = pure tt
promote_each id (child ∷ rest) = promote_child id child >> promote_each id rest

unfoldable pub promote_children : String → M (Unit {0})
promote_children id = pending_children_ids id >>= promote_each id

unfoldable pub complete_task : String → String → M (Option Task)
complete_task id summary = do
  n ← exec (update_task (complete id summary))
  if eqb n 0 then refuse id "task is not in in_progress status" else (do
    log_task_event id "CompleteTask" "" summary
    completed_task ← get_by_id id
    on_error (promote_children id) (λ x. pure tt)
    pure completed_task)

pub record FailTaskResult : Type 0 where
  pub task : Task
  pub did_retry : Bool
  pub attempt : ℤ
  pub max_retry : ℤ

-- The second half of FailTask: the task goes back to pending.
unfoldable pub requeue : String → String → Task → M FailTaskResult
requeue id reason task = do
  n ← exec (update_task (retry id))
  log_task_event id "TaskRetry" "" (
      "retry "
      <> (itoa_ℤ (task.retry_count +ℤ pos 1)
          <> ("/" <> (itoa_ℤ task.max_retries <> (": " <> reason)))))
  again ← get_by_id id
  t ← deref again
  pure
      (record { task = t; did_retry = true; attempt = t.retry_count; max_retry = task.max_retries })

abbrev pub may_retry : Task → Bool
may_retry t = ltb_ℤ (pos 0) t.max_retries && ltb_ℤ t.retry_count t.max_retries

unfoldable pub fail_task : String → String → M FailTaskResult
fail_task id reason = do
  n ← exec (update_task (fail id reason))
  if eqb n 0 then refuse id "task is not in in_progress status" else (do
    log_task_event id "FailTask" "" reason
    found ← get_by_id id
    task ← deref found
    if may_retry task
        then requeue id reason task
        else pure (record {
          task = task;
          did_retry = false;
          attempt = pos 0;
          max_retry = task.max_retries;
        }))
