-- ===== src/Lifecycle/Tasks/Moves.antt =====
-- The moves of a task in its status graph, one for each update of the table (task_repo.go).
use acb_go.Prelude.{
  ℕ, String, ◌≡◌, refl, true, false, arith, Bool-cases, inl, inr, ◌⊎◌, subst, eq_iff,
}
use acb_go.Prelude.Int.{pos, ◌≤ℤ◌, +ℤ_parts}
use acb_go.Models.{Status, Task}
use acb_go.Db.Statement.{
  Statement, update_task, TaskUpdate, set_status, claim, start, block, complete, fail, retry,
  expire_pending, release, expire_stale, heartbeat, set_artifacts, selects, assigns,
}
use acb_go.Db.TaskRepo.Update.{target, selects-target}
use acb_go.Session.Evolution.{Issued}
use acb_go.Lifecycle.Tasks.{touched}

-- The statuses in which an update takes hold of a task.
abbrev pub From : TaskUpdate → Status → Type 0
From (claim id a) s = s ≡ Status.pending
From (start id) s = s ≡ Status.claimed
From (block id) s = (s ≡ Status.in_progress) ⊎ (s ≡ Status.claimed)
From (complete id a) s = s ≡ Status.in_progress
From (fail id a) s = s ≡ Status.in_progress
From (expire_pending id) s = s ≡ Status.pending
From (expire_stale id a) s = s ≡ Status.in_progress
From u s = Unit

-- The status to which it takes the task from there; a status set by hand is in_progress.
abbrev pub leads_to : TaskUpdate → Status → Status
leads_to (set_status id s) a = Status.in_progress
leads_to (claim id w) a = Status.claimed
leads_to (start id) a = Status.in_progress
leads_to (block id) a = Status.blocked
leads_to (complete id w) a = Status.completed
leads_to (fail id w) a = Status.failed
leads_to (retry id) a = Status.pending
leads_to (expire_pending id) a = Status.failed
leads_to (release id) a = Status.pending
leads_to (expire_stale id w) a = Status.failed
leads_to (heartbeat id) a = a
leads_to (set_artifacts id w) a = a

-- Whom the task has after it.
abbrev pub holder : TaskUpdate → String → String
holder (claim id a) old = a
holder (retry id) old = ""
holder (release id) old = ""
holder u old = old

-- What no statement changes in a row, and the retries, which are never given back.
pub record Keeps (x y : Task) : Type 0 where
  pub same_title : y.title ≡ x.title
  pub same_priority : y.priority ≡ x.priority
  pub same_parents : y.parents ≡ x.parents
  pub same_required_skills : y.required_skills ≡ x.required_skills
  pub same_goal : y.body_goal ≡ x.body_goal
  pub same_creation : y.created_at ≡ x.created_at
  pub same_max_retries : y.max_retries ≡ x.max_retries
  pub retries_grow : x.retry_count ≤ℤ y.retry_count

assigned-Keeps : (now : ℕ) (u : TaskUpdate) (x : Task) → Keeps x (assigns now u x)
unfolding assigns
assigned-Keeps now (retry id) x = record {
  same_title = refl;
  same_priority = refl;
  same_parents = refl;
  same_required_skills = refl;
  same_goal = refl;
  same_creation = refl;
  same_max_retries = refl;
  retries_grow = omega (arith, +ℤ_parts x.retry_count (pos 1));
}
assigned-Keeps now u x = record {
  same_title = refl;
  same_priority = refl;
  same_parents = refl;
  same_required_skills = refl;
  same_goal = refl;
  same_creation = refl;
  same_max_retries = refl;
  retries_grow = omega arith;
}

-- One statement and the row of a task before and after it: an update that names the task and finds
-- it in one of its statuses takes it to the update's own status, and nothing else changes the row.
pub data Step (q : Statement) (x y : Task) : Type 0 where
  moves :
      (u : TaskUpdate)
      → q ≡ update_task u
      → x.id ≡ target u
      → From u x.status
      → y.status ≡ leads_to u x.status
      → y.assignee ≡ holder u x.assignee
      → Keeps x y
      → Step q x y
  stays :
      ((u : TaskUpdate) → q ≡ update_task u → x.id ≡ target u → From u x.status → ⊥)
      → y ≡ x
      → Step q x y

From-selected : (u : TaskUpdate) (x : Task) → selects u x ≡ true → From u x.status
unfolding selects
From-selected (set_status id s) x h = ground arith
From-selected (claim id a) x h = ground arith
From-selected (start id) x h = ground arith
From-selected (block id) x h = ground arith
From-selected (complete id a) x h = ground arith
From-selected (fail id a) x h = ground arith
From-selected (retry id) x h = ground arith
From-selected (expire_pending id) x h = ground arith
From-selected (release id) x h = ground arith
From-selected (expire_stale id a) x h = ground arith
From-selected (heartbeat id) x h = ground arith
From-selected (set_artifacts id a) x h = ground arith

passed_over :
    (u : TaskUpdate) (x : Task) → selects u x ≡ false → x.id ≡ target u → From u x.status → ⊥
unfolding selects
passed_over (set_status id s) x h k f = ground (arith, eq_iff x.id id)
passed_over (claim id a) x h k f = ground (arith, eq_iff x.id id)
passed_over (start id) x h k f = ground (arith, eq_iff x.id id)
passed_over (block id) x h k f = ground (arith, eq_iff x.id id)
passed_over (complete id a) x h k f = ground (arith, eq_iff x.id id)
passed_over (fail id a) x h k f = ground (arith, eq_iff x.id id)
passed_over (retry id) x h k f = ground (arith, eq_iff x.id id)
passed_over (expire_pending id) x h k f = ground (arith, eq_iff x.id id)
passed_over (release id) x h k f = ground (arith, eq_iff x.id id)
passed_over (expire_stale id a) x h k f = ground (arith, eq_iff x.id id)
passed_over (heartbeat id) x h k f = ground (arith, eq_iff x.id id)
passed_over (set_artifacts id a) x h k f = ground (arith, eq_iff x.id id)

-- The status and the holder that the SET clause writes.
assigned :
    (now : ℕ) (u : TaskUpdate) (x : Task)
    → Issued (update_task u)
    → ((assigns now u x).status ≡ leads_to u x.status)
      × ((assigns now u x).assignee ≡ holder u x.assignee)
unfolding assigns
assigned now (set_status id s) x i = (i, refl)
assigned now (claim id a) x i = (refl, refl)
assigned now (start id) x i = (refl, refl)
assigned now (block id) x i = (refl, refl)
assigned now (complete id a) x i = (refl, refl)
assigned now (fail id a) x i = (refl, refl)
assigned now (retry id) x i = (refl, refl)
assigned now (expire_pending id) x i = (refl, refl)
assigned now (release id) x i = (refl, refl)
assigned now (expire_stale id a) x i = (refl, refl)
assigned now (heartbeat id) x i = (refl, refl)
assigned now (set_artifacts id a) x i = (refl, refl)

pub touched-Step :
    (now : ℕ) (u : TaskUpdate) (x : Task)
    → Issued (update_task u)
    → Step (update_task u) x (touched now u x)
touched-Step now u x i = elim (Bool-cases (selects u x)) [
  | inl b ↦
      let (s, a) = assigned now u x i in
      rw b (
        Step.moves u refl (selects-target u x b) (From-selected u x b) s a (assigned-Keeps now u x))
  | inr b ↦ rw b (
      Step.stays
        (λ v e k f.
          let same : u ≡ v = cc in
          passed_over v x (subst (λ (w : TaskUpdate). selects w x ≡ false) same b) k f)
        refl)
]
