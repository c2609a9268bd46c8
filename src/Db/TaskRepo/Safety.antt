-- ===== src/Db/TaskRepo/Safety.antt =====
-- The methods of the repositories never dereference nil and send issued statements only. Those that
-- read the row of a task that is known to be there do not come back with nil.
use acb_go.Prelude.{eq_self, ℕ, String, ◌≡◌, refl, Option, none, some, List, [], ◌∷◌, arith, eqb}
use acb_go.Prelude.Int.{pos}
use acb_go.Models.{Status, is, Task}
use acb_go.Db.Rows.{find, find-append}
use acb_go.Db.Store.{Store}
use acb_go.Db.Statement.{stored_task, run, insert_task}
use acb_go.Session.{M, deref, query, ◌>>=◌}
use acb_go.Session.Evolution.{HasTask}
use acb_go.Session.Safe.{
  Fact, unreached, unknown, row, Holds, Safe, Safe-pure, Safe-throw, Safe-query, Safe-exec,
  Safe-bind, Safe-exec_know, Safe->>, Safe-if, Safe-if_nil, Safe-on_error, Safe-return, Safe-then,
  Safe-deref, Safe-unreached, if_found, not_nil, safe_rules,
}
use acb_go.Db.TaskRepo.Reads.{
  scanned, get_by_id, log_task_event, are_parents_completed, check_parents_completed,
  pending_children_ids,
}
use acb_go.Db.TaskRepo.Transitions.{
  create, update_status, current_status, refuse, claim_task, start_task, block_task, promote_child,
  promote_each, promote_children, complete_task, requeue, fail_task,
}

-- A query of which nothing is learned.
pub Safe-read : {A : Type 0} (k : Fact) (g : ℕ → Store → A) → Safe k (query g) (λ _. k)
Safe-read k g = Safe-query k (λ _. k) g (λ now s h. h)

found :
    (id : String) (s : Store) (o : Option Task)
    → find Task.id id s.tasks ≡ o
    → Holds (if_found id (scanned o)) s
found id s none e = tt
found id s (some t) e = (t, e)

still_found :
    (id : String) (s : Store) (o : Option Task)
    → find Task.id id s.tasks ≡ o
    → Holds (row id) s
    → Holds (not_nil id (scanned o)) s
still_found id s none e (t, h) = cc
still_found id s (some t) e h = h

pub lookup-Safe : (id : String) → Safe unknown (get_by_id id) (if_found id)
unfolding get_by_id
lookup-Safe id = Safe-query unknown (if_found id) _ (λ now s _. found id s _ refl)

pub reread-Safe : (id : String) → Safe (row id) (get_by_id id) (not_nil id)
unfolding get_by_id
reread-Safe id = Safe-query (row id) (not_nil id) _ (λ now s h. still_found id s _ refl h)

-- Reading the row of a task that is there, and using it.
pub Safe-fetch :
    {B : Type 0} (id : String) (R : B → Fact) (g : Task → M B)
    → ((t : Task) → Safe (row id) (g t) R)
    → Safe (row id) (get_by_id id >>= λ o. deref o >>= g) R
Safe-fetch id R g sg =
    Safe-bind (row id) (not_nil id) R _ _ (reread-Safe id)
      λ o. Safe-bind (not_nil id o) (λ _. row id) R _ _ (Safe-deref id o) sg

pub get_by_id-Safe : (k : Fact) (id : String) → Safe k (get_by_id id) (λ _. k)
unfolding get_by_id
get_by_id-Safe k id = Safe-read k _

pub log_task_event-Safe :
    (k : Fact) (id event agent detail : String)
    → Safe k (log_task_event id event agent detail) (λ _. k)
unfolding log_task_event
log_task_event-Safe k id event agent detail = search safe_rules depth 14

pub current_status-Safe : (k : Fact) (id : String) → Safe k (current_status id) (λ _. k)
unfolding current_status
current_status-Safe k id = search (safe_rules, Safe-read) depth 14

pub refuse-Safe :
    {A : Type 0} (k : Fact) (Q : A → Fact) (id message : String)
    → Safe k (refuse {A = A} id message) Q
unfolding refuse
refuse-Safe k Q id message = search (safe_rules, current_status-Safe) depth 14

pub ruleset repo_rules =
    (safe_rules, Safe-read, log_task_event-Safe, refuse-Safe, current_status-Safe, reread-Safe)

inserted_row :
    (t : Task) (now n : ℕ) (s u : Store) → run now (insert_task t) s ≡ some (n, u) → HasTask t.id u
unfolding run find
inserted_row t now n s u h = (
  stored_task now t,
  ground (arith, find-append Task.id t.id s.tasks (stored_task now t ∷ []), eq_self t.id),
)

-- A task without a status, as the handler makes it; it is there afterwards.
pub create-Safe :
    (t : Task)
    → t.status ≡ Status.unset
    → t.retry_count ≡ pos 0
    → Safe unknown (create t) (λ _. row t.id)
unfolding create
create-Safe t e z =
    Safe-bind unknown (λ _. row t.id) (λ _. row t.id) _ _
      (Safe-exec_know unknown (row t.id) _ (rw (e, is) refl, z)
        (λ now n s u. inserted_row _ now n s u))
      λ n. log_task_event-Safe (row t.id) t.id _ _ _

pub update_status-Safe :
    (k : Fact) (id : String) → Safe k (update_status id Status.in_progress) (λ _. k)
unfolding update_status
update_status-Safe k id = search repo_rules depth 14

pub claim_task-Safe : (id assignee : String) → Safe (row id) (claim_task id assignee) (not_nil id)
unfolding claim_task
claim_task-Safe id assignee = search repo_rules depth 14

pub start_task-Safe : (id : String) → Safe (row id) (start_task id) (not_nil id)
unfolding start_task
start_task-Safe id = search repo_rules depth 14

pub block_task-Safe : (id : String) → Safe (row id) (block_task id) (not_nil id)
unfolding block_task
block_task-Safe id = search repo_rules depth 14

are_parents_completed-Safe :
    (k : Fact) (ids : List String) → Safe k (are_parents_completed ids) (λ _. k)
unfolding are_parents_completed
are_parents_completed-Safe k ids = search repo_rules depth 14

pub check_parents_completed-Safe :
    (k : Fact) (id : String) → Safe k (check_parents_completed id) (λ _. k)
unfolding check_parents_completed
check_parents_completed-Safe k id =
    Safe-then k (λ _. k) _ _ (get_by_id-Safe k id)
      λ task.
        Safe-if_nil (λ _. k) (λ _. k) task _ _ (search safe_rules)
          (λ t. are_parents_completed-Safe k t.parents)

promote_child-Safe : (k : Fact) (id child : String) → Safe k (promote_child id child) (λ _. k)
unfolding promote_child
promote_child-Safe k id child = search (repo_rules, check_parents_completed-Safe) depth 14

promote_each-Safe :
    (k : Fact) (id : String) (ids : List String) → Safe k (promote_each id ids) (λ _. k)
unfolding promote_each
promote_each-Safe k id [] = Safe-pure k tt
promote_each-Safe k id (child ∷ rest) =
    Safe->> k (λ _. k) _ _ (promote_child-Safe k id child) (promote_each-Safe k id rest)

promote_children-Safe : (k : Fact) (id : String) → Safe k (promote_children id) (λ _. k)
unfolding promote_children pending_children_ids
promote_children-Safe k id = search (repo_rules, promote_each-Safe) depth 14

pub complete_task-Safe :
    (id summary : String) → Safe (row id) (complete_task id summary) (not_nil id)
unfolding complete_task
complete_task-Safe id summary = Safe-then (row id) (not_nil id) _ _ (Safe-exec (row id) _ tt) λ n.
    Safe-if (row id) (not_nil id) (eqb n 0) _ _ (search repo_rules) (
      Safe->> (row id) (not_nil id) _ _ (log_task_event-Safe (row id) id _ _ _) (
        Safe-bind (row id) (not_nil id) (not_nil id) _ _ (reread-Safe id) λ o.
          Safe->> (not_nil id o) (not_nil id) _ _
            (Safe-on_error (not_nil id o) _ _ (λ _. not_nil id o)
              (promote_children-Safe (not_nil id o) id) (λ x. Safe-pure (not_nil id o) tt))
            (Safe-return (not_nil id) o)))

requeue-Safe : (id reason : String) (t : Task) → Safe (row id) (requeue id reason t) (λ _. row id)
unfolding requeue
requeue-Safe id reason t =
    Safe-then (row id) (λ _. row id) _ _ (Safe-exec (row id) _ tt)
      λ n.
        Safe->> (row id) (λ _. row id) _ _ (log_task_event-Safe (row id) id _ _ _)
          (Safe-fetch id (λ _. row id) _ (λ u. search safe_rules))

pub fail_task-Safe : (id reason : String) → Safe (row id) (fail_task id reason) (λ _. row id)
unfolding fail_task
fail_task-Safe id reason =
    Safe-then (row id) (λ _. row id) _ _ (Safe-exec (row id) _ tt)
      λ n.
        Safe-if (row id) (λ _. row id) (eqb n 0) _ _ (search repo_rules)
          (Safe->> (row id) (λ _. row id) _ _ (log_task_event-Safe (row id) id _ _ _)
            (Safe-fetch id (λ _. row id) _ (λ u. search (safe_rules, requeue-Safe))))
