-- ===== src/Lifecycle/Claims.antt =====
-- Who holds a task, and what becomes of a finished one.
use acb_go.Prelude.{ℕ, String, ◌≡◌, refl, Bool, true, false, not, some, arith, ◌==◌, eq_iff}
use acb_go.Models.{Status, is, Task}
use acb_go.Db.Rows.{find, key-find, refused_count, refused_update}
use acb_go.Db.Store.{Store, HasKeys}
use acb_go.Db.Statement.{
  update_task, TaskUpdate, set_status, claim, retry, release, selects, assigns, run, after,
}
use acb_go.Session.Evolution.{Issued, Evolves, Evolves-trans, next, here, task-update}
use acb_go.Lifecycle.Keys.{Evolves-HasKeys}
use acb_go.Lifecycle.Tasks.{Row-ind, touched, Only}

-- The update does not send this task back to pending: only FailTask with retries left, and
-- ReleaseAgentTasks do.
abbrev pub leaves_claimed : String → TaskUpdate → Bool
leaves_claimed id (retry i) = not (i == id)
leaves_claimed id (release i) = not (i == id)
leaves_claimed id _ = true

-- Nor does it set the status by hand, as unblock does.
abbrev pub leaves_closed : String → TaskUpdate → Bool
leaves_closed id (set_status i _) = not (i == id)
leaves_closed id u = leaves_claimed id u

record Held (id assignee : String) (t : Task) : Type 0 where
  same_id : t.id ≡ id
  taken : is t.status Status.pending ≡ false
  holder : t.assignee ≡ assignee

touched-Held :
    (id assignee : String) (now : ℕ) (u : TaskUpdate) (x : Task)
    → Issued (update_task u)
    → leaves_claimed id u ≡ true
    → Held id assignee x
    → Held id assignee (touched now u x)
unfolding selects assigns
touched-Held id assignee now (retry i) x e l h = record {
  same_id = ground (arith, h.same_id);
  taken = ground (arith, h.taken, h.same_id, eq_iff x.id i, eq_iff i id);
  holder = ground (arith, h.holder, h.same_id, eq_iff x.id i, eq_iff i id);
}
touched-Held id assignee now (release i) x e l h = record {
  same_id = ground (arith, h.same_id);
  taken = ground (arith, h.taken, h.same_id, eq_iff x.id i, eq_iff i id);
  holder = ground (arith, h.holder, h.same_id, eq_iff x.id i, eq_iff i id);
}
touched-Held id assignee now u x e l h = record {
  same_id = ground (arith, h.same_id);
  taken = ground (arith, h.taken);
  holder = ground (arith, h.holder, h.taken);
}

-- The task is as finished as before: heartbeats and artifacts are all that may have changed.
pub record Closed (x y : Task) : Type 0 where
  pub same_id : y.id ≡ x.id
  pub same_status : y.status ≡ x.status
  pub same_summary : y.summary ≡ x.summary
  pub same_assignee : y.assignee ≡ x.assignee

-- The workflow is over.
abbrev pub closed : Status → Bool
closed Status.completed = true
closed Status.failed = true
closed _ = false

touched-Closed :
    (w : Task) (now : ℕ) (u : TaskUpdate) (x : Task)
    → closed w.status ≡ true
    → leaves_closed w.id u ≡ true
    → Closed w x
    → Closed w (touched now u x)
unfolding selects assigns
touched-Closed w now (set_status i s) x f l h = record {
  same_id = ground (arith, h.same_id);
  same_status = ground (arith, h.same_status, h.same_id, eq_iff x.id i, eq_iff i w.id);
  same_summary = ground (arith, h.same_summary);
  same_assignee = ground (arith, h.same_assignee, h.same_id, eq_iff x.id i, eq_iff i w.id);
}
touched-Closed w now (retry i) x f l h = record {
  same_id = ground (arith, h.same_id);
  same_status = ground (arith, h.same_status, h.same_id, eq_iff x.id i, eq_iff i w.id);
  same_summary = ground (arith, h.same_summary);
  same_assignee = ground (arith, h.same_assignee, h.same_id, eq_iff x.id i, eq_iff i w.id);
}
touched-Closed w now (release i) x f l h = record {
  same_id = ground (arith, h.same_id);
  same_status = ground (arith, h.same_status, h.same_id, eq_iff x.id i, eq_iff i w.id);
  same_summary = ground (arith, h.same_summary);
  same_assignee = ground (arith, h.same_assignee, h.same_id, eq_iff x.id i, eq_iff i w.id);
}
touched-Closed w now u x f l h = record {
  same_id = ground (arith, h.same_id);
  same_status = ground (arith, h.same_status);
  same_summary = ground (arith, h.same_summary, h.same_status);
  same_assignee = ground (arith, h.same_assignee, h.same_status);
}

-- A completed or failed task keeps its status, its summary and its assignee in every history in which
-- nobody sets its status by hand, retries it or releases it.
pub closed_stays :
    {s t : Store} (id : String) (x : Task) (e : Evolves s t)
    → Only (λ u. leaves_closed id u ≡ true) e
    → find Task.id id s.tasks ≡ some x
    → closed x.status ≡ true
    → (y : Task) × (find Task.id id t.tasks ≡ some y) × Closed x y
closed_stays id x e o f c =
    Row-ind id (Closed x) (λ u. leaves_closed id u ≡ true)
      (λ now u y _ l. touched-Closed x now u y c (rw (key-find Task.id id _ x f) l)) e o
      (
        x,
        f,
        record { same_id = refl; same_status = refl; same_summary = refl; same_assignee = refl },
      )

claimed-Held :
    (id a : String) (now : ℕ) (s : Store) (x : Task)
    → find Task.id id s.tasks ≡ some x
    → x.status ≡ Status.pending
    → (y : Task) × (find Task.id id (after now (update_task (claim id a)) s).tasks ≡ some y)
      × Held id a y
unfolding after run selects assigns
claimed-Held id a now s x f p = (
  touched now (claim id a) x,
  rw (task-update now (claim id a) id s.tasks, f) refl,
  record {
    same_id = ground (arith, key-find Task.id id s.tasks x f);
    taken = ground (arith, key-find Task.id id s.tasks x f, eq_iff x.id id);
    holder = ground (arith, key-find Task.id id s.tasks x f, eq_iff x.id id);
  },
)

claim_key : (id b : String) (x : Task) → selects (claim id b) x ≡ true → x.id ≡ id
unfolding selects
claim_key id b x h = ground (arith, eq_iff x.id id)

claim_refused : (id a b : String) (y : Task) → Held id a y → selects (claim id b) y ≡ false
unfolding selects
claim_refused id a b y h = ground (arith, h.taken)

-- On tables with unique keys, once a claim of a pending task succeeds, and until the task is retried or released, every other
-- claim of it affects no row and changes nothing, and the task is assigned to the first claimant:
-- whatever else the processes do in between, in every order.
pub claim_exclusive :
    {s t : Store} (id a b : String) (now later : ℕ) (x : Task)
    → HasKeys s
    → find Task.id id s.tasks ≡ some x
    → x.status ≡ Status.pending
    → (e : Evolves (after now (update_task (claim id a)) s) t)
    → Only (λ u. leaves_claimed id u ≡ true) e
    → (run later (update_task (claim id b)) t ≡ some (0, t))
      × ((y : Task) × (find Task.id id t.tasks ≡ some y) × (y.assignee ≡ a))
unfolding run
claim_exclusive {s} {t} id a b now later x k f p e o =
    let (y, g, h) =
      Row-ind id (Held id a) (λ u. leaves_claimed id u ≡ true) (λ n u z. touched-Held id a n u z) e
        o (claimed-Held id a now s x f p) in
    let keys =
      Evolves-HasKeys (Evolves-trans (next here now (update_task (claim id a)) tt refl) e) k in
    let no = claim_refused id a b y h in
    (
      rw
          (
            refused_count Task.id (selects (claim id b)) (assigns later (claim id b)) id
                (claim_key id b) t.tasks y keys.tasks_unique g no,
            refused_update Task.id (selects (claim id b)) (assigns later (claim id b)) id
                (claim_key id b) t.tasks y keys.tasks_unique g no,
          )
          refl,
      (y, g, h.holder),
    )
