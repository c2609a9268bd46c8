-- ===== src/Db/TaskRepo/Sweeps.antt =====
-- Loops that update the rows of a SELECT one by one, run alone.
use acb_go.Prelude.{
  ℕ, String, ◌≡◌, ◌≢◌, refl, subst, ◌∙◌, ap, Bool, true, false, none, some, List, [], ◌∷◌, map,
  filter, if◌then◌else◌, arith, Bool-cases, inl, inr, ◌==◌, eq_iff, count,
}
use acb_go.Models.{Task}
use acb_go.Config.{contains}
use acb_go.Db.Rows.{find, key-find, Unique, update}
use acb_go.Db.Store.{Store}
use acb_go.Db.Statement.{run, TaskUpdate, update_task, selects, assigns, admits}
use acb_go.Session.{Env, World, ok, pure, exec}
use acb_go.Session.Evolution.{task-update}
use acb_go.Session.Quiet.{IsQuiet, time, ticked, wrote, exec_quiet, bind-ok, then-ok, on_error-ok}
use acb_go.Db.TaskRepo.Update.{target, other_row}
use acb_go.Db.TaskRepo.Quiet.{log_quiet}
use acb_go.Db.TaskRepo.Expiry.{sweep_one, sweep}

-- The ids that a SELECT of the rows that pass a test returns.
abbrev pub ids_of : (Task → Bool) → List Task → List String
ids_of p ts = map Task.id (filter p ts)

absent_id :
    (p : Task → Bool) (k : String) (ts : List Task)
    → find Task.id k ts ≡ none
    → contains (ids_of p ts) k ≡ false
unfolding find contains
absent_id p k [] h = refl
absent_id p k (t ∷ ts) h = ground (arith, absent_id p k ts)

selected_id :
    (p : Task → Bool) (k : String) (ts : List Task) (t : Task)
    → Unique Task.id ts
    → find Task.id k ts ≡ some t
    → contains (ids_of p ts) k ≡ p t
unfolding find contains
selected_id p k [] t u h = cc
selected_id p k (x ∷ ts) t u h =
    ground (arith, absent_id p k ts, selected_id p k ts t u.1, u.0, eq_iff x.id k)

-- What a row comes to: as P says if it was selected, and as it was if not.
abbrev pub RowAfter : (Task → Type 0) → Bool → String → Task → World → Type 0
RowAfter P true k t v = (u : Task) × (find Task.id k v.store.tasks ≡ some u) × P u
RowAfter P false k t v = find Task.id k v.store.tasks ≡ some t

abbrev Has : (Task → Type 0) → String → World → Type 0
Has P k v = (u : Task) × (find Task.id k v.store.tasks ≡ some u) × P u

abbrev pub touched_by : ℕ → TaskUpdate → Task → Task
touched_by now u x = if selects u x then assigns now u x else x

-- What a method of this kind does: the ids that it returns are those of the rows that pass its test,
-- such a row comes to P, and every other row is as it was.
pub record Sweeps (P : Task → Type 0) (p : Task → Bool) (ids : List String) (w v : World)
    : Type 0 where
  pub selected : ids ≡ ids_of p w.store.tasks
  pub each_row :
      (k : String) (t : Task) → find Task.id k w.store.tasks ≡ some t → RowAfter P (p t) k t v
  pub same_spawned : v.spawned ≡ w.spawned

sweeps_row :
    (P : Task → Type 0) (b : Bool) (k : String) (t : Task) (v : World)
    → (b ≡ true → Has P k v)
    → (b ≡ false → find Task.id k v.store.tasks ≡ some t)
    → RowAfter P b k t v
sweeps_row P true k t v y n = y refl
sweeps_row P false k t v y n = n refl

-- A loop over ids whose UPDATE brings a row to P and leaves it there.
module _ (e : Env) (q : IsQuiet e) (up : String → TaskUpdate)
    (up_target : (i : String) → target (up i) ≡ i) (admitted : (i : String) → admits (up i) ≡ true)
    (P : Task → Type 0) (gives : (now : ℕ) (i : String) (x : Task) → P (assigns now (up i) x))
    (stays : (now : ℕ) (i : String) (x : Task) → P x → P (touched_by now (up i) x))
    (event detail : String) where
  record Round (i : String) (w v : World) : Type 0 where
    runs : sweep_one (up i) i event detail e w ≡ (ok tt, v)
    rows : v.store.tasks ≡ update (selects (up i)) (assigns (time e w) (up i)) w.store.tasks
    same_spawned : v.spawned ≡ w.spawned

  one-Round : (i : String) (w : World) → (v : World) × Round i w v
  unfolding sweep_one run pure
  one-Round i w =
      let u = up i in
      let t : Store = record w.store {
        tasks = update (selects u) (assigns (time e w) u) w.store.tasks;
      } in
      let (v, l, s) = log_quiet e q i event "" detail (wrote w t) in
      (
        v,
        record {
          runs = on_error-ok e _ _ w v tt (
              bind-ok e (exec (update_task u)) _ w (wrote w t) _ (
                exec_quiet e q (update_task u) w (count (selects u) w.store.tasks) t
                  (rw (admitted i) refl))
              ∙ l);
          rows = s.same_tasks;
          same_spawned = s.same_spawned;
        },
      )

  record Swept (ids : List String) (w v : World) : Type 0 where
    runs : sweep up event detail ids e w ≡ (ok tt, v)
    others :
        (k : String)
        → contains ids k ≡ false
        → find Task.id k v.store.tasks ≡ find Task.id k w.store.tasks
    holds : (k : String) → Has P k w → Has P k v
    reaches :
        (k : String) (t : Task)
        → contains ids k ≡ true
        → find Task.id k w.store.tasks ≡ some t
        → selects (up k) t ≡ true
        → Has P k v
    same_spawned : v.spawned ≡ w.spawned

  Round-other :
      (i k : String) (w v : World)
      → Round i w v
      → k ≢ i
      → find Task.id k v.store.tasks ≡ find Task.id k w.store.tasks
  Round-other i k w v r n =
      ap (find Task.id k) r.rows
      ∙ other_row (time e w) (up i) w.store.tasks k (λ h. n (h ∙ up_target i))

  Round-holds : (i k : String) (w v : World) → Round i w v → Has P k w → Has P k v
  Round-holds i k w v r (x, f, p) = (
    touched_by (time e w) (up i) x,
    rw (r.rows, task-update (time e w) (up i) k w.store.tasks, f) refl,
    stays (time e w) i x p,
  )

  Round-reaches :
      (k : String) (w v : World) (t : Task)
      → Round k w v
      → find Task.id k w.store.tasks ≡ some t
      → selects (up k) t ≡ true
      → Has P k v
  Round-reaches k w v t r f h = (
    assigns (time e w) (up k) t,
    rw (r.rows, task-update (time e w) (up k) k w.store.tasks, f, h) refl,
    gives (time e w) k t,
  )

  swept : (ids : List String) (w : World) → (v : World) × Swept ids w v
  unfolding sweep pure contains
  swept [] w = (
    w,
    record {
      runs = refl;
      others = λ k h. refl;
      holds = λ k h. h;
      reaches = λ k t c f h. cc;
      same_spawned = refl;
    },
  )
  swept (i ∷ ids) w =
      let (v, r) = one-Round i w in
      let (x, s) = swept ids v in
      (
        x,
        record {
          runs = then-ok e (sweep_one (up i) i event detail) _ w v r.runs ∙ s.runs;
          others = λ k h.
              s.others k (ground arith) ∙ Round-other i k w v r (λ b. ground (arith, eq_iff i k));
          holds = λ k h. s.holds k (Round-holds i k w v r h);
          reaches = λ k t c f h. elim (Bool-cases (i == k)) [
            | inl y ↦
                s.holds k
                  (Round-reaches k w v t (subst (λ j. Round j w v) ((eq_iff i k).0 y) r) f h)
            | inr n ↦
                s.reaches k t (ground arith)
                  (Round-other i k w v r (λ b. ground (arith, eq_iff i k)) ∙ f) h
          ];
          same_spawned = s.same_spawned ∙ r.same_spawned;
        },
      )

  -- The ids come from a SELECT whose test agrees with the WHERE clause of the UPDATE.
  pub swept-Sweeps :
      (p : Task → Bool)
      → ((i : String) (x : Task) → x.id ≡ i → p x ≡ true → selects (up i) x ≡ true)
      → (w : World) → Unique Task.id w.store.tasks
      → (v : World) × (sweep up event detail (ids_of p w.store.tasks) e (ticked w) ≡ (ok tt, v))
        × Sweeps P p (ids_of p w.store.tasks) w v
  swept-Sweeps p agrees w u =
      let (v, s) = swept (ids_of p w.store.tasks) (ticked w) in
      (
        v,
        s.runs,
        record {
          selected = refl;
          each_row = λ k t f.
              let c = selected_id p k w.store.tasks t u f in
              sweeps_row P (p t) k t v
                (λ y. s.reaches k t (c ∙ y) f (agrees k t (key-find Task.id k w.store.tasks t f) y))
                (λ n. s.others k (c ∙ n) ∙ f);
          same_spawned = s.same_spawned;
        },
      )
