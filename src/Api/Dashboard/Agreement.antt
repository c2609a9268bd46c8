-- ===== src/Api/Dashboard/Agreement.antt =====
-- The counters of the dashboard and its groups of tasks agree.
use acb_go.Prelude.{
  ℕ, ◌≡◌, ◌∙◌, sym, refl, Bool, true, false, ◌&&◌, List, [], ◌∷◌, ◌++◌, filter, length, count,
  arith, map, if◌then◌else◌, Bool-cases, inl, inr, ap, All,
}
use mathlib.Core.List.{append_assoc, append-nil}
use acb_go.Session.{Env, World, ok, pure, on_error, get_env, ◌>>=◌}
use acb_go.Session.Quiet.{IsQuiet, query_quiet, bind-ok, respond-ok, ticked, time}
use acb_go.Api.Response.{write_json, dashboard_json}
use acb_go.Api.Dashboard.{DashboardHandler, stale_count, dashboard}
use acb_go.Db.AgentRepo.{list_stale, bare, is_stale_agent}
use acb_go.Db.TaskRepo.Reads.{list, get_task_counts}
use acb_go.Db.TaskRepo.Reads.{TaskCounts, tally, has_status, has_assignee, likes_all}
use acb_go.Models.{Status, is, Task}
use acb_go.Prelude.Int.{pos, ltb_ℤ}
use acb_go.Db.TaskRepo.Expiry.{minutes}
use acb_go.Api.Grouping.{Grouped, append_to, group_each, no_tasks, group_tasks_by_status}

-- The list under a key.
abbrev pub group : Status → Grouped → List Task
group Status.unset g = []
group Status.pending g = g.pending
group Status.claimed g = g.claimed
group Status.in_progress g = g.in_progress
group Status.blocked g = g.blocked
group Status.completed g = g.completed
group Status.failed g = g.failed

-- "pending" for the empty status.
abbrev pub shown : Status → Status
shown Status.unset = Status.pending
shown s = s

append_group :
    (s st : Status) (t : Task) (g : Grouped)
    → group s (append_to st t g) ≡ group s g ++ (if is (shown st) s then t ∷ [] else [])
append_group Status.pending Status.unset t g = refl
append_group s Status.unset t g = ground (arith, append-nil (group s g))
append_group Status.pending Status.pending t g = refl
append_group s Status.pending t g = ground (arith, append-nil (group s g))
append_group Status.claimed Status.claimed t g = refl
append_group s Status.claimed t g = ground (arith, append-nil (group s g))
append_group Status.in_progress Status.in_progress t g = refl
append_group s Status.in_progress t g = ground (arith, append-nil (group s g))
append_group Status.blocked Status.blocked t g = refl
append_group s Status.blocked t g = ground (arith, append-nil (group s g))
append_group Status.completed Status.completed t g = refl
append_group s Status.completed t g = ground (arith, append-nil (group s g))
append_group Status.failed Status.failed t g = refl
append_group s Status.failed t g = ground (arith, append-nil (group s g))

group-group_each :
    (s : Status) (g : Grouped) (ts : List Task)
    → group s (group_each g ts) ≡ group s g ++ filter (λ t. is (shown t.status) s) ts
unfolding group_each
group-group_each s g [] = simp append-nil
group-group_each s g (t ∷ ts) =
    rw (group-group_each s (append_to t.status t g) ts, append_group s t.status t g)
      (elim (Bool-cases (is (shown t.status) s)) [
        | inl e ↦ rw e (append_assoc (group s g) (t ∷ []) _)
        | inr e ↦ rw (e, append-nil (group s g)) refl
      ])

-- A counter.
abbrev pub counter : Status → TaskCounts → ℕ
counter Status.unset c = 0
counter Status.pending c = c.pending
counter Status.claimed c = c.claimed
counter Status.in_progress c = c.in_progress
counter Status.blocked c = c.blocked
counter Status.completed c = c.completed
counter Status.failed c = c.failed

counter-tally :
    (s : Status) (ts : List Task)
    → is s Status.unset ≡ false
    → counter s (tally ts) ≡ count (λ t. is t.status s) ts
unfolding tally
counter-tally Status.unset ts h = cc
counter-tally s ts h = refl

length-filter : (p : Task → Bool) (ts : List Task) → length (filter p ts) ≡ count p ts
length-filter p [] = refl
length-filter p (t ∷ ts) = ground (arith, length-filter p ts)

shown_lem : (s st : Status) → is st Status.unset ≡ false → is (shown st) s ≡ is st s
shown_lem s Status.unset h = cc
shown_lem s st h = refl

filter-shown :
    (s : Status) (ts : List Task)
    → All (λ t. is t.status Status.unset ≡ false) ts
    → filter (λ t. is (shown t.status) s) ts ≡ filter (λ t. is t.status s) ts
filter-shown s [] a = refl
filter-shown s (t ∷ ts) a = rw (shown_lem s t.status a.0, filter-shown s ts a.1) refl

filter_all :
    (e : Env) (ts : List Task)
    → filter (λ t. has_status "" t && has_assignee "" t && likes_all e [] t) ts ≡ ts
unfolding has_status has_assignee likes_all
filter_all e [] = refl
filter_all e (t ∷ ts) = ap (λ l. t ∷ l) (filter_all e ts)

-- What a row of the dashboard shows.
abbrev pub Row : List Task → TaskCounts → Grouped → Status → Type 0
Row ts c g s = (group s g ≡ filter (λ t. is t.status s) ts) × (counter s c ≡ length (group s g))

nothing : (s : Status) (l : List Task) → group s no_tasks ++ l ≡ l
nothing Status.unset l = refl
nothing s l = refl

tally-Row :
    (ts : List Task) (s : Status)
    → All (λ t. is t.status Status.unset ≡ false) ts
    → is s Status.unset ≡ false
    → Row ts (tally ts) (group_tasks_by_status ts) s
unfolding group_tasks_by_status
tally-Row ts s a h =
    let g : group s (group_tasks_by_status ts) ≡ filter (λ t. is t.status s) ts =
      group-group_each s _ ts ∙ (nothing s _ ∙ filter-shown s ts a) in
    (g, counter-tally s ts h ∙ (sym (length-filter (λ t. is t.status s) ts) ∙ ap length (sym g)))

module _ (e : Env) (q : IsQuiet e) (h : DashboardHandler) where
  stale_by :
      (b : Bool) (dur : ℕ) (w : World)
      → (n : ℕ) × (v : World) × ((if b
              then on_error (list_stale dur >>= λ agents. pure (length agents)) (λ x. pure 0)
              else pure 0)
            e w
          ≡ (ok n, v))
        × (v.store ≡ w.store)
  unfolding list_stale on_error pure
  stale_by true dur w =
      let found =
        map bare (filter (λ a. is_stale_agent dur (time e w) a.last_heartbeat) w.store.agents) in
      (
        length found,
        ticked w,
        rw
            (bind-ok e (list_stale dur) (λ agents. pure (length agents)) w (ticked w) found
              (query_quiet e q _ w))
            refl,
        refl,
      )
  stale_by false dur w = (0, w, refl, refl)

  list_quiet : (w : World) → list "" "" [] e w ≡ (ok w.store.tasks, ticked w)
  unfolding list get_env
  list_quiet w =
      bind-ok e (get_env (λ e. e)) _ w w e refl
      ∙ (query_quiet e q _ w ∙ ap (λ l. (ok l, ticked w)) (filter_all e w.store.tasks))

  -- A request for the dashboard that runs alone, on tables in which every task has a status, is answered
  -- with 200, with groups that hold the tasks of each status in the order of the table, and with
  -- counters that are the lengths of these groups; no table changes.
  pub dashboard-Row :
      (w : World)
      → All (λ t. is t.status Status.unset ≡ false) w.store.tasks
      → (c : TaskCounts) × (g : Grouped) × (n : ℕ) × (v : World) × (dashboard h e w
          ≡ (ok (write_json 200 (dashboard_json c g n c.total)), v))
        × ((s : Status) → is s Status.unset ≡ false → Row w.store.tasks c g s)
        × (v.store ≡ w.store)
  unfolding dashboard stale_count get_task_counts pure
  dashboard-Row w a =
      let (n, v, r, k) =
        stale_by (ltb_ℤ (pos 0) h.stale_agent_min && h.has_agent_repo) (minutes h.stale_agent_min)
          (ticked (ticked w)) in
      (
        tally w.store.tasks,
        group_tasks_by_status w.store.tasks,
        n,
        v,
        respond-ok e get_task_counts _ _ w (ticked w) (tally w.store.tasks) (query_quiet e q _ w)
            ∙ (respond-ok e (list "" "" []) _ _ (ticked w) (ticked (ticked w)) w.store.tasks
                  (list_quiet (ticked w))
                ∙ bind-ok e (stale_count h) _ (ticked (ticked w)) v n r),
        λ s. tally-Row w.store.tasks s a,
        k,
      )
