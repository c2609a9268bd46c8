-- ===== src/Api/Dispatching/Next.antt =====
-- FindNextForAgent of internal/dispatcher/dispatcher.go, run alone.
use acb_go.Prelude.{
  ◌==◌, ◌≡◌, refl, ◌∙◌, ap, Bool, true, false, ◌&&◌, Option, none, some, List, [], ◌∷◌,
  if◌then◌else◌, arith, Bool-cases, Option-cases, inl, inr, ◌⊎◌, filter, ◌↔◌, String, is_empty,
}
use acb_go.Models.{status_text, Status, is, Task, Agent}
use acb_go.Db.Rows.{find, Unique}
use acb_go.Session.{Env, World, ok, pure, get_env, if_nil}
use acb_go.Session.Quiet.{IsQuiet, ticked, query_quiet, bind-ok, on_error-ok, if_true, if_false}
use acb_go.Db.AgentRepo.{get_by_name, has_all}
use acb_go.Db.TaskRepo.Reads.{list, has_status, has_assignee, likes_all, are_parents_completed}
use acb_go.Lifecycle.Parents.{AllDone-is_empty, AllDone, parents_test, test_exact}
use acb_go.Api.Claiming.Spec.{Idle}
use acb_go.Api.Dispatching.Choice.{Chosen, best-filter}
use acb_go.Api.TaskHandler.Reads.{parents_done, matching, best, find_next_for_agent}

abbrev parents_pass : List Task → Task → Bool
parents_pass ts t = if is_empty t.parents then true else parents_test ts t.parents

abbrev eligible : List Task → List String → Task → Bool
eligible ts skills t = parents_pass ts t && has_all skills t.required_skills

-- The task is pending, its parents are done, and the skills suffice.
abbrev pub fits : List Task → List String → Task → Bool
fits ts skills t = is t.status Status.pending && eligible ts skills t

parents_pass_exact :
    (ts : List Task) (t : Task)
    → Unique Task.id ts
    → (parents_pass ts t ≡ true) ↔ AllDone ts t.parents
parents_pass_exact ts t u = elim (Bool-cases (is_empty t.parents)) [
  | inl y ↦ (λ h. AllDone-is_empty ts t.parents y, λ h. rw y refl)
  | inr n ↦ (
    λ h. (test_exact ts t.parents u).0 (ground arith),
    λ h. ground (arith, (test_exact ts t.parents u).1 h),
  )
]

fits_exact :
    (ts : List Task) (skills : List String) (t : Task)
    → Unique Task.id ts
    → (fits ts skills t ≡ true) ↔ (
        (is t.status Status.pending ≡ true)
        × AllDone ts t.parents
        × (has_all skills t.required_skills ≡ true))
fits_exact ts skills t u =
    let p = parents_pass_exact ts t u in
    (λ h. (ground arith, p.0 (ground arith), ground arith), λ (a, d, s). ground (arith, p.1 d))

picked :
    (b : Bool) (t : Task) (rest : List Task) (e : Env) (x : World)
    → (if b then pure (t ∷ rest) else pure rest) e x ≡ (ok (if b then t ∷ rest else rest), x)
unfolding pure
picked true t rest e x = refl
picked false t rest e x = refl

module _ (e : Env) (q : IsQuiet e) where
  parents_done_quiet :
      (t : Task) (w : World)
      → (v : World) × (parents_done t e w ≡ (ok (parents_pass w.store.tasks t), v)) × Idle w v
  unfolding parents_done are_parents_completed pure
  parents_done_quiet t w = elim (Bool-cases (is_empty t.parents)) [
    | inl y ↦ (
      w,
      if_true e w (is_empty t.parents) _ _ y ∙ rw y refl,
      record { same_store = refl; same_spawned = refl },
    )
    | inr n ↦ (
      ticked w,
      if_false e w (is_empty t.parents) _ _ n
          ∙ on_error-ok e (are_parents_completed t.parents) _ w _ _
              (if_false e w (is_empty t.parents) _ _ n ∙ query_quiet e q _ w)
          ∙ rw n refl,
      record { same_store = refl; same_spawned = refl },
    )
  ]

  matching_quiet :
      (skills : List String) (ts : List Task) (w : World)
      → (v : World) × (matching skills ts e w ≡ (ok (filter (eligible w.store.tasks skills) ts), v))
        × Idle w v
  unfolding matching pure
  matching_quiet skills [] w = (w, refl, record { same_store = refl; same_spawned = refl })
  matching_quiet skills (t ∷ ts) w =
      let (v, h, i) = parents_done_quiet t w in
      let (x, g, j) = matching_quiet skills ts v in
      let b = eligible w.store.tasks skills t in
      let rest = filter (eligible w.store.tasks skills) ts in
      (
        x,
        bind-ok e (parents_done t) _ w v _ h
            ∙ bind-ok e (matching skills ts) _ v x rest
                (g ∙ ap (λ s. (ok (filter (eligible s.tasks skills) ts), x)) i.same_store)
            ∙ picked b t rest e x,
        record {
          same_store = j.same_store ∙ i.same_store;
          same_spawned = j.same_spawned ∙ i.same_spawned;
        },
      )

status_text-pending : (s : Status) → (status_text s == "pending") ≡ is s Status.pending
unfolding status_text
status_text-pending Status.unset = refl
status_text-pending Status.pending = refl
status_text-pending Status.claimed = refl
status_text-pending Status.in_progress = refl
status_text-pending Status.blocked = refl
status_text-pending Status.completed = refl
status_text-pending Status.failed = refl

-- The pending tasks, and then the eligible ones among them.
twice :
    (e : Env) (ts : List Task) (skills : List String) (l : List Task)
    → filter
        (eligible ts skills)
        (filter (λ t. has_status "pending" t && has_assignee "" t && likes_all e [] t) l)
      ≡ filter (fits ts skills) l
unfolding has_status has_assignee likes_all
twice e ts skills [] = refl
twice e ts skills (t ∷ l) = ground (arith, status_text-pending t.status, twice e ts skills l)

-- On tables with unique ids, an agent that asks alone gets the first task with the smallest priority number among those that are
-- pending, whose parents are distinct and completed, and whose required skills it has, and no task
-- only if there is none. An unknown agent gets none. The tables stay as they are.
pub find_next_for_agent-Chosen :
    (e : Env) (name : String) (w : World)
    → IsQuiet e
    → Unique Task.id w.store.tasks
    → (o : Option Task) × (v : World) × (find_next_for_agent name e w ≡ (ok o, v))
      × Idle w v
      × (((find Agent.name name w.store.agents ≡ none) × (o ≡ none))
          ⊎ ((a : Agent) × (find Agent.name name w.store.agents ≡ some a)
              × Chosen (fits w.store.tasks a.skills) w.store.tasks o
              × ((t : Task)
                  → (fits w.store.tasks a.skills t ≡ true) ↔ (
                      (is t.status Status.pending ≡ true)
                      × AllDone w.store.tasks t.parents
                      × (has_all a.skills t.required_skills ≡ true)))))
unfolding find_next_for_agent get_by_name list if_nil pure get_env
find_next_for_agent-Chosen e name w q u =
    elim (Option-cases (find Agent.name name w.store.agents)) [
      | inl n ↦ (
        none,
        ticked w,
        bind-ok e (get_by_name name) _ w (ticked w) none (query_quiet e q _ w ∙ rw n refl),
        record { same_store = refl; same_spawned = refl },
        inl (n, refl),
      )
      | inr (a, f) ↦
          let tasks = w.store.tasks in
          let (v, m, i) =
            matching_quiet e q a.skills
              (filter (λ t. has_status "pending" t && has_assignee "" t && likes_all e [] t) tasks)
              (ticked (ticked w)) in
          (
            best (filter (fits tasks a.skills) tasks),
            v,
            bind-ok e (get_by_name name) _ w (ticked w) (some (record a { token = "" }))
                  (query_quiet e q _ w ∙ rw f refl)
                ∙ bind-ok e (list "pending" "" []) _ (ticked w) (ticked (ticked w)) _ (
                    bind-ok e (get_env (λ e. e)) _ (ticked w) (ticked w) e refl
                    ∙ query_quiet e q _ (ticked w))
                ∙ bind-ok e (matching a.skills _) _ (ticked (ticked w)) v _ m
                ∙ ap (λ l. (ok (best l), v)) (twice e tasks a.skills tasks),
            record { same_store = i.same_store; same_spawned = i.same_spawned },
            inr (a, f, best-filter (fits tasks a.skills) tasks, λ t. fits_exact tasks a.skills t u),
          )
    ]
