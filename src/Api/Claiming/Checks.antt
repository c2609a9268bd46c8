-- ===== src/Api/Claiming/Checks.antt =====
-- The parts of ClaimTask around the transition, run alone.
use acb_go.Prelude.{
  String, ◌≡◌, refl, ◌∙◌, Bool, true, false, none, some, ◌++◌, Option-cases, Bool-cases, inl, inr,
  ◌⊎◌, is_empty,
}
use acb_go.Models.{Status, Task, Agent}
use acb_go.Db.Rows.{find, Unique}
use acb_go.Session.{Env, World, publish, ok, M, pure, if_nil}
use acb_go.Session.Quiet.{IsQuiet, ticked, query_quiet, bind-ok, respond-ok, if_true, if_false}
use acb_go.Db.AgentRepo.{get_by_name, has_all}
use acb_go.Db.TaskRepo.Reads.{
  scan_task_row, get_by_id, check_parents_completed, are_parents_completed,
}
use acb_go.Db.TaskRepo.Quiet.{get_by_id_quiet}
use acb_go.Lifecycle.Parents.{AllDone-is_empty, AllDone, parents_test, test_exact}
use acb_go.Api.Response.{Response, task_json, write_json, write_error}
use acb_go.Api.TaskHandler.Transitions.{announce, with_parents, with_skills}
use acb_go.Session.Quiet.{deref-some}
use acb_go.Session.{publish}
use acb_go.Api.Announcing.{tell_quiet}
use acb_go.Api.Claiming.Spec.{Idle, Skilled, announced}

clash : (b : Bool) → b ≡ true → b ≡ false → ⊥
clash b p n = cc

module _ (e : Env) (id who : String) (u : Task) (old : Status) (w : World) where
  pub announce_quiet :
      (v : World) × (announce id
          (some u)
          "task_claimed"
          (λ _. who)
          ""
          old
          Status.claimed
          "task_claimed"
          e
          w
        ≡ (ok (write_json 200 (task_json u)), v))
      × (v.store ≡ w.store)
      × (v.spawned ≡ w.spawned ++ announced e id who u old)
  unfolding announce
  announce_quiet =
      let (v, h, s, p) =
        tell_quiet e (publish "task_claimed" id who "" "" u.required_skills) u old Status.claimed
          "task_claimed" (write_json 200 (task_json u)) w in
      (v, deref-some e w u _ ∙ h, s, p)

-- The check of the parents passes, or answers for the handler.
module _ (e : Env) (q : IsQuiet e) (id : String) (t : Task) (rest : M Response) (w : World) where
  check_quiet :
      Unique Task.id w.store.tasks
      → find Task.id id w.store.tasks ≡ some t
      → scan_task_row t ≡ t
      → is_empty t.parents ≡ false
      → check_parents_completed id e w
        ≡ (ok (parents_test w.store.tasks t.parents), ticked (ticked w))
  unfolding check_parents_completed are_parents_completed if_nil
  check_quiet k f sc n =
      bind-ok e (get_by_id id) _ w (ticked w) (some t) (get_by_id_quiet e q id w ∙ rw (f, sc) refl)
      ∙ if_false e (ticked w) (is_empty t.parents) _ _ n
      ∙ query_quiet e q _ (ticked w)

  pub with_parents_quiet :
      Unique Task.id w.store.tasks
      → find Task.id id w.store.tasks ≡ some t
      → scan_task_row t ≡ t
      → ((v : World) × AllDone w.store.tasks t.parents
          × Idle w v
          × (with_parents id t rest e w ≡ rest e v))
        ⊎ ((v : World) × (¬ AllDone w.store.tasks t.parents)
            × Idle w v
            × (with_parents id t rest e w ≡ (
              ok (
                  write_error 403 "parents_incomplete"
                    "parent tasks must be completed before claiming"),
              v,
            )))
  unfolding with_parents pure
  with_parents_quiet k f sc = elim (Bool-cases (is_empty t.parents)) [
    | inl y ↦ inl (
      w,
      AllDone-is_empty w.store.tasks t.parents y,
      record { same_store = refl; same_spawned = refl },
      if_true e w (is_empty t.parents) _ _ y,
    )
    | inr n ↦
        let v = ticked (ticked w) in
        let b = parents_test w.store.tasks t.parents in
        let so_far =
          if_false e w (is_empty t.parents) _ _ n
          ∙ respond-ok e (check_parents_completed id) _ _ w v b (check_quiet k f sc n) in
        let exact = test_exact w.store.tasks t.parents k in
        elim (Bool-cases b) [
          | inl d ↦ inl (
            v,
            exact.0 d,
            record { same_store = refl; same_spawned = refl },
            so_far ∙ if_true e v b _ _ d,
          )
          | inr d ↦ inr (
            v,
            (λ a. clash b (exact.1 a) d),
            record { same_store = refl; same_spawned = refl },
            so_far ∙ if_false e v b _ _ d,
          )
        ]
  ]

  -- The check of the skills passes, or answers for the handler.
  pub with_skills_quiet :
      (who : String)
      → ((v : World) × Skilled w.store.agents who t.required_skills
          × Idle w v
          × (with_skills t who rest e w ≡ rest e v))
        ⊎ ((v : World) × (find Agent.name who w.store.agents ≡ none)
            × Idle w v
            × (with_skills t who rest e w
                ≡ (ok (write_error 404 "agent_not_found" "agent not found"), v)))
        ⊎ ((v : World) × (a : Agent) × (find Agent.name who w.store.agents ≡ some a)
            × (has_all a.skills t.required_skills ≡ false)
            × Idle w v
            × (with_skills t who rest e w
                ≡ (ok (write_error 403 "missing_skills" "agent lacks required skills"), v)))
  unfolding with_skills pure get_by_name if_nil
  with_skills_quiet who = elim (Bool-cases (is_empty t.required_skills)) [
    | inl y ↦ inl (
      w,
      inl y,
      record { same_store = refl; same_spawned = refl },
      if_true e w (is_empty t.required_skills) _ _ y,
    )
    | inr n ↦
        let v = ticked w in
        let idle : Idle w v = record { same_store = refl; same_spawned = refl } in
        let start = if_false e w (is_empty t.required_skills) _ _ n in
        elim (Option-cases (find Agent.name who w.store.agents)) [
          | inl f ↦ inr (
              inl (
                v,
                f,
                idle,
                start
                    ∙ respond-ok e (get_by_name who) _ _ w v none (query_quiet e q _ w ∙ rw f refl),
              ))
          | inr (a, f) ↦
              let read =
                start
                ∙ respond-ok e (get_by_name who) _ _ w v (some (record a { token = "" }))
                    (query_quiet e q _ w ∙ rw f refl) in
              elim (Bool-cases (has_all a.skills t.required_skills)) [
                | inl h ↦ inl (v, inr (a, f, h), idle, read ∙ if_true e v _ _ _ h)
                | inr h ↦ inr (inr (v, a, f, h, idle, read ∙ if_false e v _ _ _ h))
              ]
        ]
  ]
