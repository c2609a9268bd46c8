-- ===== src/Api/Claiming/Handler.antt =====
-- ClaimTask, from the request to the response.
use acb_go.Prelude.{
  String, ◌≡◌, refl, sym, ◌∙◌, ap, subst, true, false, none, some, arith, Option-cases, Bool-cases,
  inl, inr, ◌==◌, eq_self,
}
use acb_go.Models.{Status, is, Task, Agent}
use acb_go.Db.Rows.{find, Unique, key-find}
use acb_go.Db.Statement.{claim, selects, assigns}
use acb_go.Session.{Env, World, Outcome, ok, err, M, pure, if_nil, or_respond, conflict}
use acb_go.Session.Quiet.{
  IsQuiet, time, ticked, exec_quiet, bind-ok, then-ok, respond-ok, respond-err, if_false,
}
use acb_go.Db.TaskRepo.Reads.{scan_task_row, get_by_id}
use acb_go.Db.TaskRepo.Update.{run-miss}
use acb_go.Db.TaskRepo.Quiet.{scan_set, get_by_id_quiet, refuse_quiet}
use acb_go.Db.TaskRepo.Moves.{Rewrites, Moves, Moves-tick, move_quiet}
use acb_go.Db.TaskRepo.Transitions.{claim_task}
use acb_go.Lifecycle.Parents.{AllDone}
use acb_go.Api.Response.{
  Response, task_json, write_json, write_error, write_conflict, transition_error,
}
use acb_go.Api.TaskHandler.Transitions.{
  announce, with_skills, claim_checked, claim as claim_handler, task_not_found,
}
use acb_go.Api.Claiming.Spec.{Idle, Skilled, ClaimSpec}
use acb_go.Api.Claiming.Checks.{announce_quiet, with_parents_quiet, with_skills_quiet}

module _ (e : Env) (q : IsQuiet e) (id who : String) (w : World)
    (k : Unique Task.id w.store.tasks) where
  -- The UPDATE hits.
  claim_hit :
      (t : Task)
      → find Task.id id w.store.tasks ≡ some t
      → is t.status Status.pending ≡ true
      → (v : World) × (claim_task id who e w ≡ (ok (some (assigns (time e w) (claim id who) t)), v))
        × Moves id (assigns (time e w) (claim id who) t) w v
  unfolding claim_task selects assigns scan_task_row
  claim_hit t f p =
      let u = assigns (time e w) (claim id who) t in
      let (v, x, r, l, m) =
        move_quiet e q (claim id who) "ClaimTask" who "" w t refl k f
          (ground (arith, key-find Task.id id w.store.tasks t f, eq_self id)) in
      (
        ticked x,
        bind-ok e _ _ w v 1 r
            ∙ then-ok e _ _ v x l
            ∙ get_by_id_quiet e q id x
            ∙ rw m.rewrites.new_row refl,
        Moves-tick m,
      )

  -- It does not.
  claim_miss :
      (t : Task)
      → find Task.id id w.store.tasks ≡ some t
      → is t.status Status.unset ≡ false
      → is t.status Status.pending ≡ false
      → claim_task id who e w
        ≡ (err (conflict t.status "task is not in pending status"), ticked (ticked w))
  unfolding claim_task selects
  claim_miss t f set p =
      bind-ok e _ _ w (ticked w) 0 (
        exec_quiet e q _ w 0 w.store
          (run-miss (time e w) (claim id who) w.store k refl t f (ground arith)))
      ∙ refuse_quiet e q id _ (ticked w) t f set

Idle-trans : {w v x : World} → Idle w v → Idle v x → Idle w x
Idle-trans p q = record {
  same_store = q.same_store ∙ p.same_store;
  same_spawned = q.same_spawned ∙ p.same_spawned;
}

Idle-Rewrites :
    {w v x : World} {id : String} {u : Task} → Idle w v → Rewrites id u v x → Rewrites id u w x
Idle-Rewrites p r = record {
  new_row = r.new_row;
  other_rows = λ k n. r.other_rows k n ∙ ap (λ s. find Task.id k s.tasks) p.same_store;
}

-- What a handler comes to.
Comes : Env → (id who : String) → World → Outcome Response × World → Type 0
Comes e id who w o = (r : Response) × (v : World) × (o ≡ (ok r, v)) × ClaimSpec e id who w v r

module _ (e : Env) (q : IsQuiet e) (id who : String) (w : World) (k : Unique Task.id w.store.tasks)
    (t : Task) (f : find Task.id id w.store.tasks ≡ some t)
    (set : is t.status Status.unset ≡ false) where
  -- After both checks.
  claim_end :
      (x : World)
      → Idle w x
      → AllDone w.store.tasks t.parents
      → Skilled w.store.agents who t.required_skills
      → Comes e id who w (
          or_respond
            (claim_task id who)
            (transition_error "claim_failed")
            (λ c. announce id c "task_claimed" (λ _. who) "" t.status Status.claimed "task_claimed")
            e
            x)
  unfolding Comes transition_error assigns
  claim_end x i d s =
      let kx = subst (λ s. Unique Task.id s.tasks) (sym i.same_store) k in
      let fx = subst (λ s. find Task.id id s.tasks ≡ some t) (sym i.same_store) f in
      elim (Bool-cases (is t.status Status.pending)) [
        | inl p ↦
            let (y, r, m) = claim_hit e q id who x kx t fx p in
            let u = assigns (time e x) (claim id who) t in
            let (z, a, st, sp) = announce_quiet e id who u t.status y in
            (
              write_json 200 (task_json u),
              z,
              respond-ok e (claim_task id who) _ _ x y (some u) r ∙ a,
              ClaimSpec.claimed t u f d s p refl refl
                  (Idle-Rewrites i (record {
                    new_row = rw st m.rewrites.new_row;
                    other_rows = λ k n. rw st (m.rewrites.other_rows k n);
                  }))
                  (rw (sp, m.same_spawned, i.same_spawned) refl),
            )
        | inr n ↦ (
          write_conflict "claim_failed" "task is not in pending status" t.status,
          ticked (ticked x),
          respond-err e (claim_task id who) _ _ x _ _ (claim_miss e q id who x kx t fx set n),
          ClaimSpec.taken t f d s n
              (Idle-trans i record { same_store = refl; same_spawned = refl }),
        )
      ]

  claim_checked_quiet : Comes e id who w (claim_checked id who t e (ticked w))
  unfolding Comes claim_checked
  claim_checked_quiet =
      let i : Idle w (ticked w) = record { same_store = refl; same_spawned = refl } in
      let finish : M Response =
        or_respond (claim_task id who) (transition_error "claim_failed")
          λ c. announce id c "task_claimed" (λ _. who) "" t.status Status.claimed "task_claimed" in
      elim (with_parents_quiet e q id t (with_skills t who finish) (ticked w) k f
        (scan_set t set)) [
          | inr (v, nd, j, h) ↦ (_, v, h, ClaimSpec.parents_open t f nd (Idle-trans i j))
          | inl (v, d, j, h) ↦
              let ij = Idle-trans i j in
              elim (with_skills_quiet e q id t finish v who) [
                | inl (x, s, l, g) ↦
                    let (r, z, c, sp) =
                      claim_end x (Idle-trans ij l) d
                        (subst (λ s. Skilled s.agents who t.required_skills) ij.same_store s) in
                    (r, z, h ∙ g ∙ c, sp)
                | inr (inl (x, n, l, g)) ↦ (
                  _,
                  x,
                  h ∙ g,
                  ClaimSpec.no_agent t f d
                      (subst (λ s. find Agent.name who s.agents ≡ none) ij.same_store n)
                      (Idle-trans ij l),
                )
                | inr (inr (x, a, fa, n, l, g)) ↦ (
                  _,
                  x,
                  h ∙ g,
                  ClaimSpec.unskilled t a f d
                      (subst (λ s. find Agent.name who s.agents ≡ some a) ij.same_store fa) n
                      (Idle-trans ij l),
                )
              ]
        ]

-- A claim that runs alone and names an assignee, on tables with unique ids and a task whose status is
-- set, is refused because there is no such task, because a
-- parent is not completed or is given twice, because the assignee is no agent or lacks a skill, or
-- because the task is not pending, each with its own response and with the tables as they were; or
-- else the task is claimed for the assignee, no other task changes, and the claim is announced.
pub claim-ClaimSpec :
    (e : Env) (id who : String) (w : World)
    → IsQuiet e
    → Unique Task.id w.store.tasks
    → ((t : Task) → find Task.id id w.store.tasks ≡ some t → is t.status Status.unset ≡ false)
    → (who == "") ≡ false
    → (r : Response) × (v : World) × (claim_handler id (some who) e w ≡ (ok r, v))
      × ClaimSpec e id who w v r
unfolding claim_handler Comes if_nil task_not_found pure
claim-ClaimSpec e id who w q k set named =
    let start = if_false e w (who == "") _ _ named in
    elim (Option-cases (find Task.id id w.store.tasks)) [
      | inl n ↦ (
        write_error 404 "not_found" "task not found",
        ticked w,
        start
            ∙ respond-ok e (get_by_id id) _ _ w (ticked w) none
                (get_by_id_quiet e q id w ∙ rw n refl),
        ClaimSpec.no_task n record { same_store = refl; same_spawned = refl },
      )
      | inr (t, f) ↦
          let (r, v, c, s) = claim_checked_quiet e q id who w k t f (set t f) in
          (
            r,
            v,
            start
                ∙ respond-ok e (get_by_id id) _ _ w (ticked w) (some t)
                    (get_by_id_quiet e q id w ∙ rw (f, scan_set t (set t f)) refl)
                ∙ c,
            s,
          )
    ]
