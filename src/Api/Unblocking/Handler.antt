-- ===== src/Api/Unblocking/Handler.antt =====
-- UnblockTask, from the request to the response.
use acb_go.Prelude.{
  String, ◌≡◌, refl, ◌∙◌, true, false, none, some, List, [], ◌∷◌, ◌++◌, if◌then◌else◌, arith,
  Option-cases, inl, inr, ◌==◌, eq_self,
}
use acb_go.Models.{Status, is, Task, GateStatus, is_gate, Gate}
use acb_go.Db.Rows.{find, Unique, key-find}
use acb_go.Db.Statement.{set_status, selects, assigns}
use acb_go.Session.{Env, World, Effect, publish, notify, ok, M, pure, if_nil, or_respond}
use acb_go.Session.Quiet.{IsQuiet, time, ticked, wrote, bind-ok, respond-ok, respond-err, if_false}
use acb_go.Db.TaskRepo.Reads.{scan_task_row, get_by_id}
use acb_go.Db.TaskRepo.Quiet.{scan_set, get_by_id_quiet}
use acb_go.Db.TaskRepo.Moves.{Rewrites, Moves, move_quiet}
use acb_go.Db.TaskRepo.Transitions.{update_status}
use acb_go.Db.GateRepo.{resolve_gate}
use acb_go.Api.Response.{Response, task_json, write_json, write_error, write_error_safe}
use acb_go.Api.TaskHandler.Transitions.{task_not_found}
use acb_go.Api.TaskHandler.Gates.{resume, unblock}
use acb_go.Session.Quiet.{deref-some}
use acb_go.Api.Announcing.{tell_quiet}
use acb_go.Api.Claiming.Spec.{Idle}
use acb_go.Api.Unblocking.Gate.{
  IsUnanswered, IsAnswered-or_not, resolved_store, resolve_hit, resolve_miss,
}

abbrev pub told_unblocked : Env → (id gate_id : String) → Task → Status → List Effect
told_unblocked e id gate_id u old =
    publish "task_unblocked" id u.assignee gate_id "" []
    ∷ (if e.has_dispatcher then notify u old Status.in_progress "task_unblocked" ∷ [] else [])

pub data UnblockSpec (e : Env) (id gate_id : String) (w v : World) : Response → Type 0 where
  no_task :
      find Task.id id w.store.tasks ≡ none
      → Idle w v
      → UnblockSpec e id gate_id w v (write_error 404 "not_found" "task not found")
  unanswered :
      (t : Task)
      → find Task.id id w.store.tasks ≡ some t
      → IsUnanswered gate_id w.store.gates
      → Idle w v
      → UnblockSpec e id gate_id w v (write_error_safe 409 "resolve_failed")
  -- Nothing is asked of the status of the task, nor of the task that the gate belongs to.
  unblocked :
      (t u : Task) (g : Gate)
      → find Task.id id w.store.tasks ≡ some t
      → find Gate.gate_id gate_id w.store.gates ≡ some g
      → g.status ≡ GateStatus.answered
      → u.status ≡ Status.in_progress
      → u.assignee ≡ t.assignee
      → Rewrites id u w v
      → find Gate.gate_id gate_id v.store.gates ≡ some (record g { status = GateStatus.resolved })
      → v.spawned ≡ w.spawned ++ told_unblocked e id gate_id u t.status
      → UnblockSpec e id gate_id w v (write_json 200 (task_json u))

is_answered : (g : GateStatus) → is_gate g GateStatus.answered ≡ true → g ≡ GateStatus.answered
is_answered g h = ground arith

module _ (e : Env) (q : IsQuiet e) (id gate_id : String) where
  -- The status is set, whatever it was.
  set_status_quiet :
      (w : World) (t : Task)
      → Unique Task.id w.store.tasks
      → find Task.id id w.store.tasks ≡ some t
      → (v : World) × (update_status id Status.in_progress e w ≡ (ok tt, v))
        × Moves id (assigns (time e w) (set_status id Status.in_progress) t) w v
  unfolding update_status selects
  set_status_quiet w t k f =
      let (v, x, r, l, m) =
        move_quiet e q (set_status id Status.in_progress) "UpdateStatus" "" "" w t refl k f
          (ground (arith, key-find Task.id id w.store.tasks t f, eq_self id)) in
      (x, bind-ok e _ _ w v 1 r ∙ l, m)

  resume_quiet :
      (u : Task) (old : Status) (w : World)
      → (v : World) × (resume id gate_id old (some u) e w ≡ (ok (write_json 200 (task_json u)), v))
        × (v.store ≡ w.store)
        × (v.spawned ≡ w.spawned ++ told_unblocked e id gate_id u old)
  unfolding resume
  resume_quiet u old w =
      let (v, h, s, p) =
        tell_quiet e (publish "task_unblocked" id u.assignee gate_id "" []) u old Status.in_progress
          "task_unblocked" (write_json 200 (task_json u)) w in
      (v, deref-some e w u _ ∙ h, s, p)

-- From the resolution of the gate on.
abbrev resolution : String → String → Status → M Response
resolution id gate_id old =
    or_respond (resolve_gate gate_id) (λ x. write_error_safe 409 "resolve_failed")
      λ _.
        or_respond (update_status id Status.in_progress) (λ x. write_error_safe 500 "update_failed")
          λ _.
            or_respond (get_by_id id) (λ x. write_error_safe 500 "get_task_failed")
              (resume id gate_id old)

module _ (e : Env) (q : IsQuiet e) (id gate_id : String) (w : World)
    (k : Unique Task.id w.store.tasks) (kg : Unique Gate.gate_id w.store.gates) (t : Task)
    (f : find Task.id id w.store.tasks ≡ some t) where
  resolution_quiet :
      (r : Response) × (v : World) × (resolution id gate_id t.status e (ticked w) ≡ (ok r, v))
      × UnblockSpec e id gate_id w v r
  unfolding resolved_store assigns scan_task_row
  resolution_quiet =
      let a = ticked w in
      elim (IsAnswered-or_not gate_id w.store.gates) [
        | inr n ↦ (
          write_error_safe 409 "resolve_failed",
          ticked a,
          respond-err e (resolve_gate gate_id) _ _ a (ticked a) _ (resolve_miss e q gate_id a kg n),
          UnblockSpec.unanswered t f n record { same_store = refl; same_spawned = refl },
        )
        | inl (g, fg, y) ↦
            let (h, row) = resolve_hit e q gate_id a kg g fg y in
            let b = wrote a (resolved_store e q gate_id a kg) in
            let (c, r, m) = set_status_quiet e q id gate_id b t k f in
            let u = assigns (time e b) (set_status id Status.in_progress) t in
            let (v, p, st, sp) = resume_quiet e q id gate_id u t.status (ticked c) in
            (
              write_json 200 (task_json u),
              v,
              respond-ok e (resolve_gate gate_id) _ _ a b tt h
                  ∙ respond-ok e (update_status id Status.in_progress) _ _ b c tt r
                  ∙ respond-ok e (get_by_id id) _ _ c (ticked c) (some u)
                      (get_by_id_quiet e q id c ∙ rw m.rewrites.new_row refl)
                  ∙ p,
              UnblockSpec.unblocked t u g f fg (is_answered g.status y) refl refl
                  (record {
                    new_row = rw st m.rewrites.new_row;
                    other_rows = λ j n. rw st (m.rewrites.other_rows j n);
                  })
                  (rw (st, m.same_gates) row) (rw (sp, m.same_spawned) refl),
            )
      ]

-- An unblock request that runs alone and names a gate, on tables with unique keys and a task whose
-- status is set, is refused with the tables as they were because there is no such task or because
-- the gate is not there or not answered. Otherwise the gate is resolved and the task, whatever its
-- status and whether or not the gate is one of its gates, is in progress; no other task changes.
pub unblock-UnblockSpec :
    (e : Env) (id gate_id : String) (w : World)
    → IsQuiet e
    → Unique Task.id w.store.tasks
    → Unique Gate.gate_id w.store.gates
    → ((t : Task) → find Task.id id w.store.tasks ≡ some t → is t.status Status.unset ≡ false)
    → (gate_id == "") ≡ false
    → (r : Response) × (v : World) × (unblock id (some gate_id) e w ≡ (ok r, v))
      × UnblockSpec e id gate_id w v r
unfolding unblock if_nil task_not_found pure
unblock-UnblockSpec e id gate_id w q k kg set named =
    let start = if_false e w (gate_id == "") _ _ named in
    elim (Option-cases (find Task.id id w.store.tasks)) [
      | inl n ↦ (
        write_error 404 "not_found" "task not found",
        ticked w,
        start
            ∙ respond-ok e (get_by_id id) _ _ w (ticked w) none
                (get_by_id_quiet e q id w ∙ rw n refl),
        UnblockSpec.no_task n record { same_store = refl; same_spawned = refl },
      )
      | inr (t, f) ↦
          let (r, v, h, p) = resolution_quiet e q id gate_id w k kg t f in
          (
            r,
            v,
            start
                ∙ respond-ok e (get_by_id id) _ _ w (ticked w) (some t)
                    (get_by_id_quiet e q id w ∙ rw (f, scan_set t (set t f)) refl)
                ∙ h,
            p,
          )
    ]
