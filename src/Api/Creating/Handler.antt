-- ===== src/Api/Creating/Handler.antt =====
-- CreateTask of internal/api/task_handler.go, run alone: every branch of the handler.
use acb_go.Prelude.{
  ◌≡◌, ◌≢◌, refl, ◌∙◌, ap, Option, none, some, [], ◌∷◌, ◌++◌, arith, ◌==◌, if◌then◌else◌,
  Bool-cases, Option-cases, inl, inr, eq_iff,
}
use acb_go.Models.{Status, Task}
use acb_go.Db.Rows.{find, find-append}
use acb_go.Db.Store.{Store}
use acb_go.Db.Statement.{run, insert_task}
use acb_go.Session.{
  Env, World, M, Effect, dispatch_new, ok, err, db_failed, pure, spawn, get_env, deref, exec, ◌>>=◌,
  ◌>>◌,
}
use acb_go.Session.Quiet.{
  IsQuiet, time, ticked, wrote, exec_quiet, exec-refused, bind-ok, bind-err, respond-ok,
  respond-err, then-ok, if_true, if_false,
}
use acb_go.Db.TaskRepo.Reads.{get_by_id, scan_task_row, scanned}
use acb_go.Db.TaskRepo.Quiet.{log_quiet, get_by_id_quiet}
use acb_go.Db.TaskRepo.Transitions.{create}
use acb_go.Api.Response.{Response, task_or_null, write_json, write_error_safe}
use acb_go.Api.Announcing.{append_two, told}
use acb_go.Api.Claiming.Spec.{Idle}
use acb_go.Api.TaskHandler.Create.{
  CreateInput, choose_id, new_task, dispatch, store_task, checked, create_task,
}
use acb_go.Api.Creating.Spec.{
  Listed-skills, Listed-tags, chosen, created_row, announced, Inserts, IsListed, Creates,
}

-- The end of the handler: publish, dispatch, answer.
dispatches :
    (e : Env) (first : Effect) (t : Task) (r : Response) (w : World)
    → (v : World) × ((spawn first >> (dispatch (some t) >> pure r)) e w ≡ (ok r, v))
      × (v.store ≡ w.store)
      × (v.spawned ≡ w.spawned ++ first ∷ (if e.has_dispatcher then dispatch_new t ∷ [] else []))
unfolding dispatch deref pure spawn get_env ◌>>=◌ ◌>>◌
dispatches e first t r w =
    let begun = w.spawned ++ first ∷ [] in
    elim (Bool-cases e.has_dispatcher) [
      | inl b ↦ (
        told w (begun ++ dispatch_new t ∷ []),
        then-ok e (dispatch (some t)) _ (told w begun) _
            (if_true e (told w begun) e.has_dispatcher _ _ b),
        refl,
        append_two w.spawned _ _ ∙ rw b refl,
      )
      | inr b ↦ (
        told w begun,
        then-ok e (dispatch (some t)) _ (told w begun) _
            (if_false e (told w begun) e.has_dispatcher _ _ b),
        refl,
        rw b refl,
      )
    ]

module _ (e : Env) (q : IsQuiet e) (i : CreateInput) (w : World) where
  abbrev Ends : M Response → Type 0
  Ends m = (r : Response) × (v : World) × (m e w ≡ (ok r, v)) × Creates e w v (some i) r

  abbrev pending_task : Task
  pending_task = record (new_task (chosen e w i) i) { status = Status.pending }

  abbrev with_row : Store
  with_row = record w.store { tasks = w.store.tasks ++ created_row e w i ∷ [] }

  inserted :
      find Task.id (chosen e w i) w.store.tasks ≡ none
      → run (time e w) (insert_task pending_task) w.store ≡ some (1, with_row)
  unfolding run new_task
  inserted f = rw (f, run) refl

  insert-refused :
      (t : Task)
      → find Task.id (chosen e w i) w.store.tasks ≡ some t
      → run (time e w) (insert_task pending_task) w.store ≡ none
  unfolding run new_task
  insert-refused t f = rw (f, run) refl

  -- The INSERT, and the event in the log.
  creates :
      find Task.id (chosen e w i) w.store.tasks ≡ none
      → (v : World) × (create (new_task (chosen e w i) i) e w ≡ (ok tt, v))
        × Inserts (created_row e w i) w v
        × (v.spawned ≡ w.spawned)
  unfolding create new_task
  creates f =
      let (v, h, k) = log_quiet e q (chosen e w i) "CreateTask" i.assignee "" (wrote w with_row) in
      (
        v,
        bind-ok e (exec (insert_task pending_task)) _ w (wrote w with_row) 1
              (exec_quiet e q (insert_task pending_task) w 1 with_row (inserted f))
            ∙ h,
        record { row_last = k.same_tasks; same_gates = k.same_gates; same_agents = k.same_agents },
        k.same_spawned,
      )

  create-refused :
      (t : Task)
      → find Task.id (chosen e w i) w.store.tasks ≡ some t
      → create (new_task (chosen e w i) i) e w ≡ (err db_failed, ticked w)
  unfolding create new_task
  create-refused t f =
      bind-err e (exec (insert_task pending_task)) _ w (ticked w) db_failed
        (exec-refused e q (insert_task pending_task) w (insert-refused t f))

  -- The row is read again after the INSERT.
  found_row :
      (v : World)
      → find Task.id (chosen e w i) w.store.tasks ≡ none
      → Inserts (created_row e w i) w v
      → find Task.id (chosen e w i) v.store.tasks ≡ some (created_row e w i)
  unfolding new_task find
  found_row v f n =
      rw
        (
          n.row_last,
          find-append Task.id (chosen e w i) w.store.tasks (created_row e w i ∷ []),
          f,
          (eq_iff (chosen e w i) (chosen e w i)).1 refl,
        )
        refl

  reads_back :
      (v : World)
      → find Task.id (chosen e w i) w.store.tasks ≡ none
      → Inserts (created_row e w i) w v
      → get_by_id (chosen e w i) e v ≡ (ok (some (created_row e w i)), ticked v)
  unfolding new_task scan_task_row
  reads_back v f n =
      let k = found_row v f n in
      get_by_id_quiet e q (chosen e w i) v ∙ ap (λ o. (ok (scanned o), ticked v)) k

  stores : i.title ≢ "" → IsListed e.cfg i → Ends (store_task (new_task (chosen e w i) i))
  unfolding store_task new_task
  stores n l = elim (Option-cases (find Task.id (chosen e w i) w.store.tasks)) [
    | inl f ↦
        let (v, c, k, s) = creates f in
        let (u, d, same, t) =
          dispatches e _ (created_row e w i)
            (write_json 201 (task_or_null (some (created_row e w i)))) (ticked v) in
        (
          write_json 201 (task_or_null (some (created_row e w i))),
          u,
          respond-ok e (create _) _ _ w v tt c
              ∙ respond-ok e (get_by_id _) _ _ v (ticked v) _ (reads_back v f k)
              ∙ d,
          Creates.created i n l f
              (record {
                row_last = ap (λ z. z.tasks) same ∙ k.row_last;
                same_gates = ap (λ z. z.gates) same ∙ k.same_gates;
                same_agents = ap (λ z. z.agents) same ∙ k.same_agents;
              })
              (t ∙ ap (λ z. z ++ announced e (created_row e w i)) s),
        )
    | inr (t, f) ↦ (
      write_error_safe 500 "create_failed",
      ticked w,
      respond-err e (create _) _ _ w (ticked w) db_failed (create-refused t f),
      Creates.id_taken i t n l f (record { same_store = refl; same_spawned = refl }),
    )
  ]

  -- A response that leaves everything as it is.
  answers_with : (r : Response) → (Idle w w → Creates e w w (some i) r) → Ends (pure r)
  unfolding pure
  answers_with r f = (r, w, refl, f (record { same_store = refl; same_spawned = refl }))

  checks : i.title ≢ "" → Ends (checked e.cfg i (store_task (new_task (chosen e w i) i)))
  unfolding checked
  checks n = elim (Listed-skills e.cfg i.required_skills) [
    | inr (b, l) ↦ rw b (answers_with _ (Creates.unlisted_required i n l))
    | inl (b, r) ↦ elim (Listed-skills e.cfg i.skills) [
      | inr (c, l) ↦ rw (b, c) (answers_with _ (Creates.unlisted_skills i n r l))
      | inl (c, s) ↦ elim (Listed-tags e.cfg i.tags) [
        | inr (d, l) ↦ rw (b, c, d) (answers_with _ (Creates.unlisted_tags i n r s l))
        | inl (d, t) ↦ rw (b, c, d) (stores n (record { required = r; skills = s; tags = t }))
      ]
    ]
  ]

choose_id-ok : (e : Env) (w : World) (i : CreateInput) → choose_id i.id e w ≡ (ok (chosen e w i), w)
unfolding choose_id pure
choose_id-ok e w i = elim (Bool-cases (i.id == "")) [ inl k ↦ rw k refl | inr k ↦ rw k refl ]

-- A request to create a task that runs alone is refused, with nothing changed, if its body is not JSON,
-- it has no title, one of its skills or tags is not in its catalog, or its id is taken. Otherwise the
-- answer is 201 with the row that is then in the table after all others, pending and with no retries
-- used, under the id of the request or a new one; no other task, no gate and no agent changes, and
-- exactly this task is announced and dispatched.
pub create_task-Creates :
    (e : Env) (input : Option CreateInput) (w : World)
    → IsQuiet e
    → (r : Response) × (v : World) × (create_task input e w ≡ (ok r, v)) × Creates e w v input r
unfolding create_task pure ◌>>=◌ get_env
create_task-Creates e none w q =
    (_, w, refl, Creates.malformed (record { same_store = refl; same_spawned = refl }))
create_task-Creates e (some i) w q = elim (Bool-cases (i.title == "")) [
  | inl b ↦ rw b (answers_with e q i w _ (Creates.untitled i ((eq_iff i.title "").0 b)))
  | inr b ↦
      let n : i.title ≢ "" = ground (arith, eq_iff i.title "") in
      let (r, v, h, c) = checks e q i w n in
      (r, v, rw b (bind-ok e (choose_id i.id) _ w w (chosen e w i) (choose_id-ok e w i) ∙ h), c)
]
