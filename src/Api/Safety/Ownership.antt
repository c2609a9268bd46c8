-- ===== src/Api/Safety/Ownership.antt =====
-- AnswerGate and ApproveGate of internal/api/task_handler.go: whose gates they move.
use acb_go.Prelude.{
  ℕ, ap, String, ◌≡◌, refl, sym, subst, ◌∙◌, Bool, true, false, not, Option, none, some,
  if◌then◌else◌, arith, Bool-cases, Option-cases, inl, inr, ◌==◌, eq_iff,
}
use acb_go.Models.{GateStatus, is_gate, Gate}
use acb_go.Db.Rows.{find}
use acb_go.Db.Store.{Store}
use acb_go.Session.{
  Env, World, Effect, Outcome, ok, err, panic, db_failed, M, arrive, pure, query, if_nil,
  or_respond, spawn, ◌>>◌,
}
use acb_go.Session.Quiet.{if_true, if_false, respond-ok, respond-err}
use acb_go.Session.Safe.{Safe, unknown, IsFair, Post}
use acb_go.Db.GateRepo.{get_gate_by_id, ask_gate, answer_gate}
use acb_go.Lifecycle.Gates.{gate_forward}
use acb_go.Api.Response.{Response, write_error, write_error_safe, write_json}
use acb_go.Api.TaskHandler.Gates.{with_gate, answer, approve}
use acb_go.Api.Safety.Tasks.{Answers, answer_rules}
use acb_go.Api.Safety.Gates.{move_gate-Safe}

-- A response of 200 is given only if the gate of this id is in the tables and belongs to the task.
abbrev OwnsIfOk : (id gate_id : String) → Outcome Response × World → Type 0
OwnsIfOk id gate_id (ok r, v) =
    r.code ≡ 200
    → (g : Gate) × (find Gate.gate_id gate_id v.store.gates ≡ some g) × (g.task_id ≡ id)
OwnsIfOk id gate_id (err x, v) = Unit
OwnsIfOk id gate_id (panic, v) = Unit

abbrev code_of : Outcome Response → ℕ
code_of (ok r) = r.code
code_of _ = 0

owned_after :
    (id gate_id : String) (s : Store) (g : Gate) (o : Outcome Response × World)
    → find Gate.gate_id gate_id s.gates ≡ some g
    → g.task_id ≡ id
    → Post (λ _. unknown) s o
    → OwnsIfOk id gate_id o
owned_after id gate_id s g (ok r, v) f t p =
    λ h. let (k, fk, l) = gate_forward gate_id g p.0 f in (k, fk, l.same_task ∙ t)
owned_after id gate_id s g (err x, v) f t p = tt
owned_after id gate_id s g (panic, v) f t p = tt

module _ (id gate_id : String) (wanted : GateStatus) (complaint : GateStatus → String)
    (rest : M Response) (safe : Answers unknown rest) (e : Env) (fair : IsFair e) (w : World) where
  -- The row as the handler reads it.
  found_gate : Option Gate
  found_gate = find Gate.gate_id gate_id (arrive e w).store.gates

  read_gate :
      (e.turn w.calls).down ≡ false → get_gate_by_id gate_id e w ≡ (ok found_gate, arrive e w)
  unfolding get_gate_by_id query found_gate
  read_gate up = rw up refl

  read_down :
      (e.turn w.calls).down ≡ true → get_gate_by_id gate_id e w ≡ (err db_failed, arrive e w)
  unfolding get_gate_by_id query
  read_down d = rw d refl

  -- The two tests of the handler, on the row that it read.
  tested :
      (g : Gate)
      → found_gate ≡ some g
      → OwnsIfOk id gate_id (
          (if not (g.task_id == id)
              then pure (write_error 400 "gate_mismatch" "gate does not belong to this task")
              else if is_gate g.status wanted
              then rest
              else pure (write_error 409 "invalid_gate_status" (complaint g.status)))
            e
            (arrive e w))
  unfolding pure write_error write_json found_gate
  tested g f = elim (Bool-cases (g.task_id == id)) [
    | inr n ↦
        subst (OwnsIfOk id gate_id)
          (sym (if_true e (arrive e w) (not (g.task_id == id)) _ _ (rw n refl)))
          (λ h. absurd (omega (arith, h)))
    | inl y ↦
        subst (OwnsIfOk id gate_id)
          (sym (if_false e (arrive e w) (not (g.task_id == id)) _ _ (rw y refl)))
          (elim (Bool-cases (is_gate g.status wanted)) [
            | inl a ↦ subst (OwnsIfOk id gate_id) (sym (if_true e (arrive e w) _ _ _ a)) (
                owned_after id gate_id (arrive e w).store g (rest e (arrive e w)) f
                  ((eq_iff g.task_id id).0 y) (safe.at e fair (arrive e w) tt))
            | inr b ↦
                subst (OwnsIfOk id gate_id) (sym (if_false e (arrive e w) _ _ _ b))
                  (λ h. absurd (omega (arith, h)))
          ])
  ]

  with_gate-OwnsIfOk : OwnsIfOk id gate_id (with_gate id gate_id wanted complaint rest e w)
  unfolding with_gate if_nil pure write_error write_error_safe write_json found_gate
  with_gate-OwnsIfOk = elim (Bool-cases (e.turn w.calls).down) [
    | inl d ↦
        subst (OwnsIfOk id gate_id)
          (sym (respond-err e (get_gate_by_id gate_id) _ _ w (arrive e w) db_failed (read_down d)))
          (λ h. absurd (omega (arith, h)))
    | inr up ↦ elim (Option-cases found_gate) [
      | inl n ↦
          subst (OwnsIfOk id gate_id)
            (sym (
              respond-ok e (get_gate_by_id gate_id) _ _ w (arrive e w) none
                (read_gate up ∙ rw n refl)))
            (λ h. absurd (omega (arith, h)))
      | inr (g, f) ↦
          subst (OwnsIfOk id gate_id)
            (sym (
              respond-ok e (get_gate_by_id gate_id) _ _ w (arrive e w) (some g)
                (read_gate up ∙ rw f refl)))
            (tested g f)
    ]
  ]

-- The test for an empty answer in front of it.
guarded :
    (id gate_id : String) (b : Bool) (r : Response) (m : M Response) (e : Env) (w : World)
    → r.code ≡ 400
    → OwnsIfOk id gate_id (m e w)
    → OwnsIfOk id gate_id ((if b then pure r else m) e w)
unfolding pure
guarded id gate_id true r m e w c o = λ h. absurd (omega (arith, c, h))
guarded id gate_id false r m e w c o = o

moved-Safe :
    (m : M (Unit {0})) (code : String) (x : Effect) (r : Response)
    → Safe unknown m (λ _. unknown)
    → Answers unknown (or_respond m (λ y. write_error_safe 409 code) λ _. spawn x >> pure r)
moved-Safe m code x r s = search answer_rules depth 12

owned :
    (id gate_id : String) (o : Outcome Response × World) (r : Response)
    → OwnsIfOk id gate_id o
    → o.0 ≡ ok r
    → r.code ≡ 200
    → (g : Gate) × (find Gate.gate_id gate_id o.1.store.gates ≡ some g) × (g.task_id ≡ id)
owned id gate_id (ok a, v) r h e c = h (ap code_of e ∙ c)
owned id gate_id (err x, v) r h e c = cc
owned id gate_id (panic, v) r h e c = cc

-- If the others send issued statements only, and a request to answer a gate gets the response 200, then
-- the gate is there and belongs to the task that the request names, whatever the others do meanwhile.
pub answer-task_id :
    (id gate_id text : String) (e : Env) (w : World) (r : Response)
    → IsFair e
    → (answer id gate_id (some text) e w).0 ≡ ok r
    → r.code ≡ 200
    → (g : Gate) × (find Gate.gate_id gate_id (answer id gate_id (some text) e w).1.store.gates
        ≡ some g)
      × (g.task_id ≡ id)
unfolding answer ask_gate write_error write_json
answer-task_id id gate_id text e w r fair = owned id gate_id (answer id gate_id (some text) e w) r (
    guarded id gate_id (text == "") _ _ e w refl (
      with_gate-OwnsIfOk id gate_id GateStatus.pending _ _
        (moved-Safe _ _ _ _ (move_gate-Safe unknown _ _ _)) e fair w))

-- If the others send issued statements only, and a request to approve a gate gets the response 200, then
-- the gate is there and belongs to the task that the request names, whatever the others do meanwhile.
pub approve-task_id :
    (id gate_id text : String) (e : Env) (w : World) (r : Response)
    → IsFair e
    → (approve id gate_id (some text) e w).0 ≡ ok r
    → r.code ≡ 200
    → (g : Gate) × (find Gate.gate_id gate_id (approve id gate_id (some text) e w).1.store.gates
        ≡ some g)
      × (g.task_id ≡ id)
unfolding approve answer_gate write_error write_json
approve-task_id id gate_id text e w r fair =
    owned id gate_id (approve id gate_id (some text) e w) r (
      guarded id gate_id (text == "") _ _ e w refl (
        with_gate-OwnsIfOk id gate_id GateStatus.asked _ _
          (moved-Safe _ _ _ _ (move_gate-Safe unknown _ _ _)) e fair w))
