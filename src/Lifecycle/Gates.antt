-- ===== src/Lifecycle/Gates.antt =====
-- A gate goes forward only: pending, asked, answered, resolved.
use acb_go.Prelude.{ℕ, ◌≤◌, String, ◌≡◌, refl, ap, ◌∙◌, some, List, [], ◌∷◌, arith, if◌then◌else◌}
use acb_go.Models.{GateStatus, Gate}
use acb_go.Db.Rows.{find, find-append}
use acb_go.Db.Store.{Store}
use acb_go.Db.Statement.{
  Statement, GateUpdate, ask_gate, answer_gate, resolve_gate, selects_gate, assigns_gate,
  stored_gate,
}
use acb_go.Session.Evolution.{Evolves, Evolves-ind, GatesChange, after-GatesChange, gate-update}

abbrev pub rank : GateStatus → ℕ
rank GateStatus.unset = 0
rank GateStatus.pending = 1
rank GateStatus.asked = 2
rank GateStatus.answered = 3
rank GateStatus.resolved = 4

-- What may become of a gate: its task, its question and its time of creation stay, its status goes
-- forward, and a resolved gate stays as it is.
pub record Later (g h : Gate) : Type 0 where
  pub same_id : h.gate_id ≡ g.gate_id
  pub same_task : h.task_id ≡ g.task_id
  pub same_question : h.question ≡ g.question
  pub same_creation : h.created_at ≡ g.created_at
  pub forward : rank g.status ≤ rank h.status
  pub final : g.status ≡ GateStatus.resolved → h ≡ g

Later-refl : (g : Gate) → Later g g
Later-refl g = record {
  same_id = refl;
  same_task = refl;
  same_question = refl;
  same_creation = refl;
  forward = omega arith;
  final = λ e. refl;
}

Later-trans : {g h k : Gate} → Later g h → Later h k → Later g k
Later-trans {g} {h} {k} p q = record {
  same_id = q.same_id ∙ p.same_id;
  same_task = q.same_task ∙ p.same_task;
  same_question = q.same_question ∙ p.same_question;
  same_creation = q.same_creation ∙ p.same_creation;
  forward = omega (arith, p.forward, q.forward);
  final = λ e. q.final (ap Gate.status (p.final e) ∙ e) ∙ p.final e;
}

updated-Later :
    (now : ℕ) (u : GateUpdate) (g : Gate)
    → Later g (if selects_gate u g then assigns_gate now u g else g)
unfolding selects_gate assigns_gate
updated-Later now (ask_gate id a) g = ground arith
updated-Later now (answer_gate id a) g = ground arith
updated-Later now (resolve_gate id) g = ground arith

abbrev pub Becomes : String → Gate → List Gate → Type 0
Becomes id g gs = (h : Gate) × (find Gate.gate_id id gs ≡ some h) × Later g h

Becomes-change :
    (id : String) (now : ℕ) (q : Statement) (s : Store) (gs : List Gate) (g : Gate)
    → GatesChange now q s gs
    → Becomes id g s.gates
    → Becomes id g gs
Becomes-change id now q s gs g (GatesChange.kept e) (h, f, l) = (h, rw e f, l)
Becomes-change id now q s gs g (GatesChange.updated u _ e) (h, f, l) = (
  if selects_gate u h then assigns_gate now u h else h,
  rw (e, gate-update now u id s.gates, f),
  Later-trans l (updated-Later now u h),
)
Becomes-change id now q s gs g (GatesChange.inserted x _ _ _ e) (h, f, l) =
    (h, rw (e, find-append Gate.gate_id id s.gates (stored_gate now x ∷ []), f), l)

-- In every order of statements a gate stays in the table, with its task and its question, its status
-- never goes back, and once it is resolved it does not change any more.
pub gate_forward :
    {s t : Store} (id : String) (g : Gate)
    → Evolves s t
    → find Gate.gate_id id s.gates ≡ some g
    → (h : Gate) × (find Gate.gate_id id t.gates ≡ some h) × Later g h
gate_forward id g e f =
    Evolves-ind (λ s. Becomes id g s.gates)
      (λ now q s _ b. Becomes-change id now q s _ g (after-GatesChange now q s) b) e
      (g, f, Later-refl g)
