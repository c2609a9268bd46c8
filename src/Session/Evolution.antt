-- ===== src/Session/Evolution.antt =====
-- How the tables may change: by the statements that the service issues, in any order.
use acb_go.Prelude.{
  true, ◌++◌, Bool-cases, ℕ, String, ◌≡◌, refl, inl, inr, none, some, List, [], ◌∷◌, All, arith,
  Option-cases, if◌then◌else◌, subst, sym,
}
use acb_go.Prelude.Int.{pos}
use acb_go.Models.{is, is_gate, Status, GateStatus, Task, Gate}
use acb_go.Db.Rows.{update, find, find-update, find-append, touch}
use acb_go.Db.Store.{Store}
use acb_go.Db.Statement.{
  admits, stored_task, stored_gate, Statement, insert_task, update_task, insert_gate, update_gate,
  upsert_agent, update_agent, insert_event, TaskUpdate, set_status, GateUpdate, ask_gate, selects,
  assigns, selects_gate, assigns_gate, run, after,
}
use acb_go.Session.{run_all}

-- The statements that the code can send: a task is inserted as pending, with no retries used, a
-- status is set by hand to in_progress only, and a gate is inserted as pending.
abbrev pub Issued : Statement → Type 0
Issued (insert_task t) = (t.status ≡ Status.pending) × (t.retry_count ≡ pos 0)
Issued (update_task (set_status id s)) = s ≡ Status.in_progress
Issued (insert_gate g) = g.status ≡ GateStatus.pending
Issued _ = Unit

pub data Evolves (s : Store) : Store → Type 0 where
  here : Evolves s s
  next :
      {t u : Store}
      → Evolves s t
      → (now : ℕ) (q : Statement) → Issued q
      → u ≡ after now q t
      → Evolves s u

pub Evolves-trans : {s t u : Store} → Evolves s t → Evolves t u → Evolves s u
Evolves-trans e here = e
Evolves-trans e (next f now q h p) = next (Evolves-trans e f) now q h p

pub Evolves-run_all :
    (now : ℕ) (qs : List Statement) (s : Store) → All Issued qs → Evolves s (run_all now qs s)
unfolding run_all
Evolves-run_all now [] s h = here
Evolves-run_all now (q ∷ qs) s h =
    Evolves-trans (next here now q h.0 refl) (Evolves-run_all now qs (after now q s) h.1)

-- What every issued statement keeps holds at the end if it held at the start.
pub Evolves-ind :
    (P : Store → Type 0)
    → ((now : ℕ) (q : Statement) (s : Store) → Issued q → P s → P (after now q s))
    → {s t : Store} → Evolves s t
    → P s
    → P t
Evolves-ind P keep here p = p
Evolves-ind P keep (next {t = t} e now q h eq) p =
    subst P (sym eq) (keep now q t h (Evolves-ind P keep e p))

-- The task with this id is in the tables.
abbrev pub HasTask : String → Store → Type 0
HasTask id s = (t : Task) × (find Task.id id s.tasks ≡ some t)

pub id-assigns : (now : ℕ) (u : TaskUpdate) (t : Task) → (assigns now u t).id ≡ t.id
unfolding assigns
id-assigns now (set_status _ _) t = refl
id-assigns now _ t = refl

pub gate_id-assigns_gate :
    (now : ℕ) (u : GateUpdate) (g : Gate) → (assigns_gate now u g).gate_id ≡ g.gate_id
unfolding assigns_gate
gate_id-assigns_gate now (ask_gate _ _) g = refl
gate_id-assigns_gate now _ g = refl

-- What an update of tasks makes of the row of a key.
pub task-update :
    (now : ℕ) (u : TaskUpdate) (id : String) (ts : List Task)
    → find Task.id id (update (selects u) (assigns now u) ts)
      ≡ touch (selects u) (assigns now u) (find Task.id id ts)
task-update now u id ts =
    find-update Task.id (selects u) (assigns now u) (λ t _. id-assigns now u t) id ts

pub gate-update :
    (now : ℕ) (u : GateUpdate) (id : String) (gs : List Gate)
    → find Gate.gate_id id (update (selects_gate u) (assigns_gate now u) gs)
      ≡ touch (selects_gate u) (assigns_gate now u) (find Gate.gate_id id gs)
gate-update now u id gs =
    find-update Gate.gate_id (selects_gate u) (assigns_gate now u)
      (λ g _. gate_id-assigns_gate now u g) id gs

-- What a statement did to the table of tasks.
pub data TasksChange (now : ℕ) (q : Statement) (s : Store) (ts : List Task) : Type 0 where
  kept : ts ≡ s.tasks → TasksChange now q s ts
  updated :
      (u : TaskUpdate)
      → q ≡ update_task u
      → admits u ≡ true
      → ts ≡ update (selects u) (assigns now u) s.tasks
      → TasksChange now q s ts
  inserted :
      (t : Task)
      → q ≡ insert_task t
      → find Task.id t.id s.tasks ≡ none
      → ts ≡ s.tasks ++ stored_task now t ∷ []
      → TasksChange now q s ts

pub after-TasksChange :
    (now : ℕ) (q : Statement) (s : Store) → TasksChange now q s (after now q s).tasks
unfolding after run
after-TasksChange now (insert_task t) s = elim (Option-cases (find Task.id t.id s.tasks)) [
  | inl e ↦ elim (Bool-cases (is t.status Status.unset)) [
    | inl b ↦ kept (ground arith)
    | inr b ↦ inserted t refl e (ground arith)
  ]
  | inr (x, e) ↦ kept (ground arith)
]
after-TasksChange now (update_task u) s = elim (Bool-cases (admits u)) [
  | inl b ↦ updated u refl b (ground arith)
  | inr b ↦ kept (ground arith)
]
after-TasksChange now (insert_gate g) s = kept (ground arith)
after-TasksChange now (update_gate u) s = kept refl
after-TasksChange now (upsert_agent a) s = kept (ground arith)
after-TasksChange now (update_agent u) s = kept refl
after-TasksChange now (insert_event id event agent detail) s = kept (ground arith)

-- And to the table of gates.
pub data GatesChange (now : ℕ) (q : Statement) (s : Store) (gs : List Gate) : Type 0 where
  kept : gs ≡ s.gates → GatesChange now q s gs
  updated :
      (u : GateUpdate)
      → q ≡ update_gate u
      → gs ≡ update (selects_gate u) (assigns_gate now u) s.gates
      → GatesChange now q s gs
  inserted :
      (g : Gate)
      → q ≡ insert_gate g
      → find Gate.gate_id g.gate_id s.gates ≡ none
      → HasTask g.task_id s
      → gs ≡ s.gates ++ stored_gate now g ∷ []
      → GatesChange now q s gs

pub after-GatesChange :
    (now : ℕ) (q : Statement) (s : Store) → GatesChange now q s (after now q s).gates
unfolding after run
after-GatesChange now (insert_task t) s = kept (ground arith)
after-GatesChange now (update_task u) s = kept (ground arith)
after-GatesChange now (insert_gate g) s =
    elim (Option-cases (find Gate.gate_id g.gate_id s.gates)) [
      | inl e ↦ elim (Option-cases (find Task.id g.task_id s.tasks)) [
        | inl n ↦ kept (ground arith)
        | inr (t, f) ↦ elim (Bool-cases (is_gate g.status GateStatus.unset)) [
          | inl b ↦ kept (ground arith)
          | inr b ↦ inserted g refl e (t, f) (ground arith)
        ]
      ]
      | inr (x, e) ↦ kept (ground arith)
    ]
after-GatesChange now (update_gate u) s = updated u refl refl
after-GatesChange now (upsert_agent a) s = kept (ground arith)
after-GatesChange now (update_agent u) s = kept refl
after-GatesChange now (insert_event id event agent detail) s = kept (ground arith)

-- No statement deletes a task.
HasTask-change :
    (id : String) (now : ℕ) (q : Statement) (s : Store) (ts : List Task) {x : Task}
    → find Task.id id s.tasks ≡ some x
    → TasksChange now q s ts
    → (y : Task) × (find Task.id id ts ≡ some y)
HasTask-change id now q s ts {x} h (kept e) = (x, rw e h)
HasTask-change id now q s ts {x} h (updated u _ _ e) =
    (if selects u x then assigns now u x else x, rw (e, task-update now u id s.tasks, h))
HasTask-change id now q s ts {x} h (inserted t _ _ e) =
    (x, rw (e, find-append Task.id id s.tasks (stored_task now t ∷ []), h))

pub Evolves-HasTask : (id : String) {s t : Store} → Evolves s t → HasTask id s → HasTask id t
Evolves-HasTask id =
    Evolves-ind (HasTask id)
      λ now q s _ (x, h). HasTask-change id now q s _ h (after-TasksChange now q s)
