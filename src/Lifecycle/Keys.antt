-- ===== src/Lifecycle/Keys.antt =====
-- The primary keys of schema.go hold at all times.
use acb_go.Prelude.{
  List, ℕ, ◌≡◌, refl, arith, Option-cases, inl, inr, none, some, [], ◌∷◌, ◌++◌, sym, eq_iff, ◌==◌,
}
use acb_go.Prelude.Int.{pos}
use acb_go.Models.{Task, Gate, Agent}
use acb_go.Db.Rows.{Unique, Unique-snoc, Unique-update, find, update}
use acb_go.Db.Store.{Store, HasKeys}
use acb_go.Db.Statement.{
  Statement, insert_task, update_task, insert_gate, update_gate, upsert_agent, update_agent,
  insert_event, AgentUpdate, selects, assigns, selects_gate, assigns_gate, selects_agent,
  assigns_agent, overwrite, stored_task, stored_gate, run, after,
}
use acb_go.Session.Evolution.{
  Evolves, Evolves-ind, TasksChange, GatesChange, after-TasksChange, after-GatesChange, id-assigns,
  gate_id-assigns_gate,
}

tasks-Unique :
    (now : ℕ) (q : Statement) (s : Store) (ts : List Task)
    → Unique Task.id s.tasks
    → TasksChange now q s ts
    → Unique Task.id ts
tasks-Unique now q s ts u (TasksChange.kept e) = rw e u
tasks-Unique now q s ts u (TasksChange.updated v _ _ e) =
    rw e (Unique-update Task.id (selects v) (assigns now v) (λ t _. id-assigns now v t) s.tasks u)
tasks-Unique now q s ts u (TasksChange.inserted t _ fresh e) =
    rw e (Unique-snoc Task.id s.tasks (stored_task now t) fresh u)

gates-Unique :
    (now : ℕ) (q : Statement) (s : Store) (gs : List Gate)
    → Unique Gate.gate_id s.gates
    → GatesChange now q s gs
    → Unique Gate.gate_id gs
gates-Unique now q s gs u (GatesChange.kept e) = rw e u
gates-Unique now q s gs u (GatesChange.updated v _ e) = rw e (
    Unique-update Gate.gate_id (selects_gate v) (assigns_gate now v)
      (λ g _. gate_id-assigns_gate now v g) s.gates u)
gates-Unique now q s gs u (GatesChange.inserted g _ fresh _ e) =
    rw e (Unique-snoc Gate.gate_id s.gates (stored_gate now g) fresh u)

name-assigns_agent : (now : ℕ) (u : AgentUpdate) (a : Agent) → (assigns_agent now u a).name ≡ a.name
unfolding assigns_agent
name-assigns_agent now (AgentUpdate.agent_heartbeat _) a = refl
name-assigns_agent now _ a = refl

upserted_new :
    (now : ℕ) (a : Agent) (s : Store)
    → find Agent.name a.name s.agents ≡ none
    → (after now (upsert_agent a) s).agents
      ≡ s.agents ++ record a { last_event_id = some (pos 0) } ∷ []
unfolding after run
upserted_new now a s e = ground arith

upserted_old :
    (now : ℕ) (a : Agent) (s : Store) (x : Agent)
    → find Agent.name a.name s.agents ≡ some x
    → (after now (upsert_agent a) s).agents ≡ update (λ b. b.name == a.name) (overwrite a) s.agents
unfolding after run
upserted_old now a s x e = ground arith

upserted-Unique :
    (now : ℕ) (a : Agent) (s : Store)
    → Unique Agent.name s.agents
    → Unique Agent.name (after now (upsert_agent a) s).agents
unfolding overwrite
upserted-Unique now a s u = elim (Option-cases (find Agent.name a.name s.agents)) [
  | inl e ↦
      rw (upserted_new now a s e)
        (Unique-snoc Agent.name s.agents (record a { last_event_id = some (pos 0) }) e u)
  | inr (x, e) ↦ rw (upserted_old now a s x e) (
      Unique-update Agent.name (λ b. b.name == a.name) (overwrite a)
        (λ b h. sym ((eq_iff b.name a.name).0 h)) s.agents u)
]

agents-Unique :
    (now : ℕ) (q : Statement) (s : Store)
    → Unique Agent.name s.agents
    → Unique Agent.name (after now q s).agents
unfolding after run
agents-Unique now (insert_task t) s u = ground arith
agents-Unique now (update_task v) s u = ground arith
agents-Unique now (insert_gate g) s u = ground arith
agents-Unique now (update_gate v) s u = u
agents-Unique now (upsert_agent a) s u = upserted-Unique now a s u
agents-Unique now (update_agent v) s u =
    Unique-update Agent.name (selects_agent v) (assigns_agent now v)
      (λ a _. name-assigns_agent now v a) s.agents u
agents-Unique now (insert_event id event agent detail) s u = ground arith

-- From tables with unique keys, no history of issued statements gives two tasks one id, two gates one gate_id or two agents one
-- name.
pub Evolves-HasKeys : {s t : Store} → Evolves s t → HasKeys s → HasKeys t
Evolves-HasKeys = Evolves-ind HasKeys λ now q s _ k. record {
  tasks_unique = tasks-Unique now q s _ k.tasks_unique (after-TasksChange now q s);
  gates_unique = gates-Unique now q s _ k.gates_unique (after-GatesChange now q s);
  agents_unique = agents-Unique now q s k.agents_unique;
}
