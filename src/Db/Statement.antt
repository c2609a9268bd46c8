-- ===== src/Db/Statement.antt =====
-- The statements that the repositories send to PostgreSQL. Each one is atomic: it changes the rows
-- that its WHERE clause selects, all at once, or is refused by a constraint of schema.go.
use acb_go.Prelude.{
  ℕ, ◌+◌, String, Bool, true, not, ◌&&◌, ◌||◌, Option, none, some, List, [], ◌∷◌, ◌++◌, ◌==◌,
  if◌then◌else◌, count, length, leb,
}
use acb_go.Prelude.Int.{ℤ, pos, ◌+ℤ◌}
use acb_go.Models.{Status, GateStatus, is, is_gate, Artifact, Task, Gate, Agent}
use acb_go.Db.Rows.{find, update}
use acb_go.Db.Store.{Store}

-- UPDATE tasks.
pub data TaskUpdate : Type 0 where
  set_status : (id : String) → Status → TaskUpdate
  claim : (id assignee : String) → TaskUpdate
  start block : (id : String) → TaskUpdate
  complete fail : (id summary : String) → TaskUpdate
  retry expire_pending release : (id : String) → TaskUpdate
  expire_stale : (id summary : String) → TaskUpdate
  heartbeat : (id : String) → TaskUpdate
  set_artifacts : (id : String) → List Artifact → TaskUpdate

-- UPDATE gates.
pub data GateUpdate : Type 0 where
  ask_gate answer_gate : (gate_id answer : String) → GateUpdate
  resolve_gate : (gate_id : String) → GateUpdate

-- UPDATE agents.
pub data AgentUpdate : Type 0 where
  agent_heartbeat : (name : String) → AgentUpdate
  agent_cursor : (name : String) → ℤ → AgentUpdate
  agent_token : (name token prefix : String) → AgentUpdate

pub data Statement : Type 0 where
  insert_task : Task → Statement
  update_task : TaskUpdate → Statement
  insert_gate : Gate → Statement
  update_gate : GateUpdate → Statement
  upsert_agent : Agent → Statement
  update_agent : AgentUpdate → Statement
  insert_event : (task_id event agent detail : String) → Statement

-- The WHERE clauses of the updates of tasks.
unfoldable pub selects : TaskUpdate → Task → Bool
selects (set_status id _) t = t.id == id
selects (claim id _) t = t.id == id && is t.status Status.pending
selects (start id) t = t.id == id && is t.status Status.claimed
selects (block id) t = t.id == id && (is t.status Status.in_progress || is t.status Status.claimed)
selects (complete id _) t = t.id == id && is t.status Status.in_progress
selects (fail id _) t = t.id == id && is t.status Status.in_progress
selects (retry id) t = t.id == id
selects (expire_pending id) t = t.id == id && is t.status Status.pending
selects (release id) t = t.id == id
selects (expire_stale id _) t = t.id == id && is t.status Status.in_progress
selects (heartbeat id) t = t.id == id
selects (set_artifacts id _) t = t.id == id

-- The SET clauses of the updates of tasks, at the time NOW().
unfoldable pub assigns : ℕ → TaskUpdate → Task → Task
assigns now (set_status _ s) t = record t { status = s; updated_at = now }
assigns now (claim _ assignee) t = record t {
  status = Status.claimed;
  assignee = assignee;
  updated_at = now;
}
assigns now (start _) t = record t { status = Status.in_progress; updated_at = now }
assigns now (block _) t = record t { status = Status.blocked; updated_at = now }
assigns now (complete _ summary) t = record t {
  status = Status.completed;
  summary = summary;
  updated_at = now;
}
assigns now (fail _ reason) t = record t {
  status = Status.failed;
  summary = reason;
  updated_at = now;
}
assigns now (retry _) t = record t {
  status = Status.pending;
  retry_count = t.retry_count +ℤ pos 1;
  assignee = "";
  updated_at = now;
}
assigns now (expire_pending _) t = record t {
  status = Status.failed;
  summary = "Task expired: no agent claimed within timeout period";
  updated_at = now;
}
assigns now (release _) t = record t { status = Status.pending; assignee = ""; updated_at = now }
assigns now (expire_stale _ summary) t = record t {
  status = Status.failed;
  summary = summary;
  updated_at = now;
}
assigns now (heartbeat _) t = record t { last_heartbeat = some now; updated_at = now }
assigns now (set_artifacts _ artifacts) t = record t { artifacts = artifacts }

unfoldable pub selects_gate : GateUpdate → Gate → Bool
selects_gate (ask_gate id _) g = g.gate_id == id && is_gate g.status GateStatus.pending
selects_gate (answer_gate id _) g = g.gate_id == id && is_gate g.status GateStatus.asked
selects_gate (resolve_gate id) g = g.gate_id == id && is_gate g.status GateStatus.answered

unfoldable pub assigns_gate : ℕ → GateUpdate → Gate → Gate
assigns_gate now (ask_gate _ answer) g = record g { status = GateStatus.asked; answer = answer }
assigns_gate now (answer_gate _ answer) g = record g {
  status = GateStatus.answered;
  answer = answer;
  answered_at = some now;
}
assigns_gate now (resolve_gate _) g = record g { status = GateStatus.resolved }

unfoldable pub selects_agent : AgentUpdate → Agent → Bool
selects_agent (agent_heartbeat name) a = a.name == name
selects_agent (agent_cursor name _) a = a.name == name
selects_agent (agent_token name _ _) a = a.name == name

unfoldable pub assigns_agent : ℕ → AgentUpdate → Agent → Agent
assigns_agent now (agent_heartbeat _) a = record a { last_heartbeat = some now }
assigns_agent now (agent_cursor _ id) a = record a { last_event_id = some id }
assigns_agent now (agent_token _ token prefix) a = record a { token = token; token_prefix = prefix }

-- ON CONFLICT(name) DO UPDATE: every inserted column is overwritten, and the cursor is kept.
unfoldable pub overwrite : Agent → Agent → Agent
overwrite new old = record new { last_event_id = old.last_event_id }

-- CHECK(status IN (…)), which is asked of the rows that the update selects.
abbrev pub admits : TaskUpdate → Bool
admits (set_status _ s) = not (is s Status.unset)
admits _ = true

-- The inserted rows: the columns that the statement leaves out have their defaults.
abbrev pub stored_task : ℕ → Task → Task
stored_task now t = record t { created_at = now; updated_at = now; last_heartbeat = none }

abbrev pub stored_gate : ℕ → Gate → Gate
stored_gate now g = record g { created_at = now; answered_at = none }

-- What a statement does at time `now`: the rows that it affects and the new tables, or `none` if a
-- constraint refuses it.
unfoldable pub run : ℕ → Statement → Store → Option (ℕ × Store)
run now (insert_task t) s = elim (find Task.id t.id s.tasks) [
  | some _ ↦ none
  | none ↦
      if is t.status Status.unset
      then none
      else some (1, record s { tasks = s.tasks ++ stored_task now t ∷ [] })
]
run now (update_task u) s =
    if admits u
    then some
        (count (selects u) s.tasks, record s { tasks = update (selects u) (assigns now u) s.tasks })
    else if leb 1 (count (selects u) s.tasks)
    then none
    else some (0, s)
run now (insert_gate g) s = elim (find Gate.gate_id g.gate_id s.gates) [
  | some _ ↦ none
  | none ↦ elim (find Task.id g.task_id s.tasks) [
    | none ↦ none
    | some _ ↦
        if is_gate g.status GateStatus.unset
        then none
        else some (1, record s { gates = s.gates ++ stored_gate now g ∷ [] })
  ]
]
run now (update_gate u) s = some (
  count (selects_gate u) s.gates,
  record s { gates = update (selects_gate u) (assigns_gate now u) s.gates },
)
run now (upsert_agent a) s = elim (find Agent.name a.name s.agents) [
  | none ↦
      some (1, record s { agents = s.agents ++ record a { last_event_id = some (pos 0) } ∷ [] })
  | some _ ↦ some (1, record s { agents = update (λ b. b.name == a.name) (overwrite a) s.agents })
]
run now (update_agent u) s = some (
  count (selects_agent u) s.agents,
  record s { agents = update (selects_agent u) (assigns_agent now u) s.agents },
)
run now (insert_event id event agent detail) s = elim (find Task.id id s.tasks) [
  | none ↦ none
  | some _ ↦ some (
    1,
    record s {
      events =
          s.events
          ++ record {
            id = length s.events + 1;
            task_id = id;
            event = event;
            agent = agent;
            timestamp = now;
            detail = detail;
          }
            ∷ [];
    },
  )
]

-- The tables after a statement: a refused one leaves them as they are.
abbrev pub tables : Store → Option (ℕ × Store) → Store
tables s none = s
tables s (some (n, t)) = t

unfoldable pub after : ℕ → Statement → Store → Store
after now q s = tables s (run now q s)
