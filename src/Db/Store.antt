-- ===== src/Db/Store.antt =====
-- The database: the rows of the tables tasks, gates, agents and task_events.
use acb_go.Prelude.{List}
use acb_go.Models.{Task, Gate, Agent, TaskEvent}
use acb_go.Db.Rows.{Unique}

pub record Store : Type 0 where
  pub tasks : List Task
  pub gates : List Gate
  pub agents : List Agent
  pub events : List TaskEvent

-- The primary keys of schema.go.
pub record HasKeys (s : Store) : Type 0 where
  pub tasks_unique : Unique Task.id s.tasks
  pub gates_unique : Unique Gate.gate_id s.gates
  pub agents_unique : Unique Agent.name s.agents
