-- ===== src/Tests/Samples.antt =====
-- A small board: two tasks, of which the second waits for the first, and one at work, two gates and an agent.
use acb_go.Prelude.{ℕ, ◌+◌, String, ◌==◌, refl, arith, true, false, none, some, List, [], ◌∷◌, ◌≡◌}
use acb_go.Prelude.Int.{pos}
use acb_go.Models.{Status, is, GateStatus, Task, TaskEvent, Gate, Agent}
use acb_go.Db.Rows.{find, update, Unique}
use acb_go.Db.Store.{Store, HasKeys}
use acb_go.Db.Statement.{
  update_task, update_gate, claim, start, answer_gate, run, selects_gate, assigns_gate, after,
}
use acb_go.Session.Evolution.{Evolves, here, next}
use acb_go.Session.{Env, World, Turn}
use acb_go.Session.Safe.{IsFair}
use acb_go.Session.Quiet.{IsQuiet}
use acb_go.Api.Dispatching.Retries.{RetryEntry, Sender, no_answer}

abbrev pub plain_task : String → Status → List String → Task
plain_task id status parents = record {
  id = id;
  title = "write the report";
  assignee = "";
  status = status;
  priority = pos 3;
  parents = parents;
  skills = [];
  required_skills = "go" ∷ [];
  tags = [];
  body_goal = "";
  body_context = "";
  body_deliverable_fmt = "markdown";
  body_deliverable_path = "";
  created_at = 5;
  updated_at = 5;
  summary = "";
  artifacts = [];
  last_heartbeat = none;
  max_retries = pos 2;
  retry_count = pos 0;
}

abbrev pub done_task : Task
done_task = plain_task "t1" Status.completed []

abbrev pub open_task : Task
open_task = plain_task "t2" Status.pending ("t1" ∷ [])

abbrev pub busy_task : Task
busy_task = record (plain_task "t3" Status.in_progress []) { assignee = "gopher" }

abbrev pub asked_gate : Gate
asked_gate = record {
  gate_id = "g1";
  task_id = "t3";
  question = "ship it?";
  ask = "";
  status = GateStatus.asked;
  answer = "yes";
  created_at = 6;
  answered_at = none;
}

abbrev pub pending_gate : Gate
pending_gate = record asked_gate { gate_id = "g2"; status = GateStatus.pending; answer = "" }

abbrev pub gopher : Agent
gopher = record {
  name = "gopher";
  port = pos 0;
  token = "hash";
  last_heartbeat = none;
  skills = "go" ∷ "sql" ∷ [];
  webhook_url = "";
  webhook_secret = "";
  token_prefix = "";
  last_event_id = some (pos 0);
}

abbrev pub board : Store
board = record {
  tasks = done_task ∷ open_task ∷ busy_task ∷ [];
  gates = asked_gate ∷ pending_gate ∷ [];
  agents = gopher ∷ [];
  events = [];
}

abbrev pub start_world : World
start_world = record { store = board; objects = []; calls = 0; spawned = [] }

abbrev env_of : (ℕ → Turn) → Env
env_of turn = record {
  turn = turn;
  uuid = λ n. "id";
  has_event_repo = true;
  has_dispatcher = true;
  cfg = none;
  like = λ text pattern. text == pattern;
  marshal = λ l. "[]";
  timestamptz = λ text. none;
}

-- Nobody else is there.
abbrev pub quiet_env : Env
quiet_env = env_of λ n. record { others = []; now = 1000000000 + n; down = false }

-- Before every call, somebody else tries to claim the open task.
abbrev pub busy_env : Env
busy_env = env_of λ n. record {
  others = update_task (claim "t2" "rival") ∷ [];
  now = 1000000000 + n;
  down = false;
}

pub quiet_env-IsQuiet : IsQuiet quiet_env
quiet_env-IsQuiet = record { alone = λ n. refl; up = λ n. refl }

pub busy_env-IsFair : IsFair busy_env
busy_env-IsFair = record { fair = λ n. (tt, tt) }

pub board-HasKeys : HasKeys board
unfolding find
board-HasKeys = record {
  tasks_unique = (refl, (refl, (refl, tt)));
  gates_unique = (refl, (refl, tt));
  agents_unique = (refl, tt);
}

-- The open task is claimed and started.
abbrev pub claimed_store : Store
claimed_store = after 200 (update_task (claim "t2" "gopher")) board

abbrev pub started_store : Store
started_store = after 201 (update_task (start "t2")) claimed_store

abbrev pub started : Evolves claimed_store started_store
started = next here 201 (update_task (start "t2")) tt refl

abbrev pub claimed_and_started : Evolves board started_store
claimed_and_started =
    next (next here 200 (update_task (claim "t2" "gopher")) tt refl) 201 (update_task (start "t2"))
      tt refl

-- The answer of the gate is approved.
abbrev pub approved_store : Store
approved_store = after 300 (update_gate (answer_gate "g1" "go ahead")) board

abbrev pub approved : Evolves board approved_store
approved = next here 300 (update_gate (answer_gate "g1" "go ahead")) tt refl

-- The world in which the answer is approved.
abbrev pub approved_world : World
approved_world = record { store = approved_store; objects = []; calls = 0; spawned = [] }

pub approved_gates-Unique : Unique Gate.gate_id approved_store.gates
unfolding find after run update selects_gate assigns_gate
approved_gates-Unique = (refl, (refl, tt))

-- Three entries of the log.
abbrev entry : ℕ → TaskEvent
entry n = record {
  id = n;
  task_id = "t1";
  event = "UpdateStatus";
  agent = "";
  timestamp = n;
  detail = "";
}

abbrev pub logged_world : World
logged_world = record {
  store = record board { events = entry 1 ∷ entry 2 ∷ entry 3 ∷ [] };
  objects = [];
  calls = 0;
  spawned = [];
}

-- Every task of the board has a status.
pub board_set :
    (id : String) (t : Task)
    → find Task.id id board.tasks ≡ some t
    → is t.status Status.unset ≡ false
unfolding find
board_set id t h = ground arith

-- The JSON text of an entry is taken to be the entry, and no webhook is answered.
abbrev pub deaf_sender : Sender RetryEntry
deaf_sender = record {
  marshal = λ x. x;
  unmarshal = λ x. some x;
  has_rdb = true;
  post = λ a t calls. no_answer;
}

abbrev pub hooked_world : World
hooked_world = record start_world {
  store = record board { agents = record gopher { webhook_url = "https://gopher" } ∷ [] };
}

abbrev pub first_retry : RetryEntry
first_retry = record { task_id = "t2"; agent_name = "gopher"; attempt = 1 }
