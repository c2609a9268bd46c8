-- ===== src/Models.antt =====
-- internal/models: the rows that the services keep. `Status` and `GateStatus` are the strings that
-- the schema's CHECK constraints admit, and `unset` is Go's empty string, which they refuse. Columns
-- that hold JSON text are the values that the text stands for. A `time.Time` is a number of
-- microseconds, and a nil pointer is `none`.
use acb_go.Prelude.{ℕ, String, Bool, true, false, Option, List}
use acb_go.Prelude.Int.{ℤ}

pub data Status : Type 0 where
  unset pending claimed in_progress blocked completed failed : Status

pub data GateStatus : Type 0 where
  unset pending asked answered resolved : GateStatus

-- The strings of models.go.
unfoldable pub status_text : Status → String
status_text Status.unset = ""
status_text Status.pending = "pending"
status_text Status.claimed = "claimed"
status_text Status.in_progress = "in_progress"
status_text Status.blocked = "blocked"
status_text Status.completed = "completed"
status_text Status.failed = "failed"

-- s == t on status strings.
abbrev pub is : Status → Status → Bool
is Status.unset Status.unset = true
is Status.pending Status.pending = true
is Status.claimed Status.claimed = true
is Status.in_progress Status.in_progress = true
is Status.blocked Status.blocked = true
is Status.completed Status.completed = true
is Status.failed Status.failed = true
is _ _ = false

abbrev pub is_gate : GateStatus → GateStatus → Bool
is_gate GateStatus.unset GateStatus.unset = true
is_gate GateStatus.pending GateStatus.pending = true
is_gate GateStatus.asked GateStatus.asked = true
is_gate GateStatus.answered GateStatus.answered = true
is_gate GateStatus.resolved GateStatus.resolved = true
is_gate _ _ = false

pub record Artifact : Type 0 where
  pub key : String
  pub bucket : String
  pub size : ℕ
  pub content_type : String

pub record Task : Type 0 where
  pub id : String
  pub title : String
  pub assignee : String
  pub status : Status
  pub priority : ℤ
  pub parents : List String
  pub skills : List String
  pub required_skills : List String
  pub tags : List String
  pub body_goal : String
  pub body_context : String
  pub body_deliverable_fmt : String
  pub body_deliverable_path : String
  pub created_at : ℕ
  pub updated_at : ℕ
  pub summary : String
  pub artifacts : List Artifact
  pub last_heartbeat : Option ℕ
  pub max_retries : ℤ
  pub retry_count : ℤ

pub record Gate : Type 0 where
  pub gate_id : String
  pub task_id : String
  pub question : String
  pub ask : String
  pub status : GateStatus
  pub answer : String
  pub created_at : ℕ
  pub answered_at : Option ℕ

-- A row of the agents table: the fields of models.Agent, with the stored hash for the token, the
-- stored ciphertext for the webhook secret, and the two columns that only queries use.
pub record Agent : Type 0 where
  pub name : String
  pub port : ℤ
  pub token : String
  pub last_heartbeat : Option ℕ
  pub skills : List String
  pub webhook_url : String
  pub webhook_secret : String
  pub token_prefix : String
  pub last_event_id : Option ℤ

pub record TaskEvent : Type 0 where
  pub id : ℕ
  pub task_id : String
  pub event : String
  pub agent : String
  pub timestamp : ℕ
  pub detail : String
