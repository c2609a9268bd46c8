-- ===== src/Redis.antt =====
-- internal/redis/events.go: the channels of an event, and its publication.
use acb_go.Prelude.{String, ◌<>◌, Bool, List, [], ◌∷◌, map, ◌==◌, ◌||◌, if◌then◌else◌}

abbrev pub event_new_task : String
event_new_task = "new_task"

abbrev pub channel_pending : String
channel_pending = "tasks:pending"

abbrev pub channel_gates : String
channel_gates = "tasks:gates"

-- ChannelPrefix + agent, unless there is no agent.
abbrev pub agent_channel : String → List String
agent_channel agent = if agent == "" then [] else ("agent:" <> agent) ∷ []

abbrev pub is_one_of : String → List String → Bool
is_one_of s [] = Bool.false
is_one_of s (t ∷ ts) = s == t || is_one_of s ts

unfoldable pub route_channels : (event agent : String) → List String
route_channels event agent =
    if event == event_new_task
    then channel_pending ∷ agent_channel agent
    else if is_one_of event ("task_claimed" ∷ "task_started" ∷ [])
    then agent_channel agent
    else if is_one_of event
        ("task_blocked" ∷ "task_unblocked" ∷ "gate_answered" ∷ "gate_approved" ∷ [])
    then channel_gates ∷ []
    else if is_one_of event ("task_completed" ∷ "task_failed" ∷ [])
    then agent_channel agent
    else []

-- The message that is encoded as JSON.
pub record EventMessage : Type 0 where
  pub event : String
  pub task_id : String
  pub agent : String
  pub gate_id : String
  pub summary : String
  pub required_skills : List String

-- The commands PUBLISH that are sent, in their order; an error of one is logged, and the next is sent.
unfoldable pub publish_task_event :
    (has_client : Bool) → EventMessage → List (String × EventMessage)
publish_task_event has_client m =
    if has_client then map (λ channel. (channel, m)) (route_channels m.event m.agent) else []
