-- ===== src/Db/AgentRepo.antt =====
-- internal/db/agent_repo.go: the parts that the task handlers, the dispatcher and the timeout
-- service call.
pub mod Tokens
pub mod Upsert
use acb_go.Prelude.{
  map, ℕ, ◌+◌, String, Bool, true, ◌&&◌, Option, none, some, List, [], ◌∷◌, ltb, eqb, if◌then◌else◌,
  filter,
}
use acb_go.Prelude.Int.{ℤ}
use acb_go.Models.{Agent}
use acb_go.Config.{contains}
use acb_go.Db.Rows.{find}
use acb_go.Db.Statement.{update_agent, agent_heartbeat, agent_cursor}
use acb_go.Session.{M, agent_not_found, pure, throw, exec, query, if_nil, ◌>>=◌}

-- The stored hash never leaves the repository.
abbrev pub without_token : Option Agent → Option Agent
without_token none = none
without_token (some a) = some (record a { token = "" })

unfoldable pub get_by_name : String → M (Option Agent)
get_by_name name = query (λ now s. without_token (find Agent.name name s.agents))

unfoldable pub update_heartbeat : String → M (Unit {0})
update_heartbeat name = do
  n ← exec (update_agent (agent_heartbeat name))
  if eqb n 0 then throw (agent_not_found name) else pure tt

unfoldable pub update_last_event_id : String → ℤ → M (Unit {0})
update_last_event_id name id = do
  n ← exec (update_agent (agent_cursor name id))
  if eqb n 0 then throw (agent_not_found name) else pure tt

unfoldable pub get_last_event_id : String → M (Option ℤ)
get_last_event_id name = do
  found ← query (λ now s. find Agent.name name s.agents)
  if_nil found (throw (agent_not_found name)) λ a. pure a.last_event_id

unfoldable pub is_stale_agent : ℕ → ℕ → Option ℕ → Bool
is_stale_agent dur now none = true
is_stale_agent dur now (some beat) = ltb (beat + dur) now

-- The query leaves the token and the webhook secret out.
abbrev pub bare : Agent → Agent
bare a = record a { token = ""; webhook_secret = "" }

unfoldable pub list_stale : ℕ → M (List Agent)
list_stale dur =
    query λ now s. map bare (filter (λ a. is_stale_agent dur now a.last_heartbeat) s.agents)

-- The nested loops over required and held skills.
unfoldable pub has_all : List String → List String → Bool
has_all held [] = true
has_all held (req ∷ rest) = contains held req && has_all held rest

unfoldable pub get_skills : String → M (List String)
get_skills name = do
  found ← query (λ now s. find Agent.name name s.agents)
  if_nil found (throw (agent_not_found name)) λ a. pure a.skills

unfoldable pub has_required_skills : String → List String → M Bool
has_required_skills name required = do held ← get_skills name; pure (has_all held required)

unfoldable pub find_matching_agents : List String → M (List Agent)
find_matching_agents required = query (λ now s. filter (λ a. has_all a.skills required) s.agents)
