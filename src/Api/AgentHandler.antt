-- ===== src/Api/AgentHandler.antt =====
-- internal/api/agent_handler.go. A request whose body is not JSON comes as `none`; `caller` is the
-- header X-Agent-Name, which the authentication sets.
use acb_go.Prelude.{
  String, Bool, not, ◌&&◌, Option, none, some, List, is_empty, ◌==◌, if◌then◌else◌,
}
use acb_go.Prelude.Int.{ℤ, pos, ltb_ℤ}
use acb_go.Models.{Agent}
use acb_go.Config.{validate_skills}
use acb_go.Db.Secrets.{Crypto, or_text}
use acb_go.Db.AgentRepo.{get_by_name, get_last_event_id, update_heartbeat, update_last_event_id}
use acb_go.Db.AgentRepo.Tokens.{upsert_agent}
use acb_go.Session.{M, Error, agent_not_found, pure, get_env, if_nil, or_respond, ◌>>=◌}
use acb_go.Api.Response.{
  Response, cursor_json, agent_json, status_json, write_json, write_error, write_error_safe,
}
use acb_go.Api.TaskHandler.Transitions.{invalid_json}

unfoldable pub no_caller : M Response
no_caller = pure (write_error 401 "unauthorized" "X-Agent-Name header is missing")

-- An error of any kind counts as a missing agent.
unfoldable pub get_agent_cursor : (caller : String) → M Response
get_agent_cursor caller =
    if caller == ""
    then no_caller
    else or_respond (get_last_event_id caller)
        (λ x. write_error 404 "agent_not_found" "agent not found")
        λ last_id. pure (write_json 200 (cursor_json last_id))

unfoldable pub cursor_error : Error → Response
cursor_error (agent_not_found name) = write_error 404 "agent_not_found" "agent not found"
cursor_error _ = write_error_safe 500 "update_cursor_failed"

unfoldable pub update_agent_cursor : (caller : String) → (cursor : Option ℤ) → M Response
update_agent_cursor caller cursor =
    if caller == ""
    then no_caller
    else if_nil cursor invalid_json λ c.
      if not (ltb_ℤ (pos 0) c)
      then pure (write_error 400 "missing_cursor" "cursor must be a positive integer")
      else or_respond (update_last_event_id caller c) cursor_error
          λ _. pure (write_json 200 (status_json "ok"))

-- The limiter, if there is one: what Allow answers now for a name.
abbrev pub refuses : Option (String → Bool) → String → Bool
refuses none name = Bool.false
refuses (some allow) name = not (allow name)

unfoldable pub missing_name : M Response
missing_name = pure (write_error 400 "missing_name" "agent name is required")

unfoldable pub heartbeat :
    (limiter : Option (String → Bool)) → (caller : String) → (name : Option String) → M Response
heartbeat limiter caller input = if_nil input invalid_json λ given.
    let name = or_text given caller in
    if name == ""
    then missing_name
    else if refuses limiter name
    then pure (write_error 429 "rate_limited" "too many heartbeats")
    else or_respond (update_heartbeat name) (λ x. write_error_safe 404 "agent_not_found")
        λ _. pure (write_json 200 (status_json "ok"))

-- The secrets never leave.
abbrev pub without_secrets : Agent → Agent
without_secrets a = record a { token = ""; webhook_secret = "" }

unfoldable pub get_agent : (name : String) → M Response
get_agent name =
    or_respond (get_by_name name) (λ x. write_error_safe 500 "get_failed")
      λ found.
        if_nil found (pure (write_error 404 "not_found" "agent not found"))
          λ a. pure (write_json 200 (agent_json (without_secrets a)))

pub record RegisterInput : Type 0 where
  pub name : String
  pub port : ℤ
  pub token : String
  pub skills : List String
  pub webhook_url : String
  pub webhook_secret : String

-- What RegisterAgent calls beside the repository: the limiter, ValidateWebhookURL, which gives the
-- text of an error or `none`, and hashing and encryption.
pub record Registry : Type 0 where
  pub limiter : Option (String → Bool)
  pub url_error : String → Option String
  pub crypto : Crypto

-- The row of the registered agent, before hashing and encryption.
abbrev pub registered : (name token : String) → RegisterInput → Agent
registered name token i = record {
  name = name;
  port = i.port;
  token = token;
  last_heartbeat = none;
  skills = i.skills;
  webhook_url = i.webhook_url;
  webhook_secret = i.webhook_secret;
  token_prefix = "";
  last_event_id = none;
}

abbrev pub url_fails : Registry → String → Option String
url_fails r url = if url == "" then none else r.url_error url

unfoldable pub store_agent : Registry → Agent → M Response
store_agent r a =
    or_respond (upsert_agent r.crypto a) (λ x. write_error_safe 500 "upsert_failed")
      λ _. pure (write_json 200 (agent_json (without_secrets a)))

-- From the check of the webhook URL on.
unfoldable pub store_checked : Registry → Agent → M Response
store_checked r a = elim (url_fails r a.webhook_url) [
  | some message ↦ pure (write_error 400 "invalid_webhook_url" message)
  | none ↦ store_agent r a
]

-- From the check of the skills on; `auth_token` is the header X-Auth-Token.
unfoldable pub register_checked : Registry → (name auth_token : String) → RegisterInput → M Response
register_checked r name auth_token i = do
  cfg ← get_env (λ e. e.cfg)
  if not (is_empty (validate_skills cfg i.skills))
      then pure
          (write_error 400 "invalid_skills" "one or more skills are not in the allowed catalog")
      else store_checked r (registered name (or_text i.token auth_token) i)

unfoldable pub register_as :
    Registry → (name caller auth_token : String) → RegisterInput → M Response
register_as r name caller auth_token i =
    if name == ""
    then missing_name
    else if caller == ""
    then no_caller
    else if not (caller == "admin") && not (caller == name)
    then pure (write_error 403 "forbidden" "agent can only register itself")
    else register_checked r name auth_token i

unfoldable pub register_agent :
    Registry → (caller auth_token : String) → Option RegisterInput → M Response
register_agent r caller auth_token input =
    if refuses r.limiter "register"
    then pure (write_error 429 "rate_limited" "too many registration requests")
    else if_nil input invalid_json λ i. register_as r (or_text i.name caller) caller auth_token i
