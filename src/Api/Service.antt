-- ===== src/Api/Service.antt =====
-- The whole of internal/api/router.go: every route, behind the middleware of auth.go and middleware.go.
-- The repositories, the storage client and the limiter are there, as main.go makes them.
pub mod Answers
pub mod Guarded
use acb_go.Prelude.{String, ◌<>◌, Bool, true, false, Option, none, some, List}
use acb_go.Prelude.Int.{ℤ, pos}
use acb_go.Config.{Config}
use acb_go.Db.Secrets.{Crypto}
use acb_go.Session.{M, World, Error, Outcome, ok, err, panic, get_env, ◌>>=◌}
use acb_go.Storage.{Client}
use acb_go.Api.Response.{Response, write_error}
use acb_go.Api.Server.{
  Request, post_task, get_tasks, get_one, get_graph, get_gates, post_claim, post_unblock,
  post_complete, post_fail, post_start, post_heartbeat, post_block, post_answer, post_approve,
  get_dispatch, get_task_events, get_events, serve,
}
use acb_go.Api.AgentHandler.{
  RegisterInput, Registry, register_agent, heartbeat, get_agent, get_agent_cursor,
  update_agent_cursor,
}
use acb_go.Api.ArtifactHandler.{
  Multipart, upload_artifact, list_or_download, delete_artifact, cleanup_artifacts,
}
use acb_go.Api.Dashboard.{DashboardHandler, dashboard}
use acb_go.Api.Health.{Pinged, health}
use acb_go.Api.Auth.{Headers, auth_middleware}

-- What NewRouter is given beside the repositories.
pub record Services : Type 0 where
  pub registry : Registry
  pub admin_token : String
  pub storage : Client
  pub error_text : Error → String
  pub database : Pinged
  pub redis : Pinged

-- A request, as the router and the decoders make it.
pub data Call : Type 0 where
  tasks : Request → Call
  get_health get_dashboard get_cursor : Call
  post_artifact : (id : String) → Multipart → Call
  get_artifacts : (id : String) → (key : Option String) → Call
  delete_artifacts : (id key : String) → Call
  post_cleanup : (id : String) → Call
  post_agent : (auth_token : String) → Option RegisterInput → Call
  post_agent_heartbeat : (name : Option String) → Call
  get_agent_named : (name : String) → Call
  post_cursor : (cursor : Option ℤ) → Call

abbrev of_task : (id rest : String) → String
of_task id rest = "/tasks/" <> (id <> rest)

-- The paths of the routes.
unfoldable pub request_path : Request → String
request_path (post_task input) = "/tasks"
request_path (get_tasks status assignee skills) = "/tasks"
request_path (get_one id) = of_task id ""
request_path (get_graph id) = of_task id "/graph"
request_path (get_gates id) = of_task id "/gates"
request_path (post_claim id assignee) = of_task id "/claim"
request_path (post_unblock id gate_id) = of_task id "/unblock"
request_path (post_complete id summary) = of_task id "/complete"
request_path (post_fail id reason) = of_task id "/fail"
request_path (post_start id) = of_task id "/start"
request_path (post_heartbeat id) = of_task id "/heartbeat"
request_path (post_block id input) = of_task id "/block"
request_path (post_answer id gate_id text) = of_task id ("/gates/" <> (gate_id <> "/answer"))
request_path (post_approve id gate_id text) = of_task id ("/gates/" <> (gate_id <> "/approve"))
request_path (get_dispatch agent) = "/tasks/dispatch"
request_path (get_task_events id) = of_task id "/events"
request_path (get_events q) = "/events"

unfoldable pub path : Call → String
path (tasks q) = request_path q
path get_health = "/health"
path get_dashboard = "/dashboard"
path get_cursor = "/agents/me/cursor"
path (post_artifact id form) = of_task id "/artifacts"
path (get_artifacts id key) = of_task id "/artifacts"
path (delete_artifacts id key) = of_task id "/artifacts"
path (post_cleanup id) = of_task id "/artifacts/cleanup"
path (post_agent auth_token input) = "/agents"
path (post_agent_heartbeat name) = "/agents/heartbeat"
path (get_agent_named name) = "/agents/" <> name
path (post_cursor cursor) = "/agents/me/cursor"

abbrev pub stale_min : Option Config → ℤ
stale_min none = pos 10
stale_min (some cfg) = cfg.agent_stale_min

unfoldable pub route : Services → Call → (caller : String) → M Response
route s (tasks q) caller = serve q
route s get_health caller = health s.error_text s.database s.redis (some s.storage)
route s get_dashboard caller = do
  cfg ← get_env (λ e. e.cfg)
  dashboard (record { stale_agent_min = stale_min cfg; has_agent_repo = true })
route s get_cursor caller = get_agent_cursor caller
route s (post_artifact id form) caller = upload_artifact s.storage form id
route s (get_artifacts id key) caller = list_or_download s.storage id key
route s (delete_artifacts id key) caller = delete_artifact s.storage id key
route s (post_cleanup id) caller = cleanup_artifacts s.storage id
route s (post_agent auth_token input) caller = register_agent s.registry caller auth_token input
route s (post_agent_heartbeat name) caller = heartbeat s.registry.limiter caller name
route s (get_agent_named name) caller = get_agent name
route s (post_cursor cursor) caller = update_agent_cursor caller cursor

-- What PanicRecovery makes of the end of a handler.
abbrev pub recovered : Outcome Response × World → Outcome Response × World
recovered (ok r, w) = (ok r, w)
recovered (err x, w) = (err x, w)
recovered (panic, w) = (ok (write_error 500 "internal_error" "unexpected error"), w)

unfoldable pub panic_recovery : M Response → M Response
panic_recovery next e w = recovered (next e w)

-- A request with its headers Authorization and X-Agent-Name.
unfoldable pub handle : Services → (authorization agent_name : String) → Call → M Response
handle s authorization agent_name call = panic_recovery (
    auth_middleware s.registry.crypto s.admin_token
      (record { path = path call; authorization = authorization; agent_name = agent_name })
      (route s call))
