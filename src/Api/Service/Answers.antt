-- ===== src/Api/Service/Answers.antt =====
-- Every request to internal/api is answered.
use acb_go.Prelude.{
  String, Bool, Option-cases, inl, inr, ◌≡◌, ◌≢◌, refl, Option, none, some, List, [], ◌∷◌, arith,
}
use acb_go.Session.{Env, World, Error, M, Outcome, ok, err, panic, pure, if_nil}
use acb_go.Session.Total.{NoError, NoError-bind, total_rules}
use acb_go.Db.Secrets.{Crypto}
use acb_go.Storage.{Client}
use acb_go.Api.Response.{Response, write_error}
use acb_go.Api.Safety.Total.{serve-NoError}
use acb_go.Api.TaskHandler.Transitions.{invalid_json, task_not_found}
use acb_go.Api.AgentHandler.{
  RegisterInput, Registry, no_caller, missing_name, store_agent, store_checked, register_checked,
  url_fails, register_as, register_agent, heartbeat, get_agent, get_agent_cursor,
  update_agent_cursor,
}
use acb_go.Models.{Agent}
use acb_go.Prelude.Int.{ℤ}
use acb_go.Api.ArtifactHandler.{
  FormFile, Multipart, with_task, object_key, store_object, upload_file, upload_artifact,
  list_artifacts, missing_key, download_artifact, list_or_download, remove_object, delete_artifact,
  delete_each, cleanup_artifacts,
}
use acb_go.Api.Dashboard.{DashboardHandler, stale_count, dashboard}
use acb_go.Api.Health.{Pinged, check_storage, health}
use acb_go.Api.Auth.{
  Headers, Verdict, goes_on, refused, by_token, authenticate, continue_as, auth_middleware,
}
use acb_go.Api.Service.{
  Services, Call, tasks, get_health, get_dashboard, get_cursor, post_artifact, get_artifacts,
  delete_artifacts, post_cleanup, post_agent, post_agent_heartbeat, get_agent_named, post_cursor,
  path, route, recovered, panic_recovery, handle,
}

with_task-NoError : (id : String) (m : M Response) → NoError m → NoError (with_task id m)
unfolding with_task task_not_found
with_task-NoError id m n = search total_rules depth 20

store_checked-NoError : (r : Registry) (a : Agent) → NoError (store_checked r a)
unfolding store_checked store_agent
store_checked-NoError r a = elim (Option-cases (url_fails r a.webhook_url)) [
  | inl n ↦ rw (n, store_checked) (search total_rules)
  | inr (message, f) ↦ rw (f, store_checked) (search total_rules)
]

register-NoError :
    (r : Registry) (caller token : String) (i : Option RegisterInput)
    → NoError (register_agent r caller token i)
unfolding register_agent register_as register_checked missing_name no_caller invalid_json pure
    if_nil
register-NoError r caller token none = search total_rules depth 20
register-NoError r caller token (some i) = search (total_rules, store_checked-NoError) depth 20

heartbeat-NoError :
    (l : Option (String → Bool)) (caller : String) (name : Option String)
    → NoError (heartbeat l caller name)
unfolding heartbeat missing_name invalid_json
heartbeat-NoError l caller none = search total_rules
heartbeat-NoError l caller (some name) = search total_rules depth 20

cursor-NoError : (caller : String) (c : Option ℤ) → NoError (update_agent_cursor caller c)
unfolding update_agent_cursor no_caller invalid_json
cursor-NoError caller c = search total_rules depth 20

object_key-NoError : (id name : String) → NoError (object_key id name)
unfolding object_key pure
object_key-NoError id name = record { at = λ e w x h. ground arith }

upload_file-NoError :
    (c : Client) (m : Multipart) (id : String) (f : FormFile) → NoError (upload_file c m id f)
unfolding upload_file store_object
upload_file-NoError c m id f = search (total_rules, object_key-NoError) depth 20

upload-NoError : (c : Client) (m : Multipart) (id : String) → NoError (upload_artifact c m id)
unfolding upload_artifact
upload-NoError c m id = search (total_rules, with_task-NoError, upload_file-NoError) depth 20

list-NoError : (id : String) → NoError (list_artifacts id)
unfolding list_artifacts
list-NoError id = search (total_rules, with_task-NoError) depth 20

download-NoError : (c : Client) (id key : String) → NoError (download_artifact c id key)
unfolding download_artifact missing_key
download-NoError c id key = search (total_rules, with_task-NoError) depth 20

delete-NoError : (c : Client) (id key : String) → NoError (delete_artifact c id key)
unfolding delete_artifact missing_key remove_object
delete-NoError c id key = search (total_rules, with_task-NoError) depth 20

delete_each-NoError :
    (c : Client) (keys : List String) (rest : M Response)
    → NoError rest
    → NoError (delete_each c keys rest)
unfolding delete_each
delete_each-NoError c [] rest n = n
delete_each-NoError c (k ∷ keys) rest n =
    search (total_rules, delete_each-NoError c keys rest n) depth 20

cleanup-NoError : (c : Client) (id : String) → NoError (cleanup_artifacts c id)
unfolding cleanup_artifacts
cleanup-NoError c id = search (total_rules, with_task-NoError, delete_each-NoError) depth 20

dashboard-NoError : (h : DashboardHandler) → NoError (dashboard h)
unfolding dashboard stale_count
dashboard-NoError h = search total_rules depth 20

health-NoError :
    (text : Error → String) (a b : Pinged) (c : Client) → NoError (health text a b (some c))
unfolding health check_storage
health-NoError text a b c = search total_rules depth 20

route-NoError : (s : Services) (call : Call) (caller : String) → NoError (route s call caller)
unfolding route list_or_download get_agent get_agent_cursor no_caller
route-NoError s (tasks q) caller = serve-NoError q
route-NoError s get_health caller = health-NoError _ _ _ _
route-NoError s get_dashboard caller = search (total_rules, dashboard-NoError)
route-NoError s get_cursor caller = search total_rules
route-NoError s (post_artifact id form) caller = upload-NoError _ _ _
route-NoError s (get_artifacts id none) caller = unfold if_nil in list-NoError id
route-NoError s (get_artifacts id (some key)) caller = unfold if_nil in download-NoError _ _ _
route-NoError s (delete_artifacts id key) caller = delete-NoError _ _ _
route-NoError s (post_cleanup id) caller = cleanup-NoError _ _
route-NoError s (post_agent token input) caller = register-NoError _ _ _ _
route-NoError s (post_agent_heartbeat name) caller = heartbeat-NoError _ _ _
route-NoError s (get_agent_named name) caller = search total_rules
route-NoError s (post_cursor c) caller = cursor-NoError _ _

by_token-NoError : (c : Crypto) (admin token : String) → NoError (by_token c admin token)
unfolding by_token
by_token-NoError c admin token = search total_rules depth 20

continue-NoError :
    (next : String → M Response) (v : Verdict)
    → ((caller : String) → NoError (next caller))
    → NoError (continue_as next v)
continue-NoError next (goes_on caller) n = n caller
continue-NoError next (refused message) n = search total_rules

auth-NoError :
    (c : Crypto) (admin : String) (h : Headers) (next : String → M Response)
    → ((caller : String) → NoError (next caller))
    → NoError (auth_middleware c admin h next)
unfolding auth_middleware authenticate
auth-NoError c admin h next n =
    NoError-bind _ (continue_as next) (search (total_rules, by_token-NoError) depth 20)
      (λ v. continue-NoError next v n)

-- The request as the middleware of auth.go gets it, inside that of PanicRecovery.
abbrev pub authed : Services → (authorization agent_name : String) → Call → M Response
authed s authorization agent_name call =
    auth_middleware s.registry.crypto s.admin_token
      (record { path = path call; authorization = authorization; agent_name = agent_name })
      (route s call)

-- A run that is answered: it gives the response itself, or it panics and the response is the 500.
pub data Replied (run : Outcome Response × World) (r : Response) (v : World) : Type 0 where
  answered : run ≡ (ok r, v) → Replied run r v
  panicked :
      run ≡ (panic, v) → r ≡ write_error 500 "internal_error" "unexpected error" → Replied run r v

reply :
    (run : Outcome Response × World)
    → ((x : Error) → run.0 ≢ err x)
    → (r : Response) × (v : World) × (recovered run ≡ (ok r, v)) × Replied run r v
reply (ok a, w) n = (a, w, refl, Replied.answered refl)
reply (err x, w) n = absurd (n x refl)
reply (panic, w) n = (_, w, refl, Replied.panicked refl refl)

-- Every request to every route gets a response, whatever other processes do meanwhile, whichever
-- database calls fail, and whatever the storage, the ciphers and the limiter do: it is the response
-- that authentication and the route's handler give, and where these panic it is the 500
-- internal_error. No error of a repository, of hashing or of the storage is left unanswered.
pub handle_answers :
    (s : Services) (authorization agent_name : String) (call : Call) (e : Env) (w : World)
    → (r : Response) × (v : World) × (handle s authorization agent_name call e w ≡ (ok r, v))
      × Replied (authed s authorization agent_name call e w) r v
unfolding handle panic_recovery
handle_answers s authorization agent_name call e w =
    reply _ ((auth-NoError _ _ _ (route s call) (route-NoError s call)).at e w)
