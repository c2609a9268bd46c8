-- ===== src/Api/Service/Guarded.antt =====
-- No handler of internal/api but the health check runs without a token.
use Prim.Native.Char.{Char, code}
use text.Mathlib.TextLemmas.{cons-append}
use acb_go.Db.Store.{Store}
use acb_go.Prelude.{
  List, sym, ℕ, String, ◌<>◌, ◌≡◌, refl, ◌∙◌, ap, ◌⊎◌, inl, inr, Bool, true, false, some, eq_iff,
  eqb, arith, Any,
}
use acb_go.Session.{Env, World, ok, arrive}
use acb_go.Models.{Agent}
use acb_go.Api.Response.{write_error}
use acb_go.Api.Server.{
  Request, post_task, get_tasks, get_one, get_graph, get_gates, post_claim, post_unblock,
  post_complete, post_fail, post_start, post_heartbeat, post_block, post_answer, post_approve,
  get_dispatch, get_task_events, get_events,
}
use acb_go.Api.Auth.{strip_prefix, is_health}
use acb_go.Api.Auth.Sound.{Accepts, Justified, health, admin, agent, auth_middleware-Justified}
use acb_go.Api.Service.{
  Services, Call, tasks, get_health, post_artifact, get_artifacts, delete_artifacts, post_cleanup,
  get_agent_named, request_path, path, route, recovered, panic_recovery, handle,
}

-- The second character of a path.
second : String → ℕ
second String.[] = 0
second (String.◌∷◌ c String.[]) = 0
second (String.◌∷◌ c (String.◌∷◌ d s)) = code d

abbrev pub asks_health : Call → Bool
asks_health get_health = true
asks_health _ = false

second-append : (c d : Char) (s t : String) → second (String.◌∷◌ c (String.◌∷◌ d s) <> t) ≡ code d
unfolding second
second-append c d s t = rw (cons-append c (String.◌∷◌ d s) t, cons-append d s t) refl

-- A path whose second letter is not h.
other_path :
    (c d : Char) (s t : String)
    → eqb (code d) b'h' ≡ false
    → is_health (String.◌∷◌ c (String.◌∷◌ d s) <> t) ≡ false
unfolding second
other_path c d s t h =
    let p = String.◌∷◌ c (String.◌∷◌ d s) <> t in
    let k : p ≡ "/health" → code d ≡ b'h' = λ e. sym (second-append c d s t) ∙ ap second e in
    let l : p ≡ "/health/" → code d ≡ b'h' = λ e. sym (second-append c d s t) ∙ ap second e in
    ground (arith, k, l, eq_iff p "/health", eq_iff p "/health/")

of_task : (id rest : String) → is_health ("/tasks/" <> (id <> rest)) ≡ false
of_task id rest = other_path "/" "t" "asks/" (id <> rest) refl

request_path-is_health : (q : Request) → is_health (request_path q) ≡ false
unfolding request_path
request_path-is_health (post_task input) = refl
request_path-is_health (get_tasks status assignee skills) = refl
request_path-is_health (get_dispatch name) = refl
request_path-is_health (get_events q) = refl
request_path-is_health (get_one id) = of_task id ""
request_path-is_health (get_graph id) = of_task id "/graph"
request_path-is_health (get_gates id) = of_task id "/gates"
request_path-is_health (post_claim id assignee) = of_task id "/claim"
request_path-is_health (post_unblock id gate_id) = of_task id "/unblock"
request_path-is_health (post_complete id summary) = of_task id "/complete"
request_path-is_health (post_fail id reason) = of_task id "/fail"
request_path-is_health (post_start id) = of_task id "/start"
request_path-is_health (post_heartbeat id) = of_task id "/heartbeat"
request_path-is_health (post_block id input) = of_task id "/block"
request_path-is_health (get_task_events id) = of_task id "/events"
request_path-is_health (post_answer id gate_id text) =
    of_task id ("/gates/" <> (gate_id <> "/answer"))
request_path-is_health (post_approve id gate_id text) =
    of_task id ("/gates/" <> (gate_id <> "/approve"))

not_health : (call : Call) → asks_health call ≡ false → is_health (path call) ≡ false
unfolding path
not_health (tasks q) h = request_path-is_health q
not_health get_health h = cc
not_health (get_agent_named name) h = other_path "/" "a" "gents/" name refl
not_health (post_artifact id form) h = of_task id "/artifacts"
not_health (get_artifacts id key) h = of_task id "/artifacts"
not_health (delete_artifacts id key) h = of_task id "/artifacts"
not_health (post_cleanup id) h = of_task id "/artifacts/cleanup"
not_health call h = refl

-- The reasons for which a request may go on as a caller, on these tables.
pub data Admitted (s : Services) (authorization : String) (agents : List Agent) (caller : String)
    : Type 0 where
  administrator :
      strip_prefix "Bearer " authorization ≡ some s.admin_token
      → caller ≡ "admin"
      → Admitted s authorization agents caller
  owner :
      (token : String)
      → strip_prefix "Bearer " authorization ≡ some token
      → Any (Accepts s.registry.crypto token caller) agents
      → Admitted s authorization agents caller

module _ (s : Services) (authorization agent_name : String) (call : Call) where
  admitted :
      (agents : Store) (caller : String)
      → asks_health call ≡ false
      → Justified s.registry.crypto s.admin_token
          (record { path = path call; authorization = authorization; agent_name = agent_name })
          agents
          caller
      → Admitted s authorization agents.agents caller
  admitted agents caller h (health p e) = let n = not_health call h in cc
  admitted agents caller h (admin p e) = administrator p e
  admitted agents caller h (agent token p a) = owner token p a

  -- Whatever other processes do and whichever calls fail, a request to any route but the health check is
  -- answered with 401, or it is answered by the handler of its route, which runs under a name for one of
  -- two reasons: the request bears the token of the administrator and the name is admin, or it bears a
  -- token that the stored hash of an agent with this name accepts. The header X-Agent-Name of the client
  -- plays no part.
  pub handle-Admitted :
      (e : Env) (w : World)
      → asks_health call ≡ false
      → ((message : String) × (v : World) × (handle s authorization agent_name call e w
            ≡ (ok (write_error 401 "unauthorized" message), v)))
        ⊎ ((caller : String) × (v : World) × (handle s authorization agent_name call e w
              ≡ panic_recovery (route s call caller) e v)
            × Admitted s authorization (arrive e w).store.agents caller)
  unfolding handle panic_recovery
  handle-Admitted e w h =
      elim (auth_middleware-Justified s.registry.crypto s.admin_token
        (record { path = path call; authorization = authorization; agent_name = agent_name })
        (route s call) e w) [
          | inl (message, v, r) ↦ inl (message, v, ap recovered r)
          | inr (caller, v, r, j) ↦
              inr (caller, v, ap recovered r, admitted (arrive e w).store caller h j)
        ]
