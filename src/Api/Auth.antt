-- ===== src/Api/Auth.antt =====
-- internal/api/auth.go: AuthMiddleware. The header X-Agent-Name of the request that goes on is the
-- caller.
pub mod Sound
pub mod Lookup
pub mod Registered
use acb_go.Prelude.{ℕ, String, Bool, not, ◌&&◌, ◌||◌, Option, none, some, ◌==◌, if◌then◌else◌}
use acb_go.Models.{Agent}
use acb_go.Db.Secrets.{Crypto}
use acb_go.Db.AgentRepo.Tokens.{get_by_token}
use acb_go.Session.{M, pure, on_error, if_nil, ◌>>=◌}
use acb_go.Api.Response.{Response, write_error}
use Prim.Native.Char.{code}
use acb_go.Prelude.{eqb}

-- strings.HasPrefix and strings.TrimPrefix: the rest of a text after a prefix.
unfoldable pub strip_prefix : (prefix s : String) → Option String
strip_prefix String.[] s = some s
strip_prefix (String.◌∷◌ c p) String.[] = none
strip_prefix (String.◌∷◌ c p) (String.◌∷◌ d s) =
    let rest = strip_prefix p s in if eqb (code c) (code d) then rest else none

-- The headers of a request that the middleware reads: X-Agent-Name as the client sent it.
pub record Headers : Type 0 where
  pub path : String
  pub authorization : String
  pub agent_name : String

-- The request goes on as a caller, or it is refused with a message.
pub data Verdict : Type 0 where
  goes_on : (caller : String) → Verdict
  refused : (message : String) → Verdict

abbrev pub is_health : String → Bool
is_health path = path == "/health" || path == "/health/"

unfoldable pub by_token : Crypto → (admin_token token : String) → M Verdict
by_token c admin_token token =
    if not (admin_token == "") && token == admin_token then pure (goes_on "admin") else do
      agent ← on_error (get_by_token c token) (λ x. pure none)
      if_nil agent (pure (refused "invalid token")) λ a. pure (goes_on a.name)

unfoldable pub authenticate : Crypto → (admin_token : String) → Headers → M Verdict
authenticate c admin_token h =
    if is_health h.path
    then pure (goes_on h.agent_name)
    else if_nil (strip_prefix "Bearer " h.authorization)
        (pure (refused "missing or invalid authorization header")) (by_token c admin_token)

abbrev pub continue_as : (String → M Response) → Verdict → M Response
continue_as next (goes_on caller) = next caller
continue_as next (refused message) = pure (write_error 401 "unauthorized" message)

-- `next` is the rest of the server, by the caller.
unfoldable pub auth_middleware :
    Crypto → (admin_token : String) → Headers → (next : String → M Response) → M Response
auth_middleware c admin_token h next = authenticate c admin_token h >>= continue_as next
