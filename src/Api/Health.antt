-- ===== src/Api/Health.antt =====
-- internal/api/health.go. What a ping gives is a parameter: no client, or the text of an error.
pub mod Report
use acb_go.Prelude.{String, Bool, true, false, ◌||◌, Option, none, some, [], ◌∷◌, if◌then◌else◌}
use acb_go.Session.{M, Error, pure, on_error, ◌>>=◌}
use acb_go.Storage
use acb_go.Storage.{Client}
use acb_go.Api.Response.{Response, ComponentStatus, health_json, write_json}

-- A client: nil, or what Ping(ctx) gives.
pub data Pinged : Type 0 where
  no_client answers : Pinged
  fails : (message : String) → Pinged

abbrev pub fine : ComponentStatus
fine = record { status = "ok"; error = "" }

abbrev pub disabled : ComponentStatus
disabled = record { status = "disabled"; error = "" }

abbrev pub broken : String → ComponentStatus
broken message = record { status = "error"; error = message }

unfoldable pub status_of : Pinged → ComponentStatus
status_of no_client = disabled
status_of answers = fine
status_of (fails message) = broken message

abbrev pub is_broken : Pinged → Bool
is_broken no_client = false
is_broken answers = false
is_broken (fails message) = true

-- The storage, which is checked by EnsureBucket; `text` is err.Error().
unfoldable pub check_storage : (text : Error → String) → Option Client → M Pinged
check_storage text none = pure no_client
check_storage text (some c) =
    if c.enabled
    then on_error (Storage.ensure_bucket c >>= λ _. pure answers) (λ x. pure (fails (text x)))
    else pure no_client

unfoldable pub health :
    (text : Error → String) → (database redis : Pinged) → Option Client → M Response
health text database redis storage = do
  stored ← check_storage text storage
  let degraded = is_broken database || (is_broken redis || is_broken stored)
  pure (
      write_json 200 (
        health_json (if degraded then "degraded" else "ok") (
          ("database", status_of database)
          ∷ ("redis", status_of redis)
          ∷ ("storage", status_of stored)
          ∷ [])))
