-- ===== src/Tests/Agents.antt =====
-- The theorems on the tokens of agents, their registration and the rate limiter at concrete inputs.
use acb_go.Prelude.{
  ℕ, String, ◌≡◌, ◌≢◌, ◌↔◌, refl, arith, eq_iff, true, false, none, some, List, [], ◌∷◌,
}
use acb_go.Prelude.Int.{pos}
use acb_go.Session.{World, ok, arrive}
use acb_go.Db.Secrets.{hash_token, verify_token, token_prefix, init_cipher, encrypt_webhook_secret}
use acb_go.Db.Secrets.RoundTrip.{verify_token-hash_token}
use acb_go.Api.Limiter.{client}
use acb_go.Api.Limiter.Apart.{times_of, answers_to, alone, answers_apart}
use acb_go.Api.Response.{Response, write_json, write_error}
use acb_go.Api.AgentHandler.{RegisterInput, register_agent}
use acb_go.Session.{Outcome, if_nil}
use acb_go.Session.Quiet.{ticked}
use acb_go.Api.Response.{agent_json}
use acb_go.Api.Auth.{Headers, goes_on, strip_prefix, authenticate}
use acb_go.Api.Auth.Registered.{authenticate-register_agent}
use acb_go.Api.AgentHandler.{registered, without_secrets}
use acb_go.Api.AgentHandler.{
  register_as, register_checked, store_checked, store_agent, missing_name, no_caller,
}
use acb_go.Session.{◌>>=◌, get_env, or_respond, exec, run_all, pure}
use acb_go.Config.{validate_skills, is_valid_skill}
use acb_go.Db.AgentRepo.Tokens.{upsert_agent, draw, or_throw, encrypted}
use acb_go.Api.TaskHandler.Transitions.{invalid_json}
use acb_go.Db.Rows.{find, update}
use acb_go.Db.Statement.{overwrite, run}
use acb_go.Tests.Samples.{start_world, quiet_env, quiet_env-IsQuiet}
use acb_go.Tests.Services.{stored_hash, crypto, crypto-IsCrypto, copies, two_calls, registry}

verify_token-hash_token_example :
    (verify_token crypto "sesame-1" stored_hash ≡ some true)
    × ((verify_token crypto "sesame-22" stored_hash ≡ some true) ↔ (copies 32 9 ≡ copies 32 8))
    × (verify_token crypto "sesame-22" stored_hash ≢ none)
unfolding hash_token token_prefix
verify_token-hash_token_example =
    verify_token-hash_token crypto crypto-IsCrypto (copies 16 0) "sesame-1" "sesame-22" stored_hash
      (token_prefix crypto "sesame-1") refl refl

abbrev calls : List (String × ℕ)
calls = ("gopher", 1) ∷ ("rival", 2) ∷ ("gopher", 3) ∷ ("gopher", 4) ∷ []

answers_apart_example :
    answers_to two_calls "gopher" calls []
    ≡ alone two_calls (times_of "gopher" calls) (client two_calls "gopher" [])
answers_apart_example = answers_apart two_calls "gopher" calls []

abbrev registration : RegisterInput
registration = record {
  name = "";
  port = pos 8091;
  token = "sesame-1";
  skills = "go" ∷ [];
  webhook_url = "https://hook.example/new";
  webhook_secret = "hush";
}

abbrev registering_end : Outcome Response × World
registering_end = register_agent registry "gopher" "" (some registration) quiet_env start_world

abbrev bearer : Headers
bearer = record { path = "/tasks"; authorization = "Bearer sesame-1"; agent_name = "root" }

authenticate-register_agent_example :
    authenticate crypto "boot" bearer quiet_env registering_end.1
    ≡ (ok (goes_on "gopher"), ticked registering_end.1)
unfolding strip_prefix register_agent if_nil register_as register_checked ◌>>=◌ get_env
    validate_skills is_valid_skill store_checked store_agent or_respond upsert_agent draw pure
    or_throw hash_token encrypted encrypt_webhook_secret init_cipher missing_name no_caller
    write_error write_json invalid_json find update token_prefix overwrite run arrive exec run_all
authenticate-register_agent_example =
    authenticate-register_agent registry crypto-IsCrypto quiet_env quiet_env-IsQuiet "gopher" ""
      start_world "boot" bearer registration registering_end.1
      (write_json 200 (agent_json (without_secrets (registered "gopher" "sesame-1" registration))))
      (copies 16 0) refl refl refl refl (omega arith)
      (λ h. let b : false ≡ true = (eq_iff "boot" "sesame-1").1 h in cc) refl (λ h. refl, tt)
