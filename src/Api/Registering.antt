-- ===== src/Api/Registering.antt =====
-- RegisterAgent of internal/api/agent_handler.go, run alone.
use acb_go.Prelude.{
  ℕ, String, ◌≡◌, ◌≢◌, refl, ◌∙◌, ◌⊎◌, inl, inr, true, false, not, ◌&&◌, Option, none, some, List,
  ◌==◌, eq_iff, arith, is_empty, Option-cases, Bool-cases,
}
use acb_go.Config.{validate_skills}
use acb_go.Db.Secrets.{or_text, hash_token}
use acb_go.Db.AgentRepo.Tokens.{upsert_agent}
use acb_go.Db.AgentRepo.Upsert.{Written, Upserts, failed, stored, upsert_agent-Upserts}
use acb_go.Session.{Env, World, M, ok, pure, if_nil, get_env, ◌>>=◌}
use acb_go.Session.Quiet.{IsQuiet, wrote, respond-ok, respond-err}
use acb_go.Api.Response.{Response, agent_json, write_json, write_error, write_error_safe}
use acb_go.Api.TaskHandler.Transitions.{invalid_json}
use acb_go.Api.AgentHandler.{
  RegisterInput, Registry, refuses, no_caller, missing_name, without_secrets, registered, url_fails,
  store_agent, store_checked, register_checked, register_as, register_agent,
}

module _ (r : Registry) (caller auth_token : String) (e : Env) (w : World) where
  -- What it takes to register, and what is registered.
  pub record Registration (i : RegisterInput) (v : World) (answer : Response) : Type 0 where
    pub not_limited : refuses r.limiter "register" ≡ false
    pub named : or_text i.name caller ≢ ""
    pub entitled : (caller ≡ "admin") ⊎ (caller ≡ or_text i.name caller)
    pub skilled : is_empty (validate_skills e.cfg i.skills) ≡ true
    pub url_passes : url_fails r i.webhook_url ≡ none
    pub salt : List ℕ
    pub hash : String
    pub prefix : String
    pub secret : String
    pub random : r.crypto.random w.calls 16 ≡ some salt
    pub hashed : hash_token r.crypto (some salt) (or_text i.token auth_token) ≡ some (hash, prefix)
    pub written :
        Written
          (record (registered (or_text i.name caller) (or_text i.token auth_token) i) {
            token = hash;
            token_prefix = prefix;
            webhook_secret = secret;
          })
          w.store
          v.store
    pub answered :
        answer
        ≡ write_json 200 (
            agent_json
              (without_secrets (registered (or_text i.name caller) (or_text i.token auth_token) i)))

  -- The request is refused and nothing changes, or the agent is registered.
  pub data Registers (input : Option RegisterInput) (m : M Response) : Type 0 where
    refusal : (answer : Response) → m e w ≡ (ok answer, w) → answer.code ≢ 200 → Registers input m
    success :
        (i : RegisterInput) (v : World) (answer : Response)
        → input ≡ some i
        → m e w ≡ (ok answer, v)
        → Registration i v answer
        → Registers input m

  refused_with :
      (input : Option RegisterInput) (code : ℕ) (error message : String)
      → code ≢ 200
      → Registers input (pure (write_error code error message))
  unfolding pure write_error write_json
  refused_with input code error message n = refusal (write_error code error message) refl n

  -- Two programs that end alike here.
  carried :
      (input : Option RegisterInput) (m n : M Response)
      → m e w ≡ n e w
      → Registers input n
      → Registers input m
  carried input m n h (refusal answer x y) = refusal answer (h ∙ x) y
  carried input m n h (success i v answer x y z) = success i v answer x (h ∙ y) z

  module _ (q : IsQuiet e) (i : RegisterInput) (free : refuses r.limiter "register" ≡ false)
      (named : or_text i.name caller ≢ "")
      (entitled : (caller ≡ "admin") ⊎ (caller ≡ or_text i.name caller)) where
    stores :
        is_empty (validate_skills e.cfg i.skills) ≡ true
        → url_fails r i.webhook_url ≡ none
        → Upserts r.crypto (registered (or_text i.name caller) (or_text i.token auth_token) i) e w
        → Registers
            (some i)
            (store_agent r (registered (or_text i.name caller) (or_text i.token auth_token) i))
    unfolding store_agent write_error_safe write_error write_json pure
    stores s u (failed h) =
        refusal (write_error_safe 500 "upsert_failed")
          (respond-err e (upsert_agent r.crypto _) _ _ w w _ h) (ground arith)
    stores s u (stored salt hash prefix secret t x k y h) =
        success i (wrote w t) _ refl (respond-ok e (upsert_agent r.crypto _) _ _ w (wrote w t) tt h)
          (record {
            not_limited = free;
            named = named;
            entitled = entitled;
            skilled = s;
            url_passes = u;
            salt = salt;
            hash = hash;
            prefix = prefix;
            secret = secret;
            random = x;
            hashed = k;
            written = y;
            answered = refl;
          })

    url_checked :
        is_empty (validate_skills e.cfg i.skills) ≡ true
        → Registers
            (some i)
            (store_checked r (registered (or_text i.name caller) (or_text i.token auth_token) i))
    unfolding store_checked
    url_checked s = elim (Option-cases (url_fails r i.webhook_url)) [
      | inl u ↦
          carried (some i) _ _ (rw (u, store_checked) refl)
            (stores s u (upsert_agent-Upserts r.crypto _ e q w))
      | inr (message, u) ↦
          carried (some i) _ _ (rw (u, store_checked) refl)
            (refused_with (some i) 400 "invalid_webhook_url" message (ground arith))
    ]

    checks : Registers (some i) (register_checked r (or_text i.name caller) auth_token i)
    unfolding register_checked ◌>>=◌ get_env
    checks = elim (Bool-cases (is_empty (validate_skills e.cfg i.skills))) [
      | inl s ↦ carried (some i) _ _ (rw s refl) (url_checked s)
      | inr s ↦ carried (some i) _ _ (rw s refl) (
          refused_with (some i) 400 "invalid_skills"
            "one or more skills are not in the allowed catalog" (ground arith))
    ]

  registers :
      IsQuiet e
      → (i : RegisterInput) → refuses r.limiter "register" ≡ false
      → Registers (some i) (register_as r (or_text i.name caller) caller auth_token i)
  unfolding register_as missing_name no_caller
  registers q i free = elim (Bool-cases (or_text i.name caller == "")) [
    | inl n ↦
        rw n (refused_with (some i) 400 "missing_name" "agent name is required" (ground arith))
    | inr n ↦ elim (Bool-cases (caller == "")) [
      | inl c ↦
          rw (n, c)
            (refused_with (some i) 401 "unauthorized" "X-Agent-Name header is missing"
              (ground arith))
      | inr c ↦
          elim (Bool-cases (not (caller == "admin") && not (caller == or_text i.name caller))) [
            | inl f ↦
                rw (n, c, f)
                  (refused_with (some i) 403 "forbidden" "agent can only register itself"
                    (ground arith))
            | inr f ↦
                rw (n, c, f)
                  (checks q i free (ground (arith, eq_iff (or_text i.name caller) ""))
                    (elim (Bool-cases (caller == "admin")) [
                      | inl a ↦ inl ((eq_iff caller "admin").0 a)
                      | inr a ↦ inr (ground (arith, eq_iff caller (or_text i.name caller)))
                    ]))
          ]
    ]
  ]

  pub register_agent-Registers :
      IsQuiet e
      → (input : Option RegisterInput) → Registers input (register_agent r caller auth_token input)
  unfolding register_agent if_nil invalid_json
  register_agent-Registers q none = elim (Bool-cases (refuses r.limiter "register")) [
    | inl l ↦
        rw l (refused_with none 429 "rate_limited" "too many registration requests" (ground arith))
    | inr l ↦ rw l (refused_with none 400 "invalid_json" "invalid request body" (ground arith))
  ]
  register_agent-Registers q (some i) = elim (Bool-cases (refuses r.limiter "register")) [
    | inl l ↦
        rw l
          (refused_with (some i) 429 "rate_limited" "too many registration requests" (ground arith))
    | inr l ↦ rw l (registers q i l)
  ]
