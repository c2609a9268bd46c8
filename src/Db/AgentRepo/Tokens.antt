-- ===== src/Db/AgentRepo/Tokens.antt =====
-- The part of internal/db/agent_repo.go and token_hash.go that stores tokens and finds agents by them.
use Prim.Native.String.{len}
use acb_go.Prelude.{
  ℕ, String, Bool, true, false, Option, none, some, List, [], ◌∷◌, ◌==◌, ltb, if◌then◌else◌, filter,
}
use acb_go.Models.{Agent}
use acb_go.Db.Rows.{find}
use acb_go.Db.Statement.{Statement, update_agent, agent_token}
use acb_go.Db.Secrets.{Crypto, hash_token, verify_token, encrypt_webhook_secret}
use acb_go.Session.{M, secret_failed, pure, throw, exec, query, if_nil, ◌>>=◌}

-- rand.Read, after so many database calls.
unfoldable pub draw : Crypto → ℕ → M (Option (List ℕ))
draw c size e w = pure (c.random w.calls size) e w

unfoldable pub or_throw : {A : Type 0} → Option A → M A
or_throw none = throw secret_failed
or_throw (some a) = pure a

unfoldable pub encrypted : Crypto → String → M String
encrypted c secret =
    if secret == ""
    then pure ""
    else draw c 12 >>= λ nonce. or_throw (encrypt_webhook_secret c nonce secret)

unfoldable pub upsert_agent : Crypto → Agent → M (Unit {0})
upsert_agent c a = do
  salt ← draw c 16
  (hash, prefix) ← or_throw (hash_token c salt a.token)
  secret ← encrypted c a.webhook_secret
  n ← exec (
      Statement.upsert_agent
        (record a { token = hash; token_prefix = prefix; webhook_secret = secret }))
  pure tt

-- The loop over the rows: an error of a check passes to the next row.
unfoldable pub scan_matching_agent : Crypto → String → List Agent → Option Agent
scan_matching_agent c token [] = none
scan_matching_agent c token (a ∷ rest) =
    let others = scan_matching_agent c token rest in
    elim (verify_token c token a.token) [
      | some true ↦ some (record a { token = "" })
      | some false ↦ others
      | none ↦ others
    ]

unfoldable pub get_by_token_prefix : Crypto → (token prefix : String) → M (Option Agent)
get_by_token_prefix c token prefix =
    query λ now s. scan_matching_agent c token (filter (λ a. a.token_prefix == prefix) s.agents)

unfoldable pub get_by_token : Crypto → String → M (Option Agent)
get_by_token c token = if ltb (len token) 8 then pure none else do
  salt ← draw c 16
  (hash, prefix) ← or_throw (hash_token c salt token)
  get_by_token_prefix c token prefix

unfoldable pub store_token_hash : Crypto → (name token : String) → M (Unit {0})
store_token_hash c name token = do
  salt ← draw c 16
  (hash, prefix) ← or_throw (hash_token c salt token)
  n ← exec (update_agent (agent_token name hash prefix))
  pure tt

unfoldable pub check_token : Crypto → (name token : String) → M Bool
check_token c name token = do
  found ← query (λ now s. find Agent.name name s.agents)
  if_nil found (pure false) λ a. or_throw (verify_token c token a.token)
