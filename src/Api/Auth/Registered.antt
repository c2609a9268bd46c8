-- ===== src/Api/Auth/Registered.antt =====
-- An agent that has registered gets through the authentication: RegisterAgent of
-- internal/api/agent_handler.go and AuthMiddleware of internal/api/auth.go.
use Prim.Native.String.{len}
use acb_go.Prelude.{
  ℕ, ◌≤◌, String, ◌≡◌, ◌≢◌, refl, sym, subst, ◌∙◌, ap, false, Option, none, some, List, eq_iff,
}
use acb_go.Models.{Agent}
use acb_go.Db.Rows.{find}
use acb_go.Db.Secrets.{or_text}
use acb_go.Db.Secrets.RoundTrip.{IsCrypto}
use acb_go.Db.AgentRepo.Upsert.{merged}
use acb_go.Db.Statement.{overwrite}
use acb_go.Session.{Env, World, M, Outcome, ok, err, panic}
use acb_go.Api.Auth.Lookup.{OnlyAccepts, goes_through}
use acb_go.Session.Quiet.{IsQuiet, ticked}
use acb_go.Api.Response.{Response}
use acb_go.Api.AgentHandler.{RegisterInput, Registry, registered, register_agent}
use acb_go.Api.Registering.{Registers, Registration, refusal, success, register_agent-Registers}
use acb_go.Api.Auth.{Headers, goes_on, is_health, strip_prefix, authenticate}

merged-token :
    (a : Agent) (o : Option Agent)
    → ((merged a o).token ≡ a.token) × ((merged a o).token_prefix ≡ a.token_prefix)
unfolding overwrite
merged-token a none = (refl, refl)
merged-token a (some old) = (refl, refl)

code_of : Outcome Response × World → ℕ
code_of (ok r, w) = r.code
code_of (err x, w) = 0
code_of (panic, w) = 0

module _ (r : Registry) (k : IsCrypto r.crypto) (e : Env) (q : IsQuiet e)
    (caller auth_token : String) (w : World) (admin_token : String) (h : Headers) where
  -- The name that is registered, and its token.
  abbrev pub name_of : RegisterInput → String
  name_of i = or_text i.name caller

  abbrev pub token_of : RegisterInput → String
  token_of i = or_text i.token auth_token

  by_row :
      (i : RegisterInput) (v : World) (answer : Response) (fresh_salt : List ℕ)
      → Registration r caller auth_token e w i v answer
      → is_health h.path ≡ false
      → strip_prefix "Bearer " h.authorization ≡ some (token_of i)
      → 8 ≤ len (token_of i)
      → admin_token ≢ token_of i
      → r.crypto.random v.calls 16 ≡ some fresh_salt
      → OnlyAccepts r.crypto (token_of i) (name_of i) v.store.agents
      → authenticate r.crypto admin_token h e v ≡ (ok (goes_on (name_of i)), ticked v)
  by_row i v answer fresh_salt g p s l a f o =
      let row = record (registered (name_of i) (token_of i) i) {
        token = g.hash;
        token_prefix = g.prefix;
        webhook_secret = g.secret;
      } in
      let old = find Agent.name (name_of i) w.store.agents in
      let (t, u) = merged-token row old in
      goes_through r.crypto k e q admin_token h (token_of i) (name_of i) v (merged row old) g.salt
        fresh_salt p s l a (k.length-random w.calls 16 g.salt g.random) f (rw (t, u) g.hashed)
        (g.written.rows (name_of i) ∙ rw ((eq_iff (name_of i) (name_of i)).1 refl) refl) o

  by_end :
      (i : RegisterInput) (v : World) (answer : Response) (m : M Response) (fresh_salt : List ℕ)
      → Registers r caller auth_token e w (some i) m
      → m e w ≡ (ok answer, v)
      → answer.code ≡ 200
      → is_health h.path ≡ false
      → strip_prefix "Bearer " h.authorization ≡ some (token_of i)
      → 8 ≤ len (token_of i)
      → admin_token ≢ token_of i
      → r.crypto.random v.calls 16 ≡ some fresh_salt
      → OnlyAccepts r.crypto (token_of i) (name_of i) v.store.agents
      → authenticate r.crypto admin_token h e v ≡ (ok (goes_on (name_of i)), ticked v)
  unfolding code_of
  by_end i v answer m fresh_salt (refusal other x n) z c p s l a f o =
      absurd (n (sym (ap code_of (sym z ∙ x)) ∙ c))
  by_end i v answer m fresh_salt (success j u other y x g) z c p s l a f o =
      let d : j ≡ i = cc in
      let b : u ≡ v = ap (λ t. t.1) (sym x ∙ z) in
      by_row i v other fresh_salt
        (subst (λ t. Registration r caller auth_token e w i t other) b
          (subst (λ t. Registration r caller auth_token e w t u other) d g))
        p s l a f o

  -- After a registration that was answered with 200, a request with the token of the registration,
  -- of at least 8 bytes, is authenticated as the agent that was registered, if the salt of the
  -- lookup can be drawn, the token is not the administrator's, and no agent of another name has a hash
  -- that accepts it; both requests run alone.
  pub authenticate-register_agent :
      (i : RegisterInput) (v : World) (answer : Response) (fresh_salt : List ℕ)
      → register_agent r caller auth_token (some i) e w ≡ (ok answer, v)
      → answer.code ≡ 200
      → is_health h.path ≡ false
      → strip_prefix "Bearer " h.authorization ≡ some (token_of i)
      → 8 ≤ len (token_of i)
      → admin_token ≢ token_of i
      → r.crypto.random v.calls 16 ≡ some fresh_salt
      → OnlyAccepts r.crypto (token_of i) (name_of i) v.store.agents
      → authenticate r.crypto admin_token h e v ≡ (ok (goes_on (name_of i)), ticked v)
  authenticate-register_agent i v answer fresh_salt z =
      by_end i v answer (register_agent r caller auth_token (some i)) fresh_salt
        (register_agent-Registers r caller auth_token e w q (some i)) z
