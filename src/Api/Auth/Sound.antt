-- ===== src/Api/Auth/Sound.antt =====
-- Who gets through the authentication of internal/api/auth.go.
use Prim.Native.String.{len}
use acb_go.Prelude.{
  ℕ, String, ◌≡◌, refl, ◌⊎◌, inl, inr, Bool, true, false, not, ◌&&◌, Option, none, some, List, [],
  ◌∷◌, ◌==◌, eq_iff, arith, ltb, Bool-cases, Option-cases, filter, Any, Any-filter,
}
use acb_go.Models.{Agent}
use acb_go.Db.Store.{Store}
use acb_go.Db.Secrets.{Crypto, hash_token, verify_token, token_prefix}
use acb_go.Db.AgentRepo.Tokens.{
  draw, or_throw, scan_matching_agent, get_by_token_prefix, get_by_token,
}
use acb_go.Session.{Env, World, M, ok, arrive, pure, throw, query, on_error, if_nil, ◌>>=◌}
use acb_go.Session.Quiet.{bind-ok}
use acb_go.Prelude.{ap, ◌∙◌}
use acb_go.Api.Response.{Response, write_error}
use acb_go.Api.Auth.{
  Headers, Verdict, goes_on, refused, is_health, strip_prefix, by_token, authenticate, continue_as,
  auth_middleware,
}

-- The row of an agent with this name accepts the token.
abbrev pub Accepts : Crypto → (token name : String) → Agent → Type 0
Accepts c token name a = (a.name ≡ name) × (verify_token c token a.token ≡ some true)

-- Why a request may go on as a caller, on these tables.
pub data Justified (c : Crypto) (admin_token : String) (h : Headers) (s : Store) (caller : String)
    : Type 0 where
  health : is_health h.path ≡ true → caller ≡ h.agent_name → Justified c admin_token h s caller
  admin :
      strip_prefix "Bearer " h.authorization ≡ some admin_token
      → caller ≡ "admin"
      → Justified c admin_token h s caller
  agent :
      (token : String)
      → strip_prefix "Bearer " h.authorization ≡ some token
      → Any (Accepts c token caller) s.agents
      → Justified c admin_token h s caller

Accepted : Crypto → String → List Agent → Option Agent → Type 0
Accepted c token l none = Unit
Accepted c token l (some a) = Any (Accepts c token a.name) l

later_row :
    (c : Crypto) (token : String) (x : Agent) (l : List Agent) (o : Option Agent)
    → Accepted c token l o
    → Accepted c token (x ∷ l) o
unfolding Accepted
later_row c token x l none h = tt
later_row c token x l (some a) h = inr h

scan_one :
    (c : Crypto) (token : String) (x : Agent) (l : List Agent) (v : Option Bool) (o : Option Agent)
    → verify_token c token x.token ≡ v
    → Accepted c token l o
    → Accepted c token
        (x ∷ l)
        (elim v [ some true ↦ some (record x { token = "" }) | some false ↦ o | none ↦ o ])
unfolding Accepted
scan_one c token x l none o e h = later_row c token x l o h
scan_one c token x l (some true) o e h = inl (refl, e)
scan_one c token x l (some false) o e h = later_row c token x l o h

scan-Accepted :
    (c : Crypto) (token : String) (l : List Agent)
    → Accepted c token l (scan_matching_agent c token l)
unfolding Accepted scan_matching_agent
scan-Accepted c token [] = tt
scan-Accepted c token (x ∷ l) =
    scan_one c token x l (verify_token c token x.token) (scan_matching_agent c token l) refl
      (scan-Accepted c token l)

unfiltered :
    (c : Crypto) (token : String) (p : Agent → Bool) (l : List Agent) (o : Option Agent)
    → Accepted c token (filter p l) o
    → Accepted c token l o
unfolding Accepted
unfiltered c token p l none h = tt
unfiltered c token p l (some a) h = Any-filter (Accepts c token a.name) p l h

-- Whatever the database does, the lookup by a token ends with no agent, or with one that accepts it.
module _ (c : Crypto) (token : String) (e : Env) (w : World) where
  Looked : Type 0
  Looked =
      (o : Option Agent) × (v : World) × (on_error (get_by_token c token) (λ x. pure none) e w
        ≡ (ok o, v))
      × Accepted c token (arrive e w).store.agents o

  looked :
      (short down : Bool) (salt : Option (List ℕ))
      → ltb (len token) 8 ≡ short
      → (e.turn w.calls).down ≡ down
      → c.random w.calls 16 ≡ salt
      → Looked
  unfolding Looked Accepted get_by_token draw or_throw hash_token get_by_token_prefix query on_error
      pure throw ◌>>=◌
  looked true down salt a b d = (none, w, rw a refl, tt)
  looked false down none a b d = (none, w, rw (a, d) refl, tt)
  looked false true (some salt) a b d = (none, arrive e w, rw (a, d, b) refl, tt)
  looked false false (some salt) a b d = (
    scan_matching_agent c token
        (filter (λ x. x.token_prefix == token_prefix c token) (arrive e w).store.agents),
    arrive e w,
    rw (a, d, b) refl,
    unfiltered c token (λ x. x.token_prefix == token_prefix c token) (arrive e w).store.agents _
        (scan-Accepted c token _),
  )

  looked_up : Looked
  looked_up = looked (ltb (len token) 8) (e.turn w.calls).down (c.random w.calls 16) refl refl refl

module _ (c : Crypto) (admin_token : String) (h : Headers) (e : Env) (w : World) where
  -- How the middleware ends: with a refusal, or with a caller for a reason.
  data Ends (m : M Verdict) : Type 0 where
    refusal : (message : String) (v : World) → m e w ≡ (ok (refused message), v) → Ends m
    passage :
        (caller : String) (v : World)
        → m e w ≡ (ok (goes_on caller), v)
        → Justified c admin_token h (arrive e w).store caller
        → Ends m

  after_lookup :
      (token : String) (o : Option Agent) (v : World)
      → strip_prefix "Bearer " h.authorization ≡ some token
      → on_error (get_by_token c token) (λ x. pure none) e w ≡ (ok o, v)
      → Accepted c token (arrive e w).store.agents o
      → Ends (
          on_error (get_by_token c token) (λ x. pure none) >>= λ found.
          if_nil found (pure (refused "invalid token")) λ a. pure (goes_on a.name))
  unfolding Accepted if_nil pure
  after_lookup token none v s r a = refusal "invalid token" v (bind-ok e _ _ w v none r)
  after_lookup token (some x) v s r a =
      passage x.name v (bind-ok e _ _ w v (some x) r) (agent token s a)

  after_token :
      (token : String)
      → strip_prefix "Bearer " h.authorization ≡ some token
      → Ends (by_token c admin_token token)
  unfolding by_token Looked
  after_token token s = elim (Bool-cases (not (admin_token == "") && token == admin_token)) [
    | inl b ↦
        passage "admin" w (unfold pure in rw b refl)
          (admin (s ∙ ap (λ t. some t) (ground (arith, eq_iff token admin_token))) refl)
    | inr b ↦ let (o, v, r, a) = looked_up c token e w in rw b (after_lookup token o v s r a)
  ]

  ends : Ends (authenticate c admin_token h)
  unfolding authenticate if_nil
  ends = elim (Bool-cases (is_health h.path)) [
    | inl b ↦ passage h.agent_name w (unfold pure in rw b refl) (health b refl)
    | inr b ↦ elim (Option-cases (strip_prefix "Bearer " h.authorization)) [
      | inl n ↦ refusal "missing or invalid authorization header" w (unfold pure in rw (b, n) refl)
      | inr (token, s) ↦ rw (b, s) (after_token token s)
    ]
  ]

  by_end :
      (m : M Verdict) (next : String → M Response)
      → Ends m
      → ((message : String) × (v : World) × ((m >>= continue_as next) e w
            ≡ (ok (write_error 401 "unauthorized" message), v)))
        ⊎ ((caller : String) × (v : World) × ((m >>= continue_as next) e w ≡ next caller e v)
            × Justified c admin_token h (arrive e w).store caller)
  by_end m next (refusal message v r) =
      inl (message, v, bind-ok e m (continue_as next) w v _ r ∙ (unfold pure in refl))
  by_end m next (passage caller v r j) = inr (caller, v, bind-ok e m (continue_as next) w v _ r, j)

-- Whatever other processes do and whichever calls fail, a request is answered with 401, or it is handed
-- on under a name for one of three reasons: it is for the health check and has the name that the client
-- sent, it bears the token of the administrator and the name is admin, or it bears a token that the
-- stored hash of an agent with this name accepts.
pub auth_middleware-Justified :
    (c : Crypto) (admin_token : String) (h : Headers) (next : String → M Response) (e : Env)
    (w : World)
    → ((message : String) × (v : World) × (auth_middleware c admin_token h next e w
          ≡ (ok (write_error 401 "unauthorized" message), v)))
      ⊎ ((caller : String) × (v : World) × (auth_middleware c admin_token h next e w
            ≡ next caller e v)
          × Justified c admin_token h (arrive e w).store caller)
unfolding auth_middleware
auth_middleware-Justified c admin_token h next e w =
    by_end c admin_token h e w (authenticate c admin_token h) next (ends c admin_token h e w)
