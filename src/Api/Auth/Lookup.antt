-- ===== src/Api/Auth/Lookup.antt =====
-- A token that the row of an agent holds the hash of gets through AuthMiddleware of
-- internal/api/auth.go.
use Prim.Native.String.{len}
use acb_go.Prelude.{
  ℕ, ◌≤◌, String, ◌≡◌, ◌≢◌, refl, sym, subst, ◌∙◌, ap, Bool, true, false, not, ◌&&◌, Option, none,
  some, List, [], ◌∷◌, ◌++◌, ◌==◌, eq_iff, arith, ltb, Bool-cases, inl, inr, filter, All, length,
}
use acb_go.Models.{Agent}
use acb_go.Db.Rows.{find}
use acb_go.Db.Secrets.{Crypto, hash_token, verify_token, token_prefix}
use acb_go.Db.Secrets.RoundTrip.{IsCrypto, verify_token-hash_token}
use acb_go.Db.AgentRepo.Tokens.{
  draw, or_throw, scan_matching_agent, get_by_token_prefix, get_by_token,
}
use acb_go.Session.{Env, World, ok, pure, on_error, if_nil}
use acb_go.Session.Quiet.{IsQuiet, ticked, bind-ok, on_error-ok, query_quiet}
use acb_go.Api.Auth.{Headers, goes_on, is_health, strip_prefix, by_token, authenticate}

-- Whoever accepts the token has this name.
abbrev pub OnlyAccepts : Crypto → (token name : String) → List Agent → Type 0
OnlyAccepts c token name l = All (λ y. verify_token c token y.token ≡ some true → y.name ≡ name) l

module _ (c : Crypto) (token name prefix : String) where
  Scans : List Agent → Type 0
  Scans l =
      (z : Agent) × (scan_matching_agent c token (filter (λ y. y.token_prefix == prefix) l)
        ≡ some z)
      × (z.name ≡ name)

  -- The first row, by what its check gives.
  first_row :
      (y : Agent) (l : List Agent) (v : Option Bool)
      → verify_token c token y.token ≡ v
      → (y.token_prefix == prefix) ≡ true
      → (v ≡ some true → y.name ≡ name)
      → (v ≢ some true → Scans l)
      → Scans (y ∷ l)
  unfolding Scans scan_matching_agent
  first_row y l (some true) e b n r =
      (record y { token = "" }, rw (b, scan_matching_agent, e) refl, n refl)
  first_row y l (some false) e b n r =
      let (z, s, k) = r (λ h. cc) in (z, rw (b, scan_matching_agent, e) s, k)
  first_row y l none e b n r =
      let (z, s, k) = r (λ h. cc) in (z, rw (b, scan_matching_agent, e) s, k)

  later :
      (x y : Agent) (l : List Agent)
      → find Agent.name name (y ∷ l) ≡ some x
      → y ≢ x
      → find Agent.name name l ≡ some x
  unfolding find
  later x y l f n = elim (Bool-cases (y.name == name)) [
    | inl b ↦ let k : some y ≡ some x = ground (arith, f) in absurd (n cc)
    | inr b ↦ ground (arith, f)
  ]

  scans :
      (x : Agent) (l : List Agent)
      → find Agent.name name l ≡ some x
      → verify_token c token x.token ≡ some true
      → x.token_prefix ≡ prefix
      → OnlyAccepts c token name l
      → Scans l
  unfolding find Scans
  scans x [] f v p o = cc
  scans x (y ∷ l) f v p o = elim (Bool-cases (y.token_prefix == prefix)) [
    | inl b ↦ first_row y l _ refl b o.0 (λ n.
        let m : y ≢ x = λ e. n (subst (λ z. verify_token c token z.token ≡ some true) (sym e) v) in
        scans x l (later x y l f m) v p o.1)
    | inr b ↦
        let m : y ≢ x =
          λ e. let t = (eq_iff y.token_prefix prefix).1 (ap Agent.token_prefix e ∙ p) in cc in
        rw b (scans x l (later x y l f m) v p o.1)
  ]

module _ (c : Crypto) (k : IsCrypto c) (e : Env) (q : IsQuiet e) (admin_token : String)
    (h : Headers) (token name : String) (w : World) where
  -- The lookup by a token, run alone.
  looks_up :
      (fresh_salt : List ℕ)
      → 8 ≤ len token
      → c.random w.calls 16 ≡ some fresh_salt
      → get_by_token c token e w ≡ (
        ok (
            scan_matching_agent c token
              (filter (λ y. y.token_prefix == token_prefix c token) w.store.agents)),
        ticked w,
      )
  unfolding get_by_token draw or_throw hash_token get_by_token_prefix pure
  looks_up fresh_salt l r =
      let b : ltb (len token) 8 ≡ false = ground arith in
      rw b (
        bind-ok e (draw c 16) _ w w (c.random w.calls 16) refl
        ∙ rw r (
            bind-ok e (or_throw (hash_token c (some fresh_salt) token)) _ w w
              (c.encode64 (fresh_salt ++ c.argon token fresh_salt), token_prefix c token) refl
            ∙ query_quiet e q _ w))

  passes :
      (z : Agent)
      → is_health h.path ≡ false
      → strip_prefix "Bearer " h.authorization ≡ some token
      → admin_token ≢ token
      → get_by_token c token e w ≡ (ok (some z), ticked w)
      → authenticate c admin_token h e w ≡ (ok (goes_on z.name), ticked w)
  unfolding authenticate by_token if_nil pure
  passes z p s a g =
      let b : (not (admin_token == "") && token == admin_token) ≡ false =
        ground (arith, eq_iff token admin_token) in
      rw (p, s, b)
        (bind-ok e (on_error (get_by_token c token) (λ y. pure none)) _ w (ticked w) (some z)
          (on_error-ok e (get_by_token c token) _ w (ticked w) (some z) g))

  -- On tables in which the row of an agent holds a hash of the token, and nobody else accepts it.
  pub goes_through :
      (x : Agent) (salt fresh_salt : List ℕ)
      → is_health h.path ≡ false
      → strip_prefix "Bearer " h.authorization ≡ some token
      → 8 ≤ len token
      → admin_token ≢ token
      → length salt ≡ 16
      → c.random w.calls 16 ≡ some fresh_salt
      → hash_token c (some salt) token ≡ some (x.token, x.token_prefix)
      → find Agent.name name w.store.agents ≡ some x
      → OnlyAccepts c token name w.store.agents
      → authenticate c admin_token h e w ≡ (ok (goes_on name), ticked w)
  unfolding hash_token Scans
  goes_through x salt fresh_salt p s l a n r t f o =
      let v = (verify_token-hash_token c k salt token token x.token x.token_prefix n t).0 in
      let g : x.token_prefix ≡ token_prefix c token = cc in
      let (z, d, u) = scans c token name (token_prefix c token) x w.store.agents f v g o in
      passes z p s a (looks_up fresh_salt l r ∙ ap (λ y. (ok y, ticked w)) d)
      ∙ ap (λ y. (ok (goes_on y), ticked w)) u
