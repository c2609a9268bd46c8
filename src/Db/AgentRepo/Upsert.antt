-- ===== src/Db/AgentRepo/Upsert.antt =====
-- UpsertAgent of internal/db/agent_repo.go, run alone.
use acb_go.Prelude.{
  ℕ, String, ◌≡◌, refl, ◌∙◌, Option, none, some, List, [], ◌∷◌, ◌++◌, ◌==◌, eq_iff, arith,
  if◌then◌else◌, Option-cases, Bool-cases, inl, inr, ◌⊎◌,
}
use acb_go.Prelude.Int.{pos}
use acb_go.Models.{Agent}
use acb_go.Db.Rows.{find, update, touch, find-append, find-update, key-find}
use acb_go.Db.Store.{Store}
use acb_go.Db.Statement.{Statement, overwrite, run}
use acb_go.Db.Secrets.{Crypto, hash_token, encrypt_webhook_secret}
use acb_go.Db.AgentRepo.Tokens.{draw, or_throw, encrypted, upsert_agent}
use acb_go.Session.{Env, World, ok, err, secret_failed, pure, throw, exec, ◌>>=◌}
use acb_go.Session.Quiet.{IsQuiet, time, wrote, exec_quiet, bind-ok, bind-err}

-- The row that the statement leaves: a new one starts at cursor 0, an old one keeps its cursor.
abbrev pub merged : Agent → Option Agent → Agent
merged a none = record a { last_event_id = some (pos 0) }
merged a (some old) = overwrite a old

-- What the statement does to the tables.
pub record Written (a : Agent) (s t : Store) : Type 0 where
  pub rows :
      (n : String)
      → find Agent.name n t.agents ≡ (
          if a.name == n
          then some (merged a (find Agent.name a.name s.agents))
          else find Agent.name n s.agents)
  pub same_tasks : t.tasks ≡ s.tasks
  pub same_gates : t.gates ≡ s.gates

rows_new :
    (a : Agent) (l : List Agent) (n : String)
    → find Agent.name a.name l ≡ none
    → find Agent.name n (l ++ merged a none ∷ [])
      ≡ (if a.name == n then some (merged a none) else find Agent.name n l)
unfolding find
rows_new a l n h =
    rw (find-append Agent.name n l (merged a none ∷ [])) (elim (Bool-cases (a.name == n)) [
      | inl e ↦ rw (e, ← ((eq_iff a.name n).0 e), h) refl
      | inr d ↦ rw d (ground arith)
    ])

touched :
    (a x : Agent) (n : String) (o : Option Agent)
    → ((b : Agent) → o ≡ some b → b.name ≡ n)
    → (a.name ≡ n → o ≡ some x)
    → touch (λ b. b.name == a.name) (overwrite a) o
      ≡ (if a.name == n then some (overwrite a x) else o)
touched a x n none k h = ground (arith, eq_iff a.name n)
touched a x n (some b) k h = ground (arith, eq_iff a.name n, eq_iff b.name a.name, k b)

rows_old :
    (a x : Agent) (l : List Agent) (n : String)
    → find Agent.name a.name l ≡ some x
    → find Agent.name n (update (λ b. b.name == a.name) (overwrite a) l)
      ≡ (if a.name == n then some (overwrite a x) else find Agent.name n l)
unfolding overwrite
rows_old a x l n h =
    find-update Agent.name (λ b. b.name == a.name) (overwrite a)
      (λ b e. ground (arith, eq_iff b.name a.name)) n l
    ∙ touched a x n (find Agent.name n l) (λ b e. key-find Agent.name n l b e) (λ e. rw (← e) h)

pub run-Written :
    (now : ℕ) (a : Agent) (s : Store)
    → (t : Store) × (run now (Statement.upsert_agent a) s ≡ some (1, t)) × Written a s t
unfolding run
run-Written now a s = elim (Option-cases (find Agent.name a.name s.agents)) [
  | inl n ↦ (
    record s { agents = s.agents ++ merged a none ∷ [] },
    rw (n, run) refl,
    record { rows = λ k. rw n (rows_new a s.agents k n); same_tasks = refl; same_gates = refl },
  )
  | inr (x, f) ↦ (
    record s { agents = update (λ b. b.name == a.name) (overwrite a) s.agents },
    rw (f, run) refl,
    record { rows = λ k. rw f (rows_old a x s.agents k f); same_tasks = refl; same_gates = refl },
  )
]

-- How UpsertAgent ends: hashing or encryption fails and nothing is written, or a row with the hash is.
pub data Upserts (c : Crypto) (a : Agent) (e : Env) (w : World) : Type 0 where
  failed : upsert_agent c a e w ≡ (err secret_failed, w) → Upserts c a e w
  stored :
      (salt : List ℕ) (hash prefix secret : String) (t : Store)
      → c.random w.calls 16 ≡ some salt
      → hash_token c (some salt) a.token ≡ some (hash, prefix)
      → Written
          (record a { token = hash; token_prefix = prefix; webhook_secret = secret })
          w.store
          t
      → upsert_agent c a e w ≡ (ok tt, wrote w t)
      → Upserts c a e w

module _ (c : Crypto) (a : Agent) (e : Env) (q : IsQuiet e) (w : World) where
  secret_cases :
      (encrypted c a.webhook_secret e w ≡ (err secret_failed, w))
      ⊎ ((secret : String) × (encrypted c a.webhook_secret e w ≡ (ok secret, w)))
  unfolding encrypted draw or_throw pure throw ◌>>=◌
  secret_cases = elim (Bool-cases (a.webhook_secret == "")) [
    | inl b ↦ inr ("", rw b refl)
    | inr b ↦
        elim (Option-cases (encrypt_webhook_secret c (c.random w.calls 12) a.webhook_secret)) [
          | inl n ↦ inl (rw (b, n) refl)
          | inr (secret, f) ↦ inr (secret, rw (b, f) refl)
        ]
  ]

  upsert_hashed :
      (salt : List ℕ) (hash prefix : String)
      → c.random w.calls 16 ≡ some salt
      → hash_token c (some salt) a.token ≡ some (hash, prefix)
      → Upserts c a e w
  unfolding upsert_agent draw or_throw pure
  upsert_hashed salt hash prefix r h = elim secret_cases [
    | inl f ↦ failed (
        bind-ok e (draw c 16) _ w w (c.random w.calls 16) refl
        ∙ rw (r, h)
            (bind-ok e (or_throw (some (hash, prefix))) _ w w (hash, prefix) refl
              ∙ bind-err e (encrypted c a.webhook_secret) _ w w secret_failed f))
    | inr (secret, f) ↦
        let row = record a { token = hash; token_prefix = prefix; webhook_secret = secret } in
        let (t, x, k) = run-Written (time e w) row w.store in
        stored salt hash prefix secret t r h k (
          bind-ok e (draw c 16) _ w w (c.random w.calls 16) refl
          ∙ rw (r, h)
              (bind-ok e (or_throw (some (hash, prefix))) _ w w (hash, prefix) refl
                ∙ bind-ok e (encrypted c a.webhook_secret) _ w w secret f
                ∙ bind-ok e (exec (Statement.upsert_agent row)) _ w (wrote w t) 1
                    (exec_quiet e q _ w 1 t x)))
  ]

  pub upsert_agent-Upserts : Upserts c a e w
  unfolding hash_token upsert_agent draw or_throw pure throw ◌>>=◌
  upsert_agent-Upserts = elim (Option-cases (c.random w.calls 16)) [
    | inl n ↦ failed (rw (n, upsert_agent) refl)
    | inr (salt, r) ↦ upsert_hashed salt _ _ r refl
  ]
