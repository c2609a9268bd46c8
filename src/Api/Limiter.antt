-- ===== src/Api/Limiter.antt =====
-- internal/api/limiter.go. The limiter of one client, rate.Limiter, is a parameter: `fresh` is
-- rate.NewLimiter(rate, burst), and `allow_one` is its method Allow at a time.
pub mod Apart
use acb_go.Prelude.{ℕ, String, Bool, Option, none, some, List, [], ◌∷◌, ◌==◌, if◌then◌else◌}

pub record Limiter (Bucket : Type 0) : Type 0 where
  pub fresh : Bucket
  pub allow_one : ℕ → Bucket → Bool × Bucket

-- The map `clients`.
abbrev pub Clients : Type 0 → Type 0
Clients Bucket = List (String × Bucket)

module _ {Bucket : Type 0} where
  unfoldable pub lookup : String → Clients Bucket → Option Bucket
  lookup name [] = none
  lookup name ((k, b) ∷ rest) = if k == name then some b else lookup name rest

  unfoldable pub store : String → Bucket → Clients Bucket → Clients Bucket
  store name b [] = (name, b) ∷ []
  store name b ((k, old) ∷ rest) = if k == name then (k, b) ∷ rest else (k, old) ∷ store name b rest

  -- The limiter of a client, which is made when it is first asked for.
  unfoldable pub client : Limiter Bucket → String → Clients Bucket → Bucket
  client l name clients = elim (lookup name clients) [ none ↦ l.fresh | some b ↦ b ]

  unfoldable pub allow : Limiter Bucket → String → ℕ → Clients Bucket → Bool × Clients Bucket
  allow l name now clients =
      let (answer, b) = l.allow_one now (client l name clients) in (answer, store name b clients)
