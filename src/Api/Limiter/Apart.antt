-- ===== src/Api/Limiter/Apart.antt =====
-- The clients of the limiter of internal/api/limiter.go do not touch one another.
use acb_go.Prelude.{
  ℕ, String, ◌≡◌, refl, Bool, some, List, [], ◌∷◌, ◌==◌, eq_iff, arith, if◌then◌else◌, Bool-cases,
  inl, inr,
}
use acb_go.Api.Limiter.{Limiter, Clients, lookup, store, client, allow}

abbrev pub times_of : String → List (String × ℕ) → List ℕ
times_of name [] = []
times_of name ((k, now) ∷ calls) =
    let rest = times_of name calls in if k == name then now ∷ rest else rest

module _ {Bucket : Type 0} where
  lookup-store :
      (k j : String) (b : Bucket) (c : Clients Bucket)
      → lookup j (store k b c) ≡ (if k == j then some b else lookup j c)
  unfolding lookup store
  lookup-store k j b [] = refl
  lookup-store k j b ((i, old) ∷ c) =
      ground (arith, eq_iff k j, eq_iff i k, eq_iff i j, lookup-store k j b c)

  client-store :
      (l : Limiter Bucket) (k j : String) (b : Bucket) (c : Clients Bucket)
      → client l j (store k b c) ≡ (if k == j then b else client l j c)
  unfolding client
  client-store l k j b c = ground (arith, lookup-store k j b c)

  -- The answers to the calls of one client among calls of many, each a name and a time.
  abbrev pub answers_to : Limiter Bucket → String → List (String × ℕ) → Clients Bucket → List Bool
  answers_to l name [] c = []
  answers_to l name ((k, now) ∷ calls) c =
      let (answer, c') = allow l k now c in
      let rest = answers_to l name calls c' in if k == name then answer ∷ rest else rest

  -- A limiter that serves one client only.
  abbrev pub alone : Limiter Bucket → List ℕ → Bucket → List Bool
  alone l [] b = []
  alone l (now ∷ times) b = let (answer, b') = l.allow_one now b in answer ∷ alone l times b'

  -- In every order of calls, each client gets the answers of a limiter that serves it alone: the calls
  -- of the others, and when its own limiter is made, change none of them.
  pub answers_apart :
      (l : Limiter Bucket) (name : String) (calls : List (String × ℕ)) (c : Clients Bucket)
      → answers_to l name calls c ≡ alone l (times_of name calls) (client l name c)
  unfolding allow
  answers_apart l name [] c = refl
  answers_apart l name ((k, now) ∷ calls) c =
      let b = (l.allow_one now (client l k c)).1 in
      elim (Bool-cases (k == name)) [
        | inl e ↦
            rw (e, answers_apart l name calls (store k b c), client-store l k name b c, e)
              (rw ((eq_iff k name).0 e) refl)
        | inr e ↦
            rw (e, answers_apart l name calls (store k b c), client-store l k name b c, e) refl
      ]
