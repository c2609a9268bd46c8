-- ===== src/Api/Dispatching/Draining.antt =====
-- The loop over a retry queue of internal/dispatcher/dispatcher.go ends.
use acb_go.Prelude.{
  drop, ℕ, suc, zero, ◌+◌, ◌-◌, ◌*◌, ◌≤◌, ◌<◌, String, ◌≡◌, refl, Bool, true, false, Option, none,
  some, List, [], ◌∷◌, ◌++◌, arith, if◌then◌else◌, length,
}
use acb_go.Session.{Env, World, ok}
use acb_go.Api.Dispatching.Retries.{
  RetryEntry, Sender, keep_last, enqueue_retry, retry_parsed, retry_entry, drain,
}
use acb_go.Api.Dispatching.Outcomes.{Gives, Gives-pure, Gives-bind, retry-Gives}

-- How many more times an entry can be taken from the queue.
abbrev weigh : Option RetryEntry → ℕ
weigh none = 1
weigh (some x) = suc (5 - x.attempt)

abbrev weight : {Json : Type 0} → Sender Json → List Json → ℕ
weight s [] = 0
weight s (d ∷ q) = weigh (s.unmarshal d) + weight s q

weight-append :
    {Json : Type 0} (s : Sender Json) (q r : List Json)
    → weight s (q ++ r) ≡ weight s q + weight s r
weight-append s [] r = omega arith
weight-append s (d ∷ q) r = omega (arith, weight-append s q r)

weight-drop :
    {Json : Type 0} (s : Sender Json) (n : ℕ) (q : List Json) → weight s (drop n q) ≤ weight s q
weight-drop s zero q = omega arith
weight-drop s (suc n) [] = omega arith
weight-drop s (suc n) (d ∷ q) = omega (arith, weight-drop s n q)

weigh_small : (o : Option RetryEntry) → weigh o ≤ 6
weigh_small none = omega arith
weigh_small (some x) = omega arith

weight_small : {Json : Type 0} (s : Sender Json) (q : List Json) → weight s q ≤ 6 * length q
weight_small s [] = omega arith
weight_small s (d ∷ q) = omega (arith, weight_small s q, weigh_small (s.unmarshal d))

weight_if :
    {Json : Type 0} (s : Sender Json) (b : Bool) (q r : List Json) (k : ℕ)
    → weight s q < k
    → weight s r < k
    → weight s (if b then q else r) < k
weight_if s true q r k g h = g
weight_if s false q r k g h = h

-- A retry that fails puts back an entry of less weight.
pushed :
    {Json : Type 0} (s : Sender Json) (name id : String) (n : ℕ) (q : List Json)
    → ((x : RetryEntry) → s.unmarshal (s.marshal x) ≡ some x)
    → n < 5
    → weight s (enqueue_retry s name id n q) < suc (5 - n) + weight s q
unfolding enqueue_retry keep_last
pushed s name id n q h l =
    let x : RetryEntry = record { task_id = id; agent_name = name; attempt = suc n } in
    weight_if s s.has_rdb _ q _
      (rw (weight-append s (drop (length q - 999) q) (s.marshal x ∷ []), h x)
        (omega (arith, weight-drop s (length q - 999) q)))
      (omega arith)

emptied : (o : Option RetryEntry) (k : ℕ) → weigh o + k ≤ 0 → ⊥
emptied none k l = omega arith
emptied (some x) k l = omega arith

module _ {Json : Type 0} (s : Sender Json)
    (h : (x : RetryEntry) → s.unmarshal (s.marshal x) ≡ some x) where
  parsed-Gives :
      (o : Option RetryEntry) (q : List Json)
      → Gives (λ r. weight s r < weigh o + weight s q) (retry_parsed s o q)
  parsed-Gives none q = Gives-pure _ q (omega arith)
  parsed-Gives (some x) q =
      retry-Gives s (λ r. weight s r < suc (5 - x.attempt) + weight s q) x.attempt q (omega arith)
        (λ name id l. pushed s name id x.attempt q h l) x refl

  drain-Gives : (n : ℕ) (q : List Json) → weight s q ≤ n → Gives (λ r. r ≡ []) (drain s n q)
  unfolding drain retry_entry
  drain-Gives zero [] l = Gives-pure _ [] refl
  drain-Gives zero (d ∷ q) l = absurd (emptied (s.unmarshal d) (weight s q) l)
  drain-Gives (suc n) [] l = Gives-pure _ [] refl
  drain-Gives (suc n) (d ∷ q) l =
      Gives-bind _ _ _ _ (parsed-Gives (s.unmarshal d) q) λ r p. drain-Gives n r (omega arith)

-- If reading the text of an entry gives the entry, six times the length of the queue is enough fuel:
-- in every environment, whichever reads fail and whatever the webhooks answer, the loop over an
-- agent's retry queue ends without an error and with an empty queue, although a failed retry is put
-- back into the queue that is being emptied. Redis does not fail, and nobody else adds
-- to the queue meanwhile.
pub drain_ends :
    {Json : Type 0} (s : Sender Json) (n : ℕ) (q : List Json) (e : Env) (w : World)
    → ((x : RetryEntry) → s.unmarshal (s.marshal x) ≡ some x)
    → 6 * length q ≤ n
    → (drain s n q e w).0 ≡ ok []
drain_ends s n q e w h l =
    let (r, v, p, z) = (drain-Gives s h n q (omega (arith, weight_small s q))).at e w in
    rw (p, z) refl
