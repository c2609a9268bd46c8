-- ===== src/Api/Dispatching/Bounds.antt =====
-- The sizes that the retry queue of internal/dispatcher/dispatcher.go keeps.
use acb_go.Prelude.{
  length-drop, drop, ℕ, suc, zero, ◌-◌, ◌≤◌, ◌<◌, String, ◌≡◌, refl, subst, sym, Bool, true, false,
  Option, none, some, List, [], ◌∷◌, ◌++◌, arith, if◌then◌else◌, length, length-append, All,
}
use acb_go.Session.{Env, World, ok}
use acb_go.Api.Dispatching.Retries.{
  RetryEntry, Sender, keep_last, enqueue_retry, retry_parsed, retry_entry, drain,
}
use acb_go.Api.Dispatching.Outcomes.{Gives, Gives-pure, Gives-bind, retry-Gives}

abbrev pub IsSmall : Option RetryEntry → Type 0
IsSmall none = Unit {0}
IsSmall (some x) = x.attempt ≤ 5

-- At most 1000 entries, none of which stands for a sixth attempt.
abbrev pub IsBounded : {Json : Type 0} → Sender Json → List Json → Type 0
IsBounded s q = (length q ≤ 1000) × All (λ d. IsSmall (s.unmarshal d)) q

module _ {Json : Type 0} (P : Json → Type 0) where
  All-drop : (n : ℕ) (q : List Json) → All P q → All P (drop n q)
  All-drop zero q p = p
  All-drop (suc n) [] p = p
  All-drop (suc n) (d ∷ q) p = All-drop n q p.1

  All-append : (q r : List Json) → All P q → All P r → All P (q ++ r)
  All-append [] r p p' = p'
  All-append (d ∷ q) r p p' = (p.0, All-append q r p.1 p')

module _ {Json : Type 0} (s : Sender Json)
    (h : (x : RetryEntry) → s.unmarshal (s.marshal x) ≡ some x) where
  IsBounded-if :
      (b : Bool) (q r : List Json)
      → IsBounded s q
      → IsBounded s r
      → IsBounded s (if b then q else r)
  IsBounded-if true q r p p' = p
  IsBounded-if false q r p p' = p'

  IsSmall-marshal : (x : RetryEntry) → x.attempt ≤ 5 → IsSmall (s.unmarshal (s.marshal x))
  IsSmall-marshal x l = subst IsSmall (sym (h x)) l

  enqueue_retry-IsBounded :
      (name id : String) (n : ℕ) (q : List Json)
      → IsBounded s q
      → n < 5
      → IsBounded s (enqueue_retry s name id n q)
  unfolding enqueue_retry keep_last
  enqueue_retry-IsBounded name id n q p l =
      let x : RetryEntry = record { task_id = id; agent_name = name; attempt = suc n } in
      let kept = drop (length q - 999) q in
      IsBounded-if s.has_rdb (kept ++ (s.marshal x ∷ [])) q
        (
          omega (arith, length-append kept (s.marshal x ∷ []), length-drop (length q - 999) q),
          All-append (λ d. IsSmall (s.unmarshal d)) kept (s.marshal x ∷ [])
              (All-drop (λ d. IsSmall (s.unmarshal d)) (length q - 999) q p.1)
              (IsSmall-marshal x (omega arith), tt),
        )
        p

  parsed-IsBounded :
      (o : Option RetryEntry) (q : List Json)
      → IsBounded s q
      → Gives (IsBounded s) (retry_parsed s o q)
  parsed-IsBounded none q p = Gives-pure (IsBounded s) q p
  parsed-IsBounded (some x) q p =
      retry-Gives s (IsBounded s) x.attempt q p
        (λ name id l. enqueue_retry-IsBounded name id x.attempt q p l) x refl

  drain-Gives : (n : ℕ) (q : List Json) → IsBounded s q → Gives (IsBounded s) (drain s n q)
  unfolding drain retry_entry
  drain-Gives zero q p = Gives-pure (IsBounded s) q p
  drain-Gives (suc n) [] p = Gives-pure (IsBounded s) [] p
  drain-Gives (suc n) (d ∷ q) p =
      Gives-bind (IsBounded s) (IsBounded s) _ _
        (parsed-IsBounded (s.unmarshal d) q (omega (arith, p.0), p.1.1)) λ r p'. drain-Gives n r p'

-- If reading the text of an entry gives the entry, a queue of at most 1000 entries with attempts up to
-- 5 is such a queue after any number of rounds of the loop over it, in every environment, whichever
-- reads fail and whatever the webhooks answer; no round ends in an error. Redis does not fail, and
-- nobody else adds to the queue meanwhile.
pub drain-IsBounded :
    {Json : Type 0} (s : Sender Json) (n : ℕ) (q : List Json) (e : Env) (w : World)
    → ((x : RetryEntry) → s.unmarshal (s.marshal x) ≡ some x)
    → IsBounded s q
    → (r : List Json) × (v : World) × (drain s n q e w ≡ (ok r, v)) × IsBounded s r
drain-IsBounded s n q e w h p = (drain-Gives s h n q p).at e w
