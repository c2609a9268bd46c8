-- ===== src/Api/Dispatching/Queue/Overlap.antt =====
-- How long a retry queue gets when calls of enqueueRetry in internal/dispatcher/dispatcher.go overlap.
use acb_go.Prelude.{
  ℕ, zero, suc, ◌+◌, ◌-◌, ◌≤◌, ◌≡◌, refl, ap, some, List, [], ◌∷◌, ◌++◌, arith, length,
  length-append, length-drop, subst,
}
use acb_go.Api.Dispatching.Retries.{keep_last}
use acb_go.Api.Dispatching.Queue.{
  Queue, empty_queue, Command, trim, pop, push, popped, pushed, execute, Interleaves, stay, after,
}

module _ {Json : Type 0} where
  length-keep_last : (n : ℕ) (q : List Json) → length (keep_last n q) ≤ n
  unfolding keep_last
  length-keep_last n q = ground (arith, length-drop (length q - n) q)

  length-popped : (q : List Json) → length (popped q) ≤ length q
  length-popped [] = omega arith
  length-popped (d ∷ q) = omega arith

  -- A list that is not too long is not cut.
  uncut : (n : ℕ) (q : List Json) → length q ≤ n → keep_last n q ≡ q
  unfolding keep_last
  uncut n q h = let k : length q - n ≡ 0 = omega arith in rw k refl

  Fits : ℕ → Queue Json → Type 0
  Fits m q = length q.entries + q.halfway ≤ 999 + m

  Fits-pushed :
      (m n : ℕ) (d : Json) (l : List Json) (s : Queue Json)
      → pushed n d l ≡ some s
      → length l + n ≤ 999 + m
      → Fits m s
  unfolding Fits
  Fits-pushed m zero d l s h f = cc
  Fits-pushed m (suc n) d l s h f =
      let e : record { entries = l ++ d ∷ []; halfway = n } ≡ s = cc in
      subst (λ t. length t.entries + t.halfway ≤ 999 + m) e
        (ground (arith, f, length-append l (d ∷ [])))

  execute-Fits :
      (m : ℕ) (c : Command Json) (q s : Queue Json)
      → execute c q ≡ some s
      → s.halfway ≤ m
      → Fits m q
      → Fits m s
  unfolding execute Fits
  execute-Fits m trim q s h b f =
      let e : record { entries = keep_last 999 q.entries; halfway = suc q.halfway } ≡ s = cc in
      let l = length-keep_last 999 q.entries in
      let k : length s.entries ≤ 999 = subst (λ t. length t.entries ≤ 999) e l in omega arith
  execute-Fits m pop q s h b f =
      let e : record q { entries = popped q.entries } ≡ s = cc in
      let l = length-popped q.entries in
      subst (λ t. length t.entries + t.halfway ≤ 999 + m) e (omega arith)
  execute-Fits m (push d) q s h b f = unfold Fits in Fits-pushed m q.halfway d q.entries s h f

  interleaves-Fits : (m : ℕ) (q : Queue Json) → Interleaves m (empty_queue Json) q → Fits m q
  unfolding Fits
  interleaves-Fits m q stay = omega arith
  interleaves-Fits m q (after {r} p c h b) = execute-Fits m c r q h b (interleaves-Fits m r p)

  abbrev queue : List Json → ℕ → Queue Json
  queue l n = record { entries = l; halfway = n }

  -- Both trim, then both push.
  overlaps :
      (l : List Json) (x y : Json)
      → length l ≡ 999
      → Interleaves 2 (queue l 0) (queue ((l ++ x ∷ []) ++ y ∷ []) 0)
  unfolding execute
  overlaps l x y h =
      let k : (n : ℕ) → execute trim (queue l n) ≡ some (queue l (suc n)) =
        λ n. ap (λ t. some (queue t (suc n))) (uncut 999 l (omega arith)) in
      after {r = queue (l ++ x ∷ []) 1}
        (after {r = queue l 2}
          (after {r = queue l 1} (after {r = queue l 0} stay trim (k 0) (omega arith)) trim (k 1)
            (omega arith))
          (push x) refl (omega arith))
        (push y) refl (omega arith)

-- If at most m calls of enqueueRetry overlap, a queue never has more than 999 + m entries, in every
-- interleaving of their commands with each other and with the loops over the queue; so calls that do not
-- overlap keep it within 1000 entries. Two that do overlap can leave 1001: they do so from every queue of
-- 999 entries, if both trim before either of them pushes.
pub length-Interleaves :
    {Json : Type 0} (m : ℕ) (q : Queue Json) (l : List Json) (x y : Json)
    → Interleaves m (empty_queue Json) q
    → length l ≡ 999
    → (length q.entries ≤ 999 + m)
      × ((r : Queue Json) × Interleaves 2 (record { entries = l; halfway = 0 }) r
          × (r.halfway ≡ 0)
          × (length r.entries ≡ 1001))
unfolding Fits
length-Interleaves m q l x y p h =
    let f = interleaves-Fits m q p in
    (
      omega arith,
      (
        record { entries = (l ++ x ∷ []) ++ y ∷ []; halfway = 0 },
        overlaps l x y h,
        refl,
        ground (arith, h, length-append l (x ∷ []), length-append (l ++ x ∷ []) (y ∷ [])),
      ),
    )
