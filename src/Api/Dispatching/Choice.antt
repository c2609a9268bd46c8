-- ===== src/Api/Dispatching/Choice.antt =====
-- The sort at the end of FindNextForAgent: which of the eligible tasks comes out.
use acb_go.Prelude.{
  ◌≡◌, refl, sym, subst, ap, Bool, true, false, Option, none, some, List, [], ◌∷◌, ◌++◌,
  if◌then◌else◌, arith, Bool-cases, inl, inr, ◌⊎◌, All, filter,
}
use acb_go.Prelude.Int.{ltb_ℤ, ◌≤ℤ◌, ◌<ℤ◌}
use acb_go.Models.{Task}
use acb_go.Api.TaskHandler.Reads.{best_of, best}

module _ (p : Task → Bool) where
  -- Among the tasks that pass the test, b has the smallest number, and is the first that has it.
  pub record IsFirst (b : Task) (ts : List Task) : Type 0 where
    pub before : List Task
    pub rest : List Task
    pub place : ts ≡ before ++ b ∷ rest
    pub passes : p b ≡ true
    pub ahead : All (λ t. p t ≡ true → b.priority <ℤ t.priority) before
    pub behind : All (λ t. p t ≡ true → b.priority ≤ℤ t.priority) rest

  IsFirst-skip :
      (b t : Task) (ts : List Task)
      → (p t ≡ true → b.priority <ℤ t.priority)
      → IsFirst b ts
      → IsFirst b (t ∷ ts)
  IsFirst-skip b t ts h f = record {
    before = t ∷ f.before;
    rest = f.rest;
    place = ap (λ l. t ∷ l) f.place;
    passes = f.passes;
    ahead = (h, f.ahead);
    behind = f.behind;
  }

  -- The loop of the sort, from the task b on.
  Keeps : Task → List Task → Task → Type 0
  Keeps b ts c = (c ≡ b) × All (λ t. p t ≡ true → b.priority ≤ℤ t.priority) ts

  Finds : Task → List Task → Task → Type 0
  Finds b ts c = (c.priority <ℤ b.priority) × IsFirst c ts

  Scanned : Task → List Task → Task → Type 0
  Scanned b ts c = Keeps b ts c ⊎ Finds b ts c

  passed_over :
      (b t : Task) (ts : List Task)
      → p t ≡ false
      → best_of b (filter p ts) ≡ best_of b (filter p (t ∷ ts))
  passed_over b t ts n = rw n refl

  lowered :
      (b t : Task) (ts : List Task)
      → p t ≡ true
      → ltb_ℤ t.priority b.priority ≡ true
      → best_of t (filter p ts) ≡ best_of b (filter p (t ∷ ts))
  unfolding best_of
  lowered b t ts y l = rw (y, if◌then◌else◌) (rw l refl)

  not_lowered :
      (b t : Task) (ts : List Task)
      → p t ≡ true
      → ltb_ℤ t.priority b.priority ≡ false
      → best_of b (filter p ts) ≡ best_of b (filter p (t ∷ ts))
  unfolding best_of
  not_lowered b t ts y l = rw (y, if◌then◌else◌) (rw l refl)

  scan : (b : Task) (ts : List Task) → Scanned b ts (best_of b (filter p ts))
  unfolding best_of Scanned Keeps Finds
  scan b [] = inl (refl, tt)
  scan b (t ∷ ts) = elim (Bool-cases (p t)) [
    | inr n ↦ subst (Scanned b (t ∷ ts)) (passed_over b t ts n) (elim (scan b ts) [
      | inl (e, a) ↦ inl (e, ((λ h. ground arith), a))
      | inr (l, f) ↦ inr (l, IsFirst-skip _ t ts (λ h. ground arith) f)
    ])
    | inl y ↦ elim (Bool-cases (ltb_ℤ t.priority b.priority)) [
      | inl l ↦ subst (Scanned b (t ∷ ts)) (lowered b t ts y l) (elim (scan t ts) [
        | inl (e, a) ↦ inr (
          subst (λ c. c.priority <ℤ b.priority) (sym e) (ground arith),
          subst (λ c. IsFirst c (t ∷ ts)) (sym e)
              (record { before = []; rest = ts; place = refl; passes = y; ahead = tt; behind = a }),
        )
        | inr (k, f) ↦ inr (ground arith, IsFirst-skip _ t ts (λ h. k) f)
      ])
      | inr g ↦ subst (Scanned b (t ∷ ts)) (not_lowered b t ts y g) (elim (scan b ts) [
        | inl (e, a) ↦ inl (e, ((λ h. ground arith), a))
        | inr (l, f) ↦ inr (l, IsFirst-skip _ t ts (λ h. ground arith) f)
      ])
    ]
  ]

  -- What the whole sort gives.
  abbrev pub Chosen : List Task → Option Task → Type 0
  Chosen ts none = All (λ t. p t ≡ false) ts
  Chosen ts (some b) = IsFirst b ts

  Chosen-after :
      (t : Task) (ts : List Task) (o : Option Task) → p t ≡ false → Chosen ts o → Chosen (t ∷ ts) o
  Chosen-after t ts none n c = (n, c)
  Chosen-after t ts (some b) n c = IsFirst-skip b t ts (λ h. ground arith) c

  -- The sort picks the first of the tasks with the smallest number among those that pass the test, and
  -- nothing only if none passes.
  pub best-filter : (ts : List Task) → Chosen ts (best (filter p ts))
  unfolding best Scanned Keeps Finds
  best-filter [] = tt
  best-filter (t ∷ ts) = elim (Bool-cases (p t)) [
    | inr n ↦
        subst (Chosen (t ∷ ts)) (rw n refl)
          (Chosen-after t ts (best (filter p ts)) n (best-filter ts))
    | inl y ↦
        subst (Chosen (t ∷ ts)) {x = some (best_of t (filter p ts))} (rw y refl) (elim (scan t ts) [
          | inl (e, a) ↦
              subst (λ c. IsFirst c (t ∷ ts)) (sym e)
                (record {
                  before = [];
                  rest = ts;
                  place = refl;
                  passes = y;
                  ahead = tt;
                  behind = a;
                })
          | inr (l, f) ↦ IsFirst-skip _ t ts (λ h. l) f
        ])
  ]
