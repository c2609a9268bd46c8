-- ===== src/Db/Migrations/Once.antt =====
-- Each migration of internal/db/schema.go is applied once.
use acb_go.Prelude.{
  ℕ, zero, suc, ◌+◌, ◌≤◌, ◌≡◌, refl, ◌∙◌, ap, ◌⊎◌, inl, inr, Bool, true, false, List, [], ◌∷◌, leb,
  arith, Bool-cases,
}
use acb_go.Db.Migrations.{
  Schema, empty_schema, Run, commit, max_version, apply_migration, unless_failed, apply_each,
  migrations, run_migrations,
}

-- The n numbers after v.
abbrev numbers : (v n : ℕ) → List ℕ
numbers v zero = []
numbers v (suc n) = suc v ∷ numbers (suc v) n

-- The first migrations are applied, each once and in order, and recorded.
abbrev pub up_to : ℕ → Schema
up_to k = record { versions = numbers 0 k; applied = numbers 0 k }

-- The starts of the program before, each with the calls that fail.
abbrev pub starts : List (ℕ → Bool) → Schema → Schema
starts [] s = s
starts (fails ∷ rest) s = starts rest (run_migrations fails s).1.schema

module _ (fails : ℕ → Bool) where
  applies :
      (v : ℕ) (r : Run)
      → (((apply_migration fails v r).0 ≡ false)
          × ((apply_migration fails v r).1.schema ≡ r.schema))
        ⊎ (((apply_migration fails v r).0 ≡ true)
            × ((apply_migration fails v r).1.schema ≡ commit v r.schema))
  unfolding apply_migration
  applies v r = ground arith

  -- What a start leaves where k migrations were applied before.
  Reached : ℕ → Bool × Run → Type 0
  Reached k out = (j : ℕ) × (k ≤ j) × (j ≤ 3) × (out.1.schema ≡ up_to j) × (out.0 ≡ true → j ≡ 3)

  commit_next : (v : ℕ) → v ≤ 2 → commit (suc v) (up_to v) ≡ up_to (suc v)
  unfolding commit
  commit_next zero h = refl
  commit_next (suc zero) h = refl
  commit_next (suc (suc zero)) h = refl
  commit_next (suc (suc (suc n))) h = absurd (omega arith)

  -- One migration, and what follows it.
  stops :
      (v : ℕ) (out : Bool × Run) (rest : Run → Bool × Run)
      → v ≤ 3
      → out.0 ≡ false
      → out.1.schema ≡ up_to v
      → Reached v (unless_failed out rest)
  unfolding Reached
  stops v (true, r) rest h f s = cc
  stops v (false, r) rest h f s = (v, omega arith, h, s, λ x. cc)

  goes :
      (v : ℕ) (out : Bool × Run) (rest : Run → Bool × Run)
      → out.0 ≡ true
      → Reached (suc v) (rest out.1)
      → Reached v (unless_failed out rest)
  unfolding Reached
  goes v (true, r) rest f (j, a, b, s, d) = (j, omega arith, b, s, d)
  goes v (false, r) rest f h = cc

  climbs :
      (current n v : ℕ) (r : Run)
      → current ≤ v
      → v + n ≡ 3
      → r.schema ≡ up_to v
      → Reached v (apply_each fails current (numbers v n) r)
  unfolding apply_each
  climbs current zero v r c h s =
      unfold Reached in (v, omega arith, omega arith, s, λ x. omega arith)
  climbs current (suc n) v r c h s =
      let b : leb (suc v) current ≡ false = ground arith in
      let out = apply_migration fails (suc v) r in
      let rest : Run → Bool × Run = apply_each fails current (numbers (suc v) n) in
      rw b (elim (applies (suc v) r) [
        | inl (f, k) ↦ stops v out rest (omega arith) f (k ∙ s)
        | inr (f, k) ↦ goes v out rest f (
            climbs current n (suc v) out.1 (omega arith) (omega arith)
              (k ∙ (ap (commit (suc v)) s ∙ commit_next v (omega arith))))
      ])

  -- The loop passes over what was applied.
  passes :
      (k : ℕ) (r : Run)
      → k ≤ 3
      → r.schema ≡ up_to k
      → Reached k (apply_each fails (max_version (up_to k).versions) migrations r)
  unfolding apply_each
  passes zero r h s = climbs 0 3 0 r (omega arith) (omega arith) s
  passes (suc zero) r h s = climbs 1 2 1 r (omega arith) (omega arith) s
  passes (suc (suc zero)) r h s = climbs 2 1 2 r (omega arith) (omega arith) s
  passes (suc (suc (suc zero))) r h s = climbs 3 0 3 r (omega arith) (omega arith) s
  passes (suc (suc (suc (suc n)))) r h s = absurd (omega arith)

  start : (k : ℕ) → k ≤ 3 → Reached k (run_migrations fails (up_to k))
  unfolding run_migrations
  start k h = elim (Bool-cases (fails 0)) [
    | inl a ↦ rw a (unfold Reached in (k, omega arith, h, refl, λ x. cc))
    | inr a ↦ elim (Bool-cases (fails 1)) [
      | inl b ↦ rw (a, b) (unfold Reached in (k, omega arith, h, refl, λ x. cc))
      | inr b ↦ rw (a, b) (passes k _ h refl)
    ]
  ]

  -- Where no call fails.
  module _ (up : (n : ℕ) → fails n ≡ false) where
    each_succeeds : (current : ℕ) (vs : List ℕ) (r : Run) → (apply_each fails current vs r).0 ≡ true
    unfolding apply_each apply_migration
    each_succeeds current [] r = refl
    each_succeeds current (v ∷ vs) r = elim (Bool-cases (leb v current)) [
      | inl b ↦ rw b (each_succeeds current vs r)
      | inr b ↦
          rw (b, up r.calls, up (r.calls + 1), up (r.calls + 2), up (r.calls + 3))
            (each_succeeds current vs _)
    ]

    succeeds : (s : Schema) → (run_migrations fails s).0 ≡ true
    unfolding run_migrations
    succeeds s = rw (up 0, up 1) (each_succeeds (max_version s.versions) migrations _)

restarts :
    (earlier : List (ℕ → Bool)) (k : ℕ)
    → k ≤ 3
    → (j : ℕ) × (j ≤ 3) × (starts earlier (up_to k) ≡ up_to j)
unfolding Reached
restarts [] k h = (k, h, refl)
restarts (fails ∷ rest) k h =
    let (j, _, b, s, _) = start fails k h in
    let (i, c, t) = restarts rest j b in (i, c, ap (starts rest) s ∙ t)

-- Whatever calls of the database failed in earlier starts of the program, each of which may have ended at
-- any of them, a start leaves some number of the first migrations, each applied once, in order, and
-- recorded, and never fewer than before; and if it reports no error, all three are applied. A start in
-- which no call fails reports none.
pub run_migrations_once :
    (earlier : List (ℕ → Bool)) (fails : ℕ → Bool)
    → (k j : ℕ) × (starts earlier empty_schema ≡ up_to k)
      × (k ≤ j)
      × (j ≤ 3)
      × ((run_migrations fails (starts earlier empty_schema)).1.schema ≡ up_to j)
      × ((run_migrations fails (starts earlier empty_schema)).0 ≡ true → j ≡ 3)
      × (((n : ℕ) → fails n ≡ false)
          → (run_migrations fails (starts earlier empty_schema)).0 ≡ true)
unfolding Reached
run_migrations_once earlier fails =
    let (k, h, s) = restarts earlier 0 (omega arith) in
    let (j, a, b, t, d) = start fails k h in
    (k, j, s, a, b, rw s t, rw s d, λ up. succeeds fails up (starts earlier empty_schema))
