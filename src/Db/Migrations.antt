-- ===== src/Db/Migrations.antt =====
-- RunMigrations of internal/db/schema.go: which migrations run, whatever calls of the database fail. What
-- the statements of a migration do is left out.
pub mod Once
use acb_go.Prelude.{
  ℕ, zero, suc, ◌+◌, Bool, true, false, List, [], ◌∷◌, ◌++◌, ◌||◌, eqb, leb, if◌then◌else◌,
}

-- The rows of schema_version, and the migrations whose statements were committed, in their order.
pub record Schema : Type 0 where
  pub versions : List ℕ
  pub applied : List ℕ

-- Before any start.
abbrev pub empty_schema : Schema
empty_schema = record { versions = []; applied = [] }

-- The calls of the database so far, and what they left.
pub record Run : Type 0 where
  pub calls : ℕ
  pub schema : Schema

abbrev pub is_in : ℕ → List ℕ → Bool
is_in v [] = false
is_in v (x ∷ xs) = eqb x v || is_in v xs

-- A transaction that is committed: the statements, and INSERT ... ON CONFLICT DO NOTHING.
unfoldable pub commit : ℕ → Schema → Schema
commit v s = record {
  versions = if is_in v s.versions then s.versions else s.versions ++ v ∷ [];
  applied = s.applied ++ v ∷ [];
}

-- COALESCE(MAX(version), 0).
abbrev pub max_version : List ℕ → ℕ
max_version [] = 0
max_version (x ∷ xs) = let m = max_version xs in if leb m x then x else m

-- After so many calls that changed nothing.
abbrev pub called : ℕ → Run → Run
called n r = record r { calls = r.calls + n }

-- Begin, the statements, the INSERT and Commit: an error of any ends the run, with no error as `true`;
-- nothing of the transaction is left then.
unfoldable pub apply_migration : (fails : ℕ → Bool) → (version : ℕ) → Run → Bool × Run
apply_migration fails version r =
    if fails r.calls
    then (false, called 1 r)
    else if fails (r.calls + 1)
    then (false, called 2 r)
    else if fails (r.calls + 2)
    then (false, called 3 r)
    else if fails (r.calls + 3)
    then (false, called 4 r)
    else (true, record { calls = r.calls + 4; schema = commit version r.schema })

abbrev pub unless_failed : Bool × Run → (Run → Bool × Run) → Bool × Run
unless_failed (true, r) rest = rest r
unless_failed (false, r) rest = (false, r)

-- The loop over the migrations.
unfoldable pub apply_each : (fails : ℕ → Bool) → (current : ℕ) → List ℕ → Run → Bool × Run
apply_each fails current [] r = (true, r)
apply_each fails current (version ∷ versions) r =
    let rest : Run → Bool × Run = apply_each fails current versions in
    if leb version current then rest r else unless_failed (apply_migration fails version r) rest

abbrev pub migrations : List ℕ
migrations = 1 ∷ 2 ∷ 3 ∷ []

-- One start of the program.
unfoldable pub run_migrations : (fails : ℕ → Bool) → Schema → Bool × Run
run_migrations fails s =
    if fails 0
    then (false, record { calls = 1; schema = s })
    else if fails 1
    then (false, record { calls = 2; schema = s })
    else apply_each fails (max_version s.versions) migrations (record { calls = 2; schema = s })
