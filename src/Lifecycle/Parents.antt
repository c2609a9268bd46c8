-- ===== src/Lifecycle/Parents.antt =====
-- What AreParentsCompleted of internal/db/task_repo.go decides by counting rows.
use acb_go.Prelude.{
  is_empty, ◌+◌, ◌≤◌, String, ◌≡◌, refl, Bool, true, false, ◌&&◌, none, some, List, [], ◌∷◌, arith,
  ◌==◌, eq_iff, count, length, All, eqb, eqb→eq, eq→eqb, ◌↔◌, Bool-cases, Option-cases, inl, inr,
  if◌then◌else◌,
}
use acb_go.Models.{Status, is, Task}
use acb_go.Config.{contains}
use acb_go.Db.Rows.{find, key-find, Unique, absent_count, refused_count, admitted_count}
use acb_go.Db.Store.{HasKeys}
use acb_go.Session.{Env, World, ok, arrive, query, pure}
use acb_go.Db.TaskRepo.Reads.{are_parents_completed}

-- The id names a completed task.
abbrev pub done : List Task → String → Bool
done ts id = elim (find Task.id id ts) [ none ↦ false | some t ↦ is t.status Status.completed ]

abbrev pub Distinct : List String → Type 0
Distinct [] = Unit
Distinct (id ∷ ids) = (contains ids id ≡ false) × Distinct ids

abbrev wanted : List String → Task → Bool
wanted ids t = contains ids t.id && is t.status Status.completed

abbrev names : String → Task → Bool
names id t = t.id == id && is t.status Status.completed

names_key : (id : String) (t : Task) → names id t ≡ true → t.id ≡ id
names_key id t h = ground (arith, eq_iff t.id id)

-- The rows of one id.
names-done :
    (id : String) (ts : List Task)
    → Unique Task.id ts
    → count (names id) ts ≡ (if done ts id then 1 else 0)
names-done id ts u = elim (Option-cases (find Task.id id ts)) [
  | inl e ↦ ground (arith, absent_count Task.id (names id) (λ t. t) id (names_key id) ts e)
  | inr (t, e) ↦ elim (Bool-cases (names id t)) [
    | inl y ↦ ground (
      arith,
      admitted_count Task.id (names id) (λ t. t) id (names_key id) ts t u e y,
      eq_iff t.id id,
    )
    | inr n ↦ ground (
      arith,
      refused_count Task.id (names id) (λ t. t) id (names_key id) ts t u e n,
      key-find Task.id id ts t e,
      eq_iff t.id id,
    )
  ]
]

count_split :
    (id : String) (ids : List String) (ts : List Task)
    → contains ids id ≡ false
    → count (wanted (id ∷ ids)) ts ≡ count (names id) ts + count (wanted ids) ts
unfolding contains
count_split id ids [] h = refl
count_split id ids (t ∷ ts) h =
    ground (arith, count_split id ids ts h, eq_iff t.id id, eq_iff id t.id)

count_again :
    (id : String) (ids : List String) (ts : List Task)
    → contains ids id ≡ true
    → count (wanted (id ∷ ids)) ts ≡ count (wanted ids) ts
unfolding contains
count_again id ids [] h = refl
count_again id ids (t ∷ ts) h =
    ground (arith, count_again id ids ts h, eq_iff t.id id, eq_iff id t.id)

none_wanted : (ts : List Task) → count (wanted []) ts ≡ 0
unfolding contains
none_wanted [] = refl
none_wanted (t ∷ ts) = none_wanted ts

module _ (ts : List Task) (u : Unique Task.id ts) where
  wanted_bound : (ids : List String) → count (wanted ids) ts ≤ length ids
  unfolding contains
  wanted_bound [] = omega (arith, none_wanted ts)
  wanted_bound (id ∷ ids) = elim (Bool-cases (contains ids id)) [
    | inl h ↦ omega (arith, count_again id ids ts h, wanted_bound ids)
    | inr h ↦ ground (arith, count_split id ids ts h, names-done id ts u, wanted_bound ids)
  ]

  -- The count reaches the number of ids only if they are distinct and all done.
  wanted-All :
      (ids : List String)
      → count (wanted ids) ts ≡ length ids
      → Distinct ids × All (λ id. done ts id ≡ true) ids
  wanted-All [] h = (tt, tt)
  wanted-All (id ∷ ids) h = elim (Bool-cases (contains ids id)) [
    | inl c ↦ absurd (omega (arith, count_again id ids ts c, wanted_bound ids, h))
    | inr c ↦
        let n = count_split id ids ts c in
        let d = names-done id ts u in
        let rest = wanted-All ids (ground (arith, n, d, wanted_bound ids, h)) in
        ((c, rest.0), (ground (arith, n, d, wanted_bound ids, h), rest.1))
  ]

  wanted_full :
      (ids : List String)
      → Distinct ids
      → All (λ id. done ts id ≡ true) ids
      → count (wanted ids) ts ≡ length ids
  wanted_full [] d a = none_wanted ts
  wanted_full (id ∷ ids) d a =
      ground (arith, count_split id ids ts d.0, names-done id ts u, wanted_full ids d.1 a.1, a.0)

-- The ids are distinct, and each one names a completed task.
abbrev pub AllDone : List Task → List String → Type 0
AllDone ts ids = Distinct ids × All (λ id. done ts id ≡ true) ids

-- No parents are all done.
pub AllDone-is_empty : (ts : List Task) (ids : List String) → is_empty ids ≡ true → AllDone ts ids
AllDone-is_empty ts [] h = (tt, tt)
AllDone-is_empty ts (id ∷ ids) h = cc

-- What the query computes.
abbrev pub parents_test : List Task → List String → Bool
parents_test ts ids = eqb (count (wanted ids) ts) (length ids)

pub test_exact :
    (ts : List Task) (ids : List String)
    → Unique Task.id ts
    → (parents_test ts ids ≡ true) ↔ AllDone ts ids
test_exact ts ids u =
    (λ h. wanted-All ts u ids (eqb→eq _ _ h), λ h. eq→eqb _ _ (wanted_full ts u ids h.0 h.1))

-- On a query that is answered, from tables with unique keys, the check says yes exactly if the ids
-- are distinct and each one names a completed task: an id that is given twice makes it say no for
-- good.
pub parents_exact :
    (ids : List String) (e : Env) (w : World)
    → HasKeys (arrive e w).store
    → (e.turn w.calls).down ≡ false
    → (b : Bool) × ((are_parents_completed ids e w).0 ≡ ok b)
      × ((b ≡ true) ↔ AllDone (arrive e w).store.tasks ids)
unfolding are_parents_completed query pure
parents_exact [] e w k up = (true, refl, (λ h. (tt, tt), λ h. refl))
parents_exact (id ∷ ids) e w k up = (
  parents_test (arrive e w).store.tasks (id ∷ ids),
  rw up refl,
  test_exact (arrive e w).store.tasks (id ∷ ids) k.tasks_unique,
)
