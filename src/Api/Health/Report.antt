-- ===== src/Api/Health/Report.antt =====
-- What the report of internal/api/health.go says.
use acb_go.Prelude.{
  String, ◌≡◌, refl, ◌∙◌, ◌↔◌, inl, inr, Bool, true, false, ◌||◌, Option, none, some, List, [], ◌∷◌,
  if◌then◌else◌, arith, Any, ◌⊎◌, eq_iff, Bool-cases,
}
use acb_go.Session.{Env, World, Error, ok, err, storage_failed, pure, throw, if_nil}
use acb_go.Session.Quiet.{bind-ok, bind-err, on_error-ok, on_error-err}
use acb_go.Storage
use acb_go.Storage.Bucket
use acb_go.Storage.Bucket.{Minio, checked}
use acb_go.Storage.{Client, connected, enabled_op}
use acb_go.Storage.Laws.{IsUp}
use acb_go.Api.Response.{ComponentStatus, health_json, write_json}
use acb_go.Api.Health.{
  Pinged, no_client, answers, fails, status_of, is_broken, check_storage, health,
}

-- A check that is in the report with an error.
abbrev pub Broken : String × ComponentStatus → Type 0
Broken c = c.1.status ≡ "error"

-- The three checks.
abbrev pub report : (database redis storage : Pinged) → List (String × ComponentStatus)
report database redis storage =
    ("database", status_of database)
    ∷ ("redis", status_of redis)
    ∷ ("storage", status_of storage)
    ∷ []

abbrev grade : (a b c : Pinged) → String
grade a b c = if is_broken a || (is_broken b || is_broken c) then "degraded" else "ok"

status-broken : (p : Pinged) → ((status_of p).status ≡ "error") ↔ (is_broken p ≡ true)
unfolding status_of
status-broken no_client = ground (arith, eq_iff "disabled" "error")
status-broken answers = ground (arith, eq_iff "ok" "error")
status-broken (fails message) = ground arith

module _ (s : Minio) (up : IsUp s) (bucket : String) (e : Env) where
  -- How EnsureBucket ends.
  data Ensured (w : World) : Type 0 where
    ensured :
        (v : World) → Storage.ensure_bucket (connected bucket (some s)) e w ≡ (ok tt, v) → Ensured w
    failed :
        (v : World)
        → Storage.ensure_bucket (connected bucket (some s)) e w ≡ (err storage_failed, v)
        → Ensured w

  makes :
      (w : World) (a : Bool) (v u : World)
      → s.bucket_exists e w ≡ (ok (some false), u)
      → s.make_bucket e u ≡ (ok a, v)
      → Ensured w
  unfolding Storage.ensure_bucket Bucket.bucket_exists Bucket.make_bucket enabled_op if_nil pure
      throw
  makes w true v u h k = ensured v (
      bind-ok e (Bucket.bucket_exists s) _ w u false
        (bind-ok e s.bucket_exists _ w u (some false) h)
      ∙ bind-ok e s.make_bucket checked u v true k)
  makes w false v u h k = failed v (
      bind-ok e (Bucket.bucket_exists s) _ w u false
        (bind-ok e s.bucket_exists _ w u (some false) h)
      ∙ bind-ok e s.make_bucket checked u v false k)

  found_bucket :
      (w : World) (a : Option Bool) (u : World) → s.bucket_exists e w ≡ (ok a, u) → Ensured w
  unfolding Storage.ensure_bucket Bucket.bucket_exists enabled_op if_nil pure throw
  found_bucket w none u h = failed u (
      bind-err e (Bucket.bucket_exists s) _ w u storage_failed
        (bind-ok e s.bucket_exists _ w u none h))
  found_bucket w (some true) u h = ensured u (
      bind-ok e (Bucket.bucket_exists s) _ w u true (bind-ok e s.bucket_exists _ w u (some true) h))
  found_bucket w (some false) u h = let (a, v, k) = up.make e u in makes w a v u h k

  ensures : (w : World) → Ensured w
  ensures w = let (a, u, h) = up.exists e w in found_bucket w a u h

-- What the report says of the storage, from a client, and from the way EnsureBucket ends if there is
-- one.
pub data Stored (text : Error → String) (storage : Option Minio) (bucket : String) (e : Env)
    (w : World) (p : Pinged) (v : World) : Type 0 where
  absent : storage ≡ none → p ≡ no_client → v ≡ w → Stored text storage bucket e w p v
  works :
      (s : Minio)
      → storage ≡ some s
      → Storage.ensure_bucket (connected bucket storage) e w ≡ (ok tt, v)
      → p ≡ answers
      → Stored text storage bucket e w p v
  broken :
      (s : Minio)
      → storage ≡ some s
      → Storage.ensure_bucket (connected bucket storage) e w ≡ (err storage_failed, v)
      → p ≡ fails (text storage_failed)
      → Stored text storage bucket e w p v

-- The check of the storage ends, and gives what EnsureBucket says.
abbrev Checks : (text : Error → String) → Option Minio → (bucket : String) → Env → World → Type 0
Checks text storage bucket e w =
    (p : Pinged) × (v : World) × (check_storage text (some (connected bucket storage)) e w
      ≡ (ok p, v))
    × Stored text storage bucket e w p v

Ensured-Checks :
    (s : Minio) (up : IsUp s) (bucket : String) (e : Env) (text : Error → String) (w : World)
    → Ensured s up bucket e w
    → Checks text (some s) bucket e w
unfolding check_storage pure
Ensured-Checks s up bucket e text w (Ensured.ensured v h) = (
  answers,
  v,
  on_error-ok e _ _ w v answers
      (bind-ok e (Storage.ensure_bucket (connected bucket (some s))) _ w v tt h),
  Stored.works s refl h refl,
)
Ensured-Checks s up bucket e text w (Ensured.failed v h) = (
  fails (text storage_failed),
  v,
  on_error-err e _ _ w v storage_failed
      (bind-err e (Storage.ensure_bucket (connected bucket (some s))) _ w v storage_failed h),
  Stored.broken s refl h refl,
)

Checks-any :
    (storage : Option Minio) (bucket : String) (text : Error → String) (e : Env) (w : World)
    → ((s : Minio) → storage ≡ some s → IsUp s)
    → Checks text storage bucket e w
unfolding check_storage pure
Checks-any none bucket text e w up = (no_client, w, refl, Stored.absent refl refl refl)
Checks-any (some s) bucket text e w up =
    Ensured-Checks s (up s refl) bucket e text w (ensures s (up s refl) bucket e w)

graded :
    (a b c : Pinged)
    → (Any Broken (report a b c) × (grade a b c ≡ "degraded"))
      ⊎ ((Any Broken (report a b c) → ⊥) × (grade a b c ≡ "ok"))
graded a b c = elim (Bool-cases (is_broken a || (is_broken b || is_broken c))) [
  | inl h ↦ inl (ground (arith, h, status-broken a, status-broken b, status-broken c), rw h refl)
  | inr h ↦ inr (ground (arith, h, status-broken a, status-broken b, status-broken c), rw h refl)
]

-- The health check answers 200 in every environment, if the storage's calls come back: it reports the
-- database, Redis and the storage, in this order, and its status is "degraded" if one of them is in
-- error, and "ok" otherwise. The storage is reported as disabled if there is no client, as "ok" if
-- EnsureBucket succeeds, and in error, with the text of the error, if EnsureBucket fails.
pub health-Broken :
    (text : Error → String) (database redis : Pinged) (storage : Option Minio) (bucket : String)
    (e : Env) (w : World)
    → ((s : Minio) → storage ≡ some s → IsUp s)
    → (stored : Pinged) × (status : String) × (v : World) × (health text database redis
          (some (connected bucket storage))
          e
          w
        ≡ (ok (write_json 200 (health_json status (report database redis stored))), v))
      × ((Any Broken (report database redis stored) × (status ≡ "degraded"))
          ⊎ ((Any Broken (report database redis stored) → ⊥) × (status ≡ "ok")))
      × Stored text storage bucket e w stored v
unfolding health pure
health-Broken text database redis storage bucket e w up =
    let (p, v, h, n) = Checks-any storage bucket text e w up in
    (
      p,
      grade database redis p,
      v,
      bind-ok e (check_storage text (some (connected bucket storage))) _ w v p h,
      graded database redis p,
      n,
    )
