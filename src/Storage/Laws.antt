-- ===== src/Storage/Laws.antt =====
-- What internal/rustfs relies on of the MinIO library, for a client that is alone at its bucket.
use acb_go.Prelude.{String, ◌≡◌, ◌≢◌, ◌↔◌, Bool, true, Option, none, some, List}
use text.Mathlib.Text.{starts_with}
use acb_go.Config.{contains}
use acb_go.Session.{Env, World, Blob, object_in, ok}
use acb_go.Storage.Bucket.{Minio, Stat, found, fails, keys_of}

-- A call of the library changes the bucket only, and there the object of one key only.
pub record Touches (key : String) (w v : World) : Type 0 where
  pub same_store : v.store ≡ w.store
  pub same_calls : v.calls ≡ w.calls
  pub same_spawned : v.spawned ≡ w.spawned
  pub others : (k : String) → key ≢ k → object_in v.objects k ≡ object_in w.objects k

abbrev pub Tells : Option Blob → Stat → Type 0
Tells o (found b) = o ≡ some b
Tells o (fails code) = code ≡ "NoSuchKey" → o ≡ none

-- Without an error, PutObject and RemoveObject do what they say; Stat tells of an object that is there
-- and of a key that is not; a list without errors has the keys of the objects under a prefix.
pub record IsBucket (s : Minio) : Type 0 where
  pub put :
      (key : String) (b : Blob) (e : Env) (w : World)
      → (a : Bool) × (v : World) × (s.put_object key b e w ≡ (ok a, v))
        × Touches key w v
        × (a ≡ true → object_in v.objects key ≡ some b)
  pub remove :
      (key : String) (e : Env) (w : World)
      → (a : Bool) × (v : World) × (s.remove_object key e w ≡ (ok a, v))
        × Touches key w v
        × (a ≡ true → object_in v.objects key ≡ none)
  pub stat :
      (key : String) (e : Env) (w : World)
      → (a : Stat) × (s.stat_object key e w ≡ (ok a, w)) × Tells (object_in w.objects key) a
  pub list :
      (prefix : String) (e : Env) (w : World)
      → (l : List (Option String)) × (s.list_objects prefix e w ≡ (ok l, w))
        × ((keys : List String)
            → keys_of l ≡ some keys
            → (k : String)
            → (contains keys k ≡ true)
              ↔ ((starts_with k prefix ≡ true) × (object_in w.objects k ≢ none)))

-- Each call of the check of the bucket comes back, with an error as a value.
pub record IsUp (s : Minio) : Type 0 where
  pub exists :
      (e : Env) (w : World) → (a : Option Bool) × (v : World) × (s.bucket_exists e w ≡ (ok a, v))
  pub make : (e : Env) (w : World) → (a : Bool) × (v : World) × (s.make_bucket e w ≡ (ok a, v))
