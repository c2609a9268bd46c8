-- ===== src/Storage.antt =====
-- internal/rustfs: the client of the object storage (client.go) over the methods of minioStore
-- (minio_store.go, in Bucket).
pub mod Bucket
pub mod Laws
use acb_go.Prelude.{
  ℕ, String, Bool, true, false, not, ◌||◌, Option, none, some, List, [], ◌∷◌, ◌==◌, if◌then◌else◌,
}
use acb_go.Session.{M, Blob, storage_failed, object_not_found, pure, throw, if_nil, ◌>>=◌}
use acb_go.Storage.Bucket
use acb_go.Storage.Bucket.{Minio}

-- The client; `store` is nil where there is none.
pub record Client : Type 0 where
  pub store : Option Minio
  pub bucket : String
  pub enabled : Bool

abbrev pub no_client : Client
no_client = record { store = none; bucket = ""; enabled = false }

abbrev pub connected : (bucket : String) → Option Minio → Client
connected bucket none = no_client
connected bucket (some s) = record { store = some s; bucket = bucket; enabled = true }

-- NewClient; `connect` is newMinioStore, which gives nil where minio.New fails.
unfoldable pub new_client :
    (connect : Option Minio) → (endpoint access_key secret_key bucket : String) → Client
new_client connect endpoint access_key secret_key bucket =
    if endpoint == "" || (access_key == "" || secret_key == "")
    then no_client
    else connected bucket connect

unfoldable pub enabled_op : Client → Option Minio
enabled_op c = if c.enabled then c.store else none

unfoldable pub upload : Client → String → Blob → M (Unit {0})
upload c key b = if_nil (enabled_op c) (pure tt) λ s. Bucket.upload s key b

unfoldable pub download : Client → String → M Blob
download c key = if_nil (enabled_op c) (throw object_not_found) λ s. Bucket.download s key

unfoldable pub delete : Client → String → M (Unit {0})
delete c key = if_nil (enabled_op c) (pure tt) λ s. Bucket.delete s key

unfoldable pub exists : Client → String → M Bool
exists c key = if_nil (enabled_op c) (pure false) λ s. Bucket.exists s key

unfoldable pub ensure_bucket : Client → M (Unit {0})
ensure_bucket c =
    if_nil (enabled_op c) (pure tt)
      λ s. do present ← Bucket.bucket_exists s; if present then pure tt else Bucket.make_bucket s

unfoldable pub list_objects : Client → (prefix : String) → M (List String)
list_objects c prefix =
    if_nil (enabled_op c) (throw storage_failed) λ s. Bucket.list_objects s prefix
