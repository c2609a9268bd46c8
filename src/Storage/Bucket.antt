-- ===== src/Storage/Bucket.antt =====
-- internal/rustfs/minio_store.go. The MinIO library is a parameter: each call gives its result as a value.
use acb_go.Prelude.{
  String, Bool, true, false, not, Option, none, some, List, [], ◌∷◌, ◌==◌, if◌then◌else◌,
}
use acb_go.Session.{M, Blob, storage_failed, object_not_found, pure, throw, if_nil, ◌>>=◌}

-- What Stat gives: the object, or an error with its code.
pub data Stat : Type 0 where
  found : Blob → Stat
  fails : (code : String) → Stat

-- The calls of minio.Client. A Boolean says that there was no error; an element of the channel of
-- ListObjects is a key, or an error.
pub record Minio : Type 0 where
  pub put_object : String → Blob → M Bool
  pub get_object : String → M Bool
  pub stat_open : String → M Stat
  pub stat_object : String → M Stat
  pub remove_object : String → M Bool
  pub list_objects : (prefix : String) → M (List (Option String))
  pub bucket_exists : M (Option Bool)
  pub make_bucket : M Bool

abbrev pub checked : Bool → M (Unit {0})
checked true = pure tt
checked false = throw storage_failed

unfoldable pub upload : Minio → String → Blob → M (Unit {0})
upload s key b = s.put_object key b >>= checked

unfoldable pub opened : Stat → M Blob
opened (found b) = pure b
opened (fails code) = if code == "NoSuchKey" then throw object_not_found else throw storage_failed

unfoldable pub download : Minio → String → M Blob
download s key = do
  ok ← s.get_object key
  if not ok then throw storage_failed else s.stat_open key >>= opened

unfoldable pub delete : Minio → String → M (Unit {0})
delete s key = s.remove_object key >>= checked

unfoldable pub is_there : Stat → M Bool
is_there (found b) = pure true
is_there (fails code) = if code == "NoSuchKey" then pure false else throw storage_failed

unfoldable pub exists : Minio → String → M Bool
exists s key = s.stat_object key >>= is_there

unfoldable pub bucket_exists : Minio → M Bool
bucket_exists s = s.bucket_exists >>= λ b. if_nil b (throw storage_failed) pure

unfoldable pub make_bucket : Minio → M (Unit {0})
make_bucket s = s.make_bucket >>= checked

-- The loop over the channel, up to the first error.
abbrev pub keys_of : List (Option String) → Option (List String)
keys_of [] = some []
keys_of (none ∷ rest) = none
keys_of (some key ∷ rest) = elim (keys_of rest) [ none ↦ none | some keys ↦ some (key ∷ keys) ]

unfoldable pub list_objects : Minio → (prefix : String) → M (List String)
list_objects s prefix =
    s.list_objects prefix >>= λ l. if_nil (keys_of l) (throw storage_failed) pure
