-- ===== src/Api/ArtifactHandler.antt =====
-- internal/api/artifact_handler.go.
use acb_go.Prelude.{
  ◌*◌, ◌+◌, ℕ, String, ◌<>◌, not, Option, List, [], ◌∷◌, ◌++◌, ◌==◌, eqb, if◌then◌else◌,
}
use acb_go.Prelude.Int.{ℤ, pos, negsuc}
use acb_go.Models.{Artifact}
use acb_go.Session.{
  M, Error, Blob, object_not_found, pure, get_env, deref, if_nil, or_respond, ◌>>=◌,
}
use acb_go.Storage
use acb_go.Storage.{Client}
use acb_go.Db.TaskRepo.Reads.{get_by_id}
use acb_go.Db.TaskRepo.Artifacts.{get_artifacts, add_artifact, remove_artifact, set_artifacts_json}
use acb_go.Api.Response.{
  Response, no_body, artifact_json, artifacts_json, object_body, write_json, write_error,
  write_error_safe,
}
use acb_go.Api.TaskHandler.Transitions.{task_not_found}

-- The lookup of the task that every handler starts with.
unfoldable pub with_task : String → M Response → M Response
with_task id rest =
    or_respond (get_by_id id) (λ x. write_error_safe 500 "get_failed")
      λ task. if_nil task task_not_found λ t. rest

-- The field `file` of the form. `head` is what io.ReadFull reads of up to 512 bytes, or `none` for an
-- error, and `rest` what follows.
pub record FormFile : Type 0 where
  pub filename : String
  pub size : ℕ
  pub head : Option (List ℕ)
  pub rest : List ℕ

-- What net/http does: ParseMultipartForm with its limit for the memory, `none` for an error, then
-- FormFile; and DetectContentType.
pub record Multipart : Type 0 where
  pub parse_form : (max_memory : ℤ) → Option (Option FormFile)
  pub detect : List ℕ → String

-- n << 20.
abbrev pub mebibytes : ℤ → ℤ
mebibytes (pos n) = pos (n * 1048576)
mebibytes (negsuc n) = negsuc (n * 1048576 + 1048575)

-- uuid.New().String(); the key's text.
unfoldable pub object_key : (id filename : String) → M String
object_key id filename e w = pure (id <> ("/" <> (e.uuid w.calls <> ("-" <> filename)))) e w

-- From the upload on.
unfoldable pub store_object : Client → (id key : String) → Blob → M Response
store_object c id key b =
    or_respond (Storage.upload c key b) (λ x. write_error_safe 500 "upload_failed")
      λ _.
        let artifact : Artifact = record {
          key = key;
          bucket = c.bucket;
          size = b.size;
          content_type = b.content_type;
        } in
        or_respond (add_artifact id artifact) (λ x. write_error_safe 500 "add_artifact_failed")
          λ _. pure (write_json 201 (artifact_json artifact))

unfoldable pub upload_file : Client → Multipart → (id : String) → FormFile → M Response
upload_file c m id f =
    if eqb f.size 0
    then pure (write_error 400 "empty_file" "file is empty")
    else if_nil f.head (pure (write_error 400 "read_error" "failed to read file")) λ head. do
      key ← object_key id f.filename
      store_object c id key
          (record { content = head ++ f.rest; size = f.size; content_type = m.detect head })

unfoldable pub upload_artifact : Client → Multipart → (id : String) → M Response
upload_artifact c m id = with_task id (do
  cfg ← get_env (λ e. e.cfg)
  limits ← deref cfg
  if_nil (m.parse_form (mebibytes limits.max_upload_size_mb))
      (pure (write_error 400 "invalid_form" "failed to parse multipart form"))
      λ file.
        if_nil file (pure (write_error 400 "missing_file" "file field is required"))
          (upload_file c m id))

unfoldable pub list_artifacts : (id : String) → M Response
list_artifacts id = with_task id (
    or_respond (get_artifacts id) (λ x. write_error_safe 500 "list_failed")
      λ artifacts. pure (write_json 200 (artifacts_json artifacts)))

unfoldable pub missing_key : M Response
missing_key = pure (write_error 400 "missing_key" "key query parameter is required")

unfoldable pub download_error : Error → Response
download_error object_not_found = write_error 404 "not_found" "artifact not found"
download_error _ = write_error_safe 500 "download_failed"

unfoldable pub download_artifact : Client → (id key : String) → M Response
download_artifact c id key =
    if key == ""
    then missing_key
    else with_task id (
        or_respond (Storage.download c key) download_error
          λ b. pure (write_json 200 (object_body b)))

-- `key` is the query parameter, or `none` where the query has none.
unfoldable pub list_or_download : Client → (id : String) → (key : Option String) → M Response
list_or_download c id key = if_nil key (list_artifacts id) (download_artifact c id)

-- From the removal of the object on.
unfoldable pub remove_object : Client → (id key : String) → M Response
remove_object c id key =
    or_respond (Storage.delete c key) (λ x. write_error_safe 500 "delete_failed")
      λ _.
        or_respond (remove_artifact id key) (λ x. write_error_safe 500 "remove_artifact_failed")
          λ _. pure (write_json 204 no_body)

unfoldable pub delete_artifact : Client → (id key : String) → M Response
delete_artifact c id key =
    if key == ""
    then missing_key
    else with_task id (
        or_respond (Storage.exists c key) (λ x. write_error_safe 500 "check_failed")
          λ present.
            if present
            then remove_object c id key
            else pure (write_error 404 "not_found" "artifact not found"))

-- The loop over the listed keys, with what follows it.
unfoldable pub delete_each : Client → List String → M Response → M Response
delete_each c [] rest = rest
delete_each c (key ∷ keys) rest =
    let others = delete_each c keys rest in
    or_respond (Storage.delete c key) (λ x. write_error_safe 500 "delete_failed") λ _. others

unfoldable pub cleanup_artifacts : Client → (id : String) → M Response
cleanup_artifacts c id = with_task id (
    if not c.enabled
    then pure (write_error 503 "rustfs_disabled" "RustFS storage not configured")
    else or_respond (Storage.list_objects c (id <> "/")) (λ x. write_error_safe 500 "list_failed")
        λ objects. delete_each c objects (
          or_respond (set_artifacts_json id []) (λ x. write_error_safe 500 "clear_artifacts_failed")
            λ _. pure (write_json 200 no_body)))
