-- ===== src/Api/Uploading.antt =====
-- UploadArtifact of internal/api/artifact_handler.go, run alone.
use acb_go.Prelude.{
  ℕ, String, ◌<>◌, ◌≡◌, ◌≢◌, refl, sym, ◌∙◌, ap, inl, inr, Bool, true, false, Option, none, some,
  List, [], ◌∷◌, ◌++◌, arith, eqb, Bool-cases, Option-cases,
}
use acb_go.Config.{Config}
use acb_go.Models.{Task, Artifact}
use acb_go.Db.Rows.{find, Unique}
use acb_go.Session.{
  Env, World, Blob, object_in, M, ok, storage_failed, pure, throw, get_env, deref, if_nil,
}
use acb_go.Session.Quiet.{IsQuiet, ticked, bind-ok, respond-ok, respond-err}
use acb_go.Storage
use acb_go.Storage.Bucket
use acb_go.Storage.Bucket.{Minio, checked}
use acb_go.Storage.{connected, enabled_op}
use acb_go.Storage.Laws.{IsBucket, Touches}
use acb_go.Db.TaskRepo.Reads.{get_by_id, scanned}
use acb_go.Db.TaskRepo.Quiet.{get_by_id_quiet}
use acb_go.Db.TaskRepo.Moves.{Rewrites}
use acb_go.Db.TaskRepo.Artifacts.{add_artifact}
use acb_go.Db.TaskRepo.Listing.{add_artifact_quiet}
use acb_go.Api.Response.{Response, artifact_json, write_json, write_error, write_error_safe}
use acb_go.Api.TaskHandler.Transitions.{task_not_found}
use acb_go.Api.ArtifactHandler.{
  FormFile, Multipart, mebibytes, with_task, object_key, store_object, upload_file, upload_artifact,
}

module _ (s : Minio) (bucket : String) (m : Multipart) (e : Env) (id : String) where
  -- What an upload of a file leaves in the bucket, with the entry for the row of the task.
  pub record Placed (f : FormFile) (w v : World) (a : Artifact) : Type 0 where
    pub head : List ℕ
    pub name : String
    pub read : f.head ≡ some head
    pub keyed : a.key ≡ id <> ("/" <> name)
    pub in_bucket : a.bucket ≡ bucket
    pub sized : a.size ≡ f.size
    pub typed : a.content_type ≡ m.detect head
    pub object :
        object_in v.objects a.key
        ≡ some (record { content = head ++ f.rest; size = f.size; content_type = m.detect head })
    pub others : (k : String) → a.key ≢ k → object_in v.objects k ≡ object_in w.objects k

  -- How the request ends, with the field `file` of the form, if it gets that far.
  pub data Uploads (limits : Config) (w : World) (p : M Response) : Type 0 where
    refused :
        (answer : Response) (v : World)
        → p e w ≡ (ok answer, v)
        → answer.code ≢ 201
        → v.store ≡ w.store
        → ((k : String)
            → ((name : String) → k ≢ id <> ("/" <> name))
            → object_in v.objects k ≡ object_in w.objects k)
        → Uploads limits w p
    uploaded :
        (t : Task) (f : FormFile) (a : Artifact) (v : World)
        → p e w ≡ (ok (write_json 201 (artifact_json a)), v)
        → find Task.id id w.store.tasks ≡ some t
        → m.parse_form (mebibytes limits.max_upload_size_mb) ≡ some (some f)
        → f.size ≢ 0
        → Rewrites id (record t { artifacts = t.artifacts ++ a ∷ [] }) w v
        → Placed f w v a
        → Uploads limits w p

  refused_here :
      (limits : Config) (w v : World) (p : M Response) (code : ℕ) (error message : String)
      → p e w ≡ (ok (write_error code error message), v)
      → code ≢ 201
      → v.store ≡ w.store
      → v.objects ≡ w.objects
      → Uploads limits w p
  unfolding write_error write_json
  refused_here limits w v p code error message h n st o =
      refused (write_error code error message) v h n st (λ k x. ap (λ l. object_in l k) o)

  module _ (law : IsBucket s) (q : IsQuiet e) (limits : Config) (c : e.cfg ≡ some limits)
      (w : World) (unique : Unique Task.id w.store.tasks) (t : Task)
      (row : find Task.id id w.store.tasks ≡ some t) (f : FormFile)
      (form : m.parse_form (mebibytes limits.max_upload_size_mb) ≡ some (some f))
      (size : f.size ≢ 0) (head : List ℕ) (read : f.head ≡ some head) where
    name : String
    name = e.uuid (ticked w).calls <> ("-" <> f.filename)

    key : String
    key = id <> ("/" <> name)

    blob : Blob
    blob = record { content = head ++ f.rest; size = f.size; content_type = m.detect head }

    entry : Artifact
    entry = record { key = key; bucket = bucket; size = f.size; content_type = m.detect head }

    -- After PutObject.
    put_by :
        (a : Bool) (u : World) (p : M Response)
        → p e w ≡ store_object (connected bucket (some s)) id key blob e (ticked w)
        → s.put_object key blob e (ticked w) ≡ (ok a, u)
        → Touches key (ticked w) u
        → (a ≡ true → object_in u.objects key ≡ some blob)
        → Uploads limits w p
    unfolding store_object Storage.upload Bucket.upload enabled_op if_nil write_error_safe
        write_error write_json pure throw key blob entry
    put_by false u p h r k g =
        refused _ u
          (h
            ∙ respond-err e (Storage.upload (connected bucket (some s)) key blob) _ _ (ticked w) u
                storage_failed (bind-ok e _ checked (ticked w) u false r))
          (ground arith) k.same_store (λ j n. k.others j (λ x. n name (sym x)))
    put_by true u p h r k g =
        let u' : Unique Task.id u.store.tasks = rw k.same_store unique in
        let row' : find Task.id id u.store.tasks ≡ some t = rw k.same_store row in
        let (v, x, (z, o)) = add_artifact_quiet e q id u t u' row' entry in
        uploaded t f entry v
          (h
            ∙ (respond-ok e (Storage.upload (connected bucket (some s)) key blob) _ _ (ticked w) u
                  tt (bind-ok e _ checked (ticked w) u true r)
                ∙ respond-ok e (add_artifact id entry) _ _ u v tt x))
          row form size
          (record {
            new_row = z.new_row;
            other_rows = λ j n. z.other_rows j n ∙ ap (λ st. find Task.id j st.tasks) k.same_store;
          })
          (record {
            head = head;
            name = name;
            read = read;
            keyed = refl;
            in_bucket = refl;
            sized = refl;
            typed = refl;
            object = ap (λ l. object_in l key) o ∙ g refl;
            others = λ j n. ap (λ l. object_in l j) o ∙ k.others j n;
          })

    puts :
        (p : M Response)
        → p e w ≡ store_object (connected bucket (some s)) id key blob e (ticked w)
        → Uploads limits w p
    puts p h = let (a, u, r, k, g) = law.put key blob e (ticked w) in put_by a u p h r k g

  module _ (law : IsBucket s) (q : IsQuiet e) (limits : Config) (c : e.cfg ≡ some limits)
      (w : World) (unique : Unique Task.id w.store.tasks) (t : Task)
      (row : find Task.id id w.store.tasks ≡ some t) (p : M Response) where
    -- From the file of the form on.
    of_file :
        (f : FormFile)
        → m.parse_form (mebibytes limits.max_upload_size_mb) ≡ some (some f)
        → p e w ≡ upload_file (connected bucket (some s)) m id f e (ticked w)
        → Uploads limits w p
    unfolding upload_file object_key if_nil pure key blob name
    of_file f form h = elim (Bool-cases (eqb f.size 0)) [
      | inl z ↦
          refused_here limits w (ticked w) p 400 "empty_file" "file is empty"
            (h ∙ rw (z, upload_file) refl) (ground arith) refl refl
      | inr z ↦ elim (Option-cases f.head) [
        | inl n ↦
            refused_here limits w (ticked w) p 400 "read_error" "failed to read file"
              (h ∙ rw (z, n, upload_file) refl) (ground arith) refl refl
        | inr (head, n) ↦ puts law q limits c w unique t row f form (ground arith) head n p (
            h
            ∙ rw (z, n, upload_file)
                (bind-ok e (object_key id f.filename) _ (ticked w) (ticked w) _ refl))
      ]
    ]

    of_form :
        (o : Option (Option FormFile))
        → m.parse_form (mebibytes limits.max_upload_size_mb) ≡ o
        → p e w
          ≡ if_nil o
              (pure (write_error 400 "invalid_form" "failed to parse multipart form"))
              (λ file.
                if_nil file
                  (pure (write_error 400 "missing_file" "file field is required"))
                  (upload_file (connected bucket (some s)) m id))
              e
              (ticked w)
        → Uploads limits w p
    unfolding if_nil pure
    of_form none g h =
        refused_here limits w (ticked w) p 400 "invalid_form" "failed to parse multipart form" h
          (ground arith) refl refl
    of_form (some none) g h =
        refused_here limits w (ticked w) p 400 "missing_file" "file field is required" h
          (ground arith) refl refl
    of_form (some (some f)) g h = of_file f g h

  -- A request that runs alone, with a bucket that behaves as the MinIO library promises and on tables
  -- with unique ids, either is refused with an answer other than 201, with the tables as they were and
  -- every object outside the task's keys untouched, or it is answered with 201: then the file of the form
  -- is not empty, its content, size and detected type are stored under a key that starts with the task's
  -- id and a slash, the entry that is answered is at the end of the list in the row of the task, and
  -- nothing else changed in the rows of tasks or in the bucket.
  pub upload_artifact-Uploads :
      IsBucket s
      → IsQuiet e
      → (limits : Config) (w : World) → e.cfg ≡ some limits
      → Unique Task.id w.store.tasks
      → Uploads limits w (upload_artifact (connected bucket (some s)) m id)
  unfolding upload_artifact with_task task_not_found if_nil write_error_safe write_error write_json
      pure get_env deref
  upload_artifact-Uploads law q limits w c u = elim (Option-cases (find Task.id id w.store.tasks)) [
    | inl n ↦
        refused _ (ticked w)
          (respond-ok e (get_by_id id) _ _ w (ticked w) none (get_by_id_quiet e q id w ∙ rw n refl))
          (ground arith) refl (λ k x. refl)
    | inr (t, row) ↦
        of_form law q limits c w u t row _ (m.parse_form (mebibytes limits.max_upload_size_mb)) refl
          (respond-ok e (get_by_id id) _ _ w (ticked w) (scanned (some t))
              (get_by_id_quiet e q id w ∙ rw row refl)
            ∙ (bind-ok e (get_env (λ x. x.cfg)) _ (ticked w) (ticked w) (some limits)
                  (ap (λ o. (ok o, ticked w)) c)
                ∙ bind-ok e (deref (some limits)) _ (ticked w) (ticked w) limits refl))
  ]
