-- ===== src/Api/Deleting.antt =====
-- DeleteArtifact of internal/api/artifact_handler.go, run alone.
use acb_go.Prelude.{
  String, ◌≡◌, ◌≢◌, refl, ◌∙◌, ap, inl, inr, true, false, not, none, some, filter, ◌==◌, eq_iff,
  arith, Bool-cases, Option-cases, if◌then◌else◌,
}
use acb_go.Models.{Task}
use acb_go.Db.Rows.{find, Unique}
use acb_go.Session.{Env, World, object_in, M, ok, storage_failed, pure, throw, or_respond, if_nil}
use acb_go.Session.Quiet.{IsQuiet, ticked, bind-ok, respond-ok, respond-err}
use acb_go.Storage
use acb_go.Storage.Bucket
use acb_go.Storage.Bucket.{Minio, Stat, found, fails, is_there}
use acb_go.Storage.{connected, enabled_op}
use acb_go.Storage.Laws.{IsBucket}
use acb_go.Db.TaskRepo.Reads.{get_by_id, scanned}
use acb_go.Db.TaskRepo.Quiet.{get_by_id_quiet}
use acb_go.Db.TaskRepo.Moves.{Rewrites}
use acb_go.Db.TaskRepo.Artifacts.{remove_artifact}
use acb_go.Db.TaskRepo.Listing.{remove_artifact_quiet}
use acb_go.Api.Response.{Response, no_body, write_json, write_error, write_error_safe}
use acb_go.Api.TaskHandler.Transitions.{task_not_found}
use acb_go.Api.ArtifactHandler.{missing_key, with_task, remove_object, delete_artifact}
use acb_go.Api.Cleaning.{Deletes, deletes}

-- How the request ends.
pub data Removes (id key : String) (e : Env) (w : World) (p : M Response) : Type 0 where
  kept :
      (answer : Response) (v : World)
      → p e w ≡ (ok answer, v)
      → answer.code ≢ 204
      → v.store ≡ w.store
      → ((k : String) → key ≢ k → object_in v.objects k ≡ object_in w.objects k)
      → Removes id key e w p
  removed :
      (t : Task) (v : World)
      → p e w ≡ (ok (write_json 204 no_body), v)
      → key ≢ ""
      → find Task.id id w.store.tasks ≡ some t
      → Rewrites id (record t { artifacts = filter (λ a. not (a.key == key)) t.artifacts }) w v
      → object_in v.objects key ≡ none
      → ((k : String) → key ≢ k → object_in v.objects k ≡ object_in w.objects k)
      → Removes id key e w p

module _ (s : Minio) (law : IsBucket s) (bucket : String) (e : Env) (q : IsQuiet e)
    (id key : String) (w : World) where
  kept_here :
      (v : World) (p : M Response) (code : _) (error message : String)
      → p e w ≡ (ok (write_error code error message), v)
      → code ≢ 204
      → v.store ≡ w.store
      → v.objects ≡ w.objects
      → Removes id key e w p
  unfolding write_error write_json
  kept_here v p code error message h n st o =
      kept (write_error code error message) v h n st (λ k x. ap (λ l. object_in l k) o)

  module _ (unique : Unique Task.id w.store.tasks) (t : Task)
      (row : find Task.id id w.store.tasks ≡ some t) (given : key ≢ "") (p : M Response) where
    after_delete :
        p e w ≡ remove_object (connected bucket (some s)) id key e (ticked w)
        → Deletes s law bucket e key (ticked w)
        → Removes id key e w p
    unfolding remove_object write_error_safe write_error write_json pure
    after_delete h (Deletes.refused u r k) =
        kept _ u
          (h
            ∙ respond-err e (Storage.delete (connected bucket (some s)) key) _ _ (ticked w) u
                storage_failed r)
          (ground arith) k.same_store k.others
    after_delete h (Deletes.deleted u r k g) =
        let u' : Unique Task.id u.store.tasks = rw k.same_store unique in
        let row' : find Task.id id u.store.tasks ≡ some t = rw k.same_store row in
        let (v, x, (z, o)) = remove_artifact_quiet e q id u t u' row' key in
        removed t v
          (h
            ∙ (respond-ok e (Storage.delete (connected bucket (some s)) key) _ _ (ticked w) u tt r
                ∙ respond-ok e (remove_artifact id key) _ _ u v tt x))
          given row
          (record {
            new_row = z.new_row;
            other_rows = λ j n. z.other_rows j n ∙ ap (λ st. find Task.id j st.tasks) k.same_store;
          })
          (ap (λ l. object_in l key) o ∙ g) (λ j n. ap (λ l. object_in l j) o ∙ k.others j n)

    by_stat :
        (a : Stat)
        → p e w
          ≡ or_respond
              (Storage.exists (connected bucket (some s)) key)
              (λ x. write_error_safe 500 "check_failed")
              (λ present.
                if present
                then remove_object (connected bucket (some s)) id key
                else pure (write_error 404 "not_found" "artifact not found"))
              e
              (ticked w)
        → s.stat_object key e (ticked w) ≡ (ok a, ticked w)
        → Removes id key e w p
    unfolding Storage.exists Bucket.exists is_there enabled_op if_nil pure throw write_error_safe
        write_error write_json
    by_stat (found b) h r =
        after_delete
          (h
            ∙ respond-ok e _ _ _ (ticked w) (ticked w) true
                (bind-ok e (s.stat_object key) is_there (ticked w) (ticked w) (found b) r))
          (deletes s law bucket e key (ticked w))
    by_stat (fails code) h r = elim (Bool-cases (code == "NoSuchKey")) [
      | inl n ↦
          kept _ (ticked w)
            (h
              ∙ respond-ok e _ _ _ (ticked w) (ticked w) false (
                  bind-ok e (s.stat_object key) is_there (ticked w) (ticked w) (fails code) r
                  ∙ rw n refl))
            (ground arith) refl (λ k x. refl)
      | inr n ↦
          kept _ (ticked w)
            (h
              ∙ respond-err e _ _ _ (ticked w) (ticked w) storage_failed (
                  bind-ok e (s.stat_object key) is_there (ticked w) (ticked w) (fails code) r
                  ∙ rw n refl))
            (ground arith) refl (λ k x. refl)
    ]

  -- A deletion that runs alone, with a bucket that behaves as the MinIO library promises and on tables
  -- with unique ids, either is refused with an answer other than 204, with the tables as they were, or it
  -- is answered with 204: then the key is not empty, its object is gone, and the row of the task has lost
  -- the entries of this key. In both cases no other object is touched, and no other row of a task changes,
  -- not that of the task to which the object belongs either.
  pub delete_artifact-Removes :
      Unique Task.id w.store.tasks
      → Removes id key e w (delete_artifact (connected bucket (some s)) id key)
  unfolding delete_artifact missing_key with_task task_not_found if_nil write_error_safe write_error
      write_json pure
  delete_artifact-Removes u = elim (Bool-cases (key == "")) [
    | inl n ↦
        kept (write_error 400 "missing_key" "key query parameter is required") w (rw n refl)
          (ground arith) refl (λ k x. refl)
    | inr n ↦ rw n (elim (Option-cases (find Task.id id w.store.tasks)) [
      | inl m ↦
          kept _ (ticked w)
            (respond-ok e (get_by_id id) _ _ w (ticked w) none
              (get_by_id_quiet e q id w ∙ rw m refl))
            (ground arith) refl (λ k x. refl)
      | inr (t, row) ↦
          let (a, r, c) = law.stat key e (ticked w) in
          by_stat u t row (ground (arith, eq_iff key "")) _ a
            (respond-ok e (get_by_id id) _ _ w (ticked w) (scanned (some t))
              (get_by_id_quiet e q id w ∙ rw row refl))
            r
    ])
  ]
