-- ===== src/Api/Cleaning/Handler.antt =====
-- CleanupArtifacts of internal/api/artifact_handler.go as a whole.
use text.Mathlib.Text.{starts_with}
use acb_go.Prelude.{
  String, ◌<>◌, ◌≡◌, ◌≢◌, refl, ◌∙◌, ◌↔◌, ap, inl, inr, true, false, Option, none, some, List, [],
  arith, Bool-cases, Option-cases,
}
use acb_go.Models.{Task}
use acb_go.Config.{contains}
use acb_go.Db.Rows.{find, Unique}
use acb_go.Session.{Env, World, object_in, M, ok, storage_failed, pure, throw, or_respond, if_nil}
use acb_go.Session.Quiet.{IsQuiet, ticked, bind-ok, respond-ok, respond-err}
use acb_go.Storage
use acb_go.Storage.Bucket
use acb_go.Storage.Bucket.{Minio, keys_of}
use acb_go.Storage.{connected, enabled_op}
use acb_go.Storage.Laws.{IsBucket}
use acb_go.Db.TaskRepo.Reads.{get_by_id, scanned}
use acb_go.Db.TaskRepo.Quiet.{get_by_id_quiet}
use acb_go.Db.TaskRepo.Moves.{Rewrites}
use acb_go.Db.TaskRepo.Artifacts.{set_artifacts_json}
use acb_go.Db.TaskRepo.Listing.{set_artifacts_quiet}
use acb_go.Api.Response.{Response, no_body, write_json, write_error, write_error_safe}
use acb_go.Api.TaskHandler.Transitions.{task_not_found}
use acb_go.Api.ArtifactHandler.{with_task, delete_each, cleanup_artifacts}
use acb_go.Api.Cleaning.{Spares, Empties, stopped, emptied, empties}

-- The objects of the task, by their keys, and those of others.
abbrev pub Own : (id key : String) → Type 0
Own id key = starts_with key (id <> "/") ≡ true

abbrev pub KeepsForeign : String → World → World → Type 0
KeepsForeign id w v =
    (k : String) → starts_with k (id <> "/") ≡ false → object_in v.objects k ≡ object_in w.objects k

-- How the request ends: refused, with the tables as they were, or with the task free of artifacts. In
-- both cases no object of another key is touched.
pub data Cleans (id : String) (e : Env) (w : World) (m : M Response) : Type 0 where
  refused :
      (answer : Response) (v : World)
      → m e w ≡ (ok answer, v)
      → answer.code ≢ 200
      → v.store ≡ w.store
      → KeepsForeign id w v
      → Cleans id e w m
  cleaned :
      (t : Task) (v : World)
      → m e w ≡ (ok (write_json 200 no_body), v)
      → find Task.id id w.store.tasks ≡ some t
      → Rewrites id (record t { artifacts = [] }) w v
      → KeepsForeign id w v
      → ((k : String) → Own id k → object_in v.objects k ≡ none)
      → Cleans id e w m

Listed : String → World → List String → Type 0
Listed id w keys =
    (k : String)
    → (contains keys k ≡ true)
      ↔ ((starts_with k (id <> "/") ≡ true) × (object_in w.objects k ≢ none))

unlisted :
    (id : String) (w : World) (keys : List String) (k : String)
    → Listed id w keys
    → starts_with k (id <> "/") ≡ false
    → contains keys k ≡ false
unfolding Listed
unlisted id w keys k l h = elim (Bool-cases (contains keys k)) [
  | inl c ↦ let p = ((l k).0 c).0 in cc
  | inr c ↦ c
]

absent :
    (id : String) (w v : World) (keys : List String) (k : String)
    → Listed id w keys
    → Spares keys w v
    → ((k : String) → contains keys k ≡ true → object_in v.objects k ≡ none)
    → Own id k
    → object_in v.objects k ≡ none
unfolding Listed
absent id w v keys k l p f o = elim (Bool-cases (contains keys k)) [
  | inl c ↦ f k c
  | inr c ↦ elim (Option-cases (object_in w.objects k)) [
    | inl n ↦ p.others k c ∙ n
    | inr (b, y) ↦ let c' = (l k).1 (o, λ n. cc) in cc
  ]
]

module _ (s : Minio) (law : IsBucket s) (bucket : String) (e : Env) (q : IsQuiet e)
    (id : String) where
  -- What follows the loop.
  abbrev last : M Response
  last =
      or_respond (set_artifacts_json id []) (λ x. write_error_safe 500 "clear_artifacts_failed")
        λ _. pure (write_json 200 no_body)

  -- From the list on, in the world after the lookup.
  looped :
      (w : World) (t : Task) (keys : List String) (m : M Response)
      → Unique Task.id w.store.tasks
      → find Task.id id w.store.tasks ≡ some t
      → Listed id w keys
      → m e w ≡ delete_each (connected bucket (some s)) keys last e (ticked w)
      → Empties s law bucket e keys last (ticked w)
      → Cleans id e w m
  unfolding write_error_safe write_error write_json pure
  looped w t keys m u f l h (stopped v x p) =
      refused _ v (h ∙ x) (ground arith) p.same_store (λ k n. p.others k (unlisted id w keys k l n))
  looped w t keys m u f l h (emptied v x p g) =
      let u' : Unique Task.id v.store.tasks = rw p.same_store u in
      let f' : find Task.id id v.store.tasks ≡ some t = rw p.same_store f in
      let (z, y, r, o, _) = set_artifacts_quiet e q id v t u' f' [] in
      cleaned t z (h ∙ (x ∙ respond-ok e (set_artifacts_json id []) _ _ v z tt y)) f
        (record {
          new_row = r.new_row;
          other_rows = λ k n. r.other_rows k n ∙ ap (λ st. find Task.id k st.tasks) p.same_store;
        })
        (λ k n. ap (λ l. object_in l k) o ∙ p.others k (unlisted id w keys k l n))
        (λ k own.
          ap (λ l. object_in l k) o
          ∙ absent id w v keys k l
              (record {
                same_store = p.same_store;
                same_spawned = p.same_spawned;
                others = p.others;
              })
              g own)

  by_list :
      (w : World) (t : Task) (l : List (Option String)) (keys : Option (List String))
      (m : M Response)
      → Unique Task.id w.store.tasks
      → find Task.id id w.store.tasks ≡ some t
      → m e w
        ≡ or_respond
            (Storage.list_objects (connected bucket (some s)) (id <> "/"))
            (λ x. write_error_safe 500 "list_failed")
            (λ objects. delete_each (connected bucket (some s)) objects last)
            e
            (ticked w)
      → s.list_objects (id <> "/") e (ticked w) ≡ (ok l, ticked w)
      → keys_of l ≡ keys
      → ((ks : List String) → keys_of l ≡ some ks → Listed id w ks)
      → Cleans id e w m
  unfolding Storage.list_objects Bucket.list_objects enabled_op if_nil write_error_safe write_error
      write_json pure throw
  by_list w t l none m u f h r k c =
      refused _ (ticked w)
        (h
          ∙ respond-err e _ _ _ (ticked w) (ticked w) storage_failed
              (bind-ok e (s.list_objects (id <> "/")) _ (ticked w) (ticked w) l r ∙ rw k refl))
        (ground arith) refl (λ x n. refl)
  by_list w t l (some keys) m u f h r k c =
      looped w t keys m u f (c keys k)
        (h
          ∙ respond-ok e _ _ _ (ticked w) (ticked w) keys
              (bind-ok e (s.list_objects (id <> "/")) _ (ticked w) (ticked w) l r ∙ rw k refl))
        (empties s law bucket e keys last (ticked w))

  -- A request that runs alone, with a bucket that behaves as the MinIO library promises and on tables
  -- with unique ids, either is refused with an answer other than 200, with the tables as they were, or it
  -- is answered with 200, and then the task has no artifacts in its row, no other row changed, and no
  -- object is left under a key that starts with the id and a slash. In both cases no object of another
  -- key is touched.
  pub cleanup_artifacts-Cleans :
      (w : World)
      → Unique Task.id w.store.tasks
      → Cleans id e w (cleanup_artifacts (connected bucket (some s)) id)
  unfolding cleanup_artifacts with_task task_not_found if_nil write_error_safe write_error
      write_json pure Listed
  cleanup_artifacts-Cleans w u = elim (Option-cases (find Task.id id w.store.tasks)) [
    | inl n ↦
        refused _ (ticked w)
          (respond-ok e (get_by_id id) _ _ w (ticked w) none (get_by_id_quiet e q id w ∙ rw n refl))
          (ground arith) refl (λ k n. refl)
    | inr (t, f) ↦
        let (l, r, c) = law.list (id <> "/") e (ticked w) in
        by_list w t l (keys_of l) _ u f
          (respond-ok e (get_by_id id) _ _ w (ticked w) (scanned (some t))
            (get_by_id_quiet e q id w ∙ rw f refl))
          r refl c
  ]
