-- ===== src/Api/Cleaning.antt =====
-- CleanupArtifacts of internal/api/artifact_handler.go, run alone.
pub mod Handler
use text.Mathlib.Text.{starts_with}
use acb_go.Prelude.{
  String, ◌<>◌, ◌≡◌, ◌≢◌, refl, ◌∙◌, ◌⊎◌, inl, inr, Bool, true, false, Option, none, some, List, [],
  ◌∷◌, ◌==◌, ◌||◌, eq_iff, arith, Bool-cases, Option-cases, if◌then◌else◌,
}
use acb_go.Config.{contains}
use acb_go.Session.{
  Env, World, object_in, M, ok, err, storage_failed, pure, throw, or_respond, ◌>>=◌, if_nil,
}
use acb_go.Session.Quiet.{bind-ok, respond-ok, respond-err}
use acb_go.Storage
use acb_go.Storage.Bucket
use acb_go.Storage.Bucket.{Minio, checked}
use acb_go.Storage.{Client, connected, enabled_op}
use acb_go.Storage.Laws.{IsBucket, Touches}
use acb_go.Api.Response.{Response, write_error_safe}
use acb_go.Api.ArtifactHandler.{delete_each}

-- Only objects of the listed keys are touched.
pub record Spares (keys : List String) (w v : World) : Type 0 where
  pub same_store : v.store ≡ w.store
  pub same_spawned : v.spawned ≡ w.spawned
  pub others :
      (k : String) → contains keys k ≡ false → object_in v.objects k ≡ object_in w.objects k

module _ (s : Minio) (law : IsBucket s) (bucket : String) (e : Env) where
  -- One deletion.
  pub data Deletes (key : String) (w : World) : Type 0 where
    deleted :
        (v : World)
        → Storage.delete (connected bucket (some s)) key e w ≡ (ok tt, v)
        → Touches key w v
        → object_in v.objects key ≡ none
        → Deletes key w
    refused :
        (v : World)
        → Storage.delete (connected bucket (some s)) key e w ≡ (err storage_failed, v)
        → Touches key w v
        → Deletes key w

  removed_by :
      (key : String) (w v : World) (a : Bool)
      → s.remove_object key e w ≡ (ok a, v)
      → Touches key w v
      → (a ≡ true → object_in v.objects key ≡ none)
      → Deletes key w
  unfolding Storage.delete enabled_op Bucket.delete if_nil pure throw
  removed_by key w v true h t g = deleted v (bind-ok e _ checked w v true h) t (g refl)
  removed_by key w v false h t g = refused v (bind-ok e _ checked w v false h) t

  pub deletes : (key : String) (w : World) → Deletes key w
  deletes key w = let (a, v, h, t, g) = law.remove key e w in removed_by key w v a h t g

  -- The loop: it stops at an error, or goes on with the bucket free of the listed keys.
  pub data Empties (keys : List String) (rest : M Response) (w : World) : Type 0 where
    stopped :
        (v : World)
        → delete_each (connected bucket (some s)) keys rest e w
          ≡ (ok (write_error_safe 500 "delete_failed"), v)
        → Spares keys w v
        → Empties keys rest w
    emptied :
        (v : World)
        → delete_each (connected bucket (some s)) keys rest e w ≡ rest e v
        → Spares keys w v
        → ((k : String) → contains keys k ≡ true → object_in v.objects k ≡ none)
        → Empties keys rest w

  spared :
      (key : String) (keys : List String) (w u v : World)
      → Touches key w u
      → Spares keys u v
      → Spares (key ∷ keys) w v
  unfolding contains
  spared key keys w u v t p = record {
    same_store = p.same_store ∙ t.same_store;
    same_spawned = p.same_spawned ∙ t.same_spawned;
    others = λ k h. p.others k (ground arith) ∙ t.others k (ground (arith, eq_iff key k));
  }

  gone :
      (key : String) (keys : List String) (u v : World) (k : String)
      → Spares keys u v
      → ((k : String) → contains keys k ≡ true → object_in v.objects k ≡ none)
      → object_in u.objects key ≡ none
      → contains (key ∷ keys) k ≡ true
      → object_in v.objects k ≡ none
  unfolding contains
  gone key keys u v k p f h c = elim (Bool-cases (contains keys k)) [
    | inl m ↦ f k m
    | inr m ↦ p.others k m ∙ rw (← ((eq_iff key k).0 (ground arith))) h
  ]

  pub empties : (keys : List String) (rest : M Response) (w : World) → Empties keys rest w
  unfolding delete_each contains
  empties [] rest w =
      emptied w refl (record { same_store = refl; same_spawned = refl; others = λ k h. refl })
        (λ k h. cc)
  empties (key ∷ keys) rest w = elim (deletes key w) [
    | refused v h t ↦ stopped v (respond-err e _ _ _ w v storage_failed h) (record {
      same_store = t.same_store;
      same_spawned = t.same_spawned;
      others = λ k c. t.others k (ground (arith, eq_iff key k));
    })
    | deleted u h t n ↦ elim (empties keys rest u) [
      | stopped v x p ↦ stopped v (respond-ok e _ _ _ w u tt h ∙ x) (spared key keys w u v t p)
      | emptied v x p f ↦
          emptied v (respond-ok e _ _ _ w u tt h ∙ x) (spared key keys w u v t p)
            (λ k c. gone key keys u v k p f n c)
    ]
  ]
