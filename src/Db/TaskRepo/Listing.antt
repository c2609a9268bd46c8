-- ===== src/Db/TaskRepo/Listing.antt =====
-- SetArtifactsJSON, GetArtifacts and their callers in internal/db/task_repo.go, run alone.
use acb_go.Prelude.{
  String, ◌≡◌, refl, ◌∙◌, not, some, true, List, [], ◌∷◌, ◌++◌, filter, ◌==◌, eq_iff, arith,
}
use acb_go.Models.{Task, Artifact}
use acb_go.Db.Rows.{find, Unique, key-find}
use acb_go.Db.Statement.{update_task, set_artifacts, selects, assigns}
use acb_go.Session.{World, Env, ok, pure, query, exec, if_nil}
use acb_go.Session.Quiet.{IsQuiet, time, ticked, wrote, exec_quiet, query_quiet, bind-ok}
use acb_go.Db.TaskRepo.Update.{run-hit, target_row, other_row, updated_store}
use acb_go.Db.TaskRepo.Moves.{Rewrites}
use acb_go.Db.TaskRepo.Artifacts.{get_artifacts, set_artifacts_json, add_artifact, remove_artifact}

module _ (e : Env) (q : IsQuiet e) (id : String) (w : World) (t : Task)
    (unique : Unique Task.id w.store.tasks) (f : find Task.id id w.store.tasks ≡ some t) where
  -- The list of artifacts is replaced, and nothing else changes.
  pub set_artifacts_quiet :
      (l : List Artifact)
      → (v : World) × (set_artifacts_json id l e w ≡ (ok tt, v))
        × Rewrites id (record t { artifacts = l }) w v
        × (v.objects ≡ w.objects)
        × (v.spawned ≡ w.spawned)
  unfolding set_artifacts_json pure selects assigns
  set_artifacts_quiet l =
      let now = time e w in
      let u = set_artifacts id l in
      let h : selects u t ≡ true =
        ground (arith, key-find Task.id id w.store.tasks t f, eq_iff t.id id) in
      (
        wrote w (updated_store now u w.store unique refl),
        bind-ok e (exec (update_task u)) _ w _ 1
            (exec_quiet e q _ w 1 _ (run-hit now u w.store unique refl t f h)),
        record {
          new_row = target_row now u w.store.tasks t f h;
          other_rows = λ k n. other_row now u w.store.tasks k n;
        },
        refl,
        refl,
      )

  get_artifacts_quiet : get_artifacts id e w ≡ (ok t.artifacts, ticked w)
  unfolding get_artifacts if_nil pure
  get_artifacts_quiet =
      bind-ok e (query _) _ w (ticked w) (some t.artifacts) (query_quiet e q _ w ∙ rw f refl)

module _ (e : Env) (q : IsQuiet e) (id : String) (w : World) (t : Task)
    (unique : Unique Task.id w.store.tasks) (f : find Task.id id w.store.tasks ≡ some t) where
  -- The list of artifacts of the row becomes another, and no object changes.
  abbrev pub Relists : (l : List Artifact) → World → Type 0
  Relists l v = Rewrites id (record t { artifacts = l }) w v × (v.objects ≡ w.objects)

  pub add_artifact_quiet :
      (a : Artifact)
      → (v : World) × (add_artifact id a e w ≡ (ok tt, v)) × Relists (t.artifacts ++ a ∷ []) v
  unfolding add_artifact
  add_artifact_quiet a =
      let (v, h, r, o, _) =
        set_artifacts_quiet e q id (ticked w) t unique f (t.artifacts ++ a ∷ []) in
      (
        v,
        bind-ok e (get_artifacts id) _ w (ticked w) t.artifacts
              (get_artifacts_quiet e q id w t unique f)
            ∙ h,
        (record { new_row = r.new_row; other_rows = r.other_rows }, o),
      )

  pub remove_artifact_quiet :
      (key : String)
      → (v : World) × (remove_artifact id key e w ≡ (ok tt, v))
        × Relists (filter (λ a. not (a.key == key)) t.artifacts) v
  unfolding remove_artifact
  remove_artifact_quiet key =
      let l = filter (λ a. not (a.key == key)) t.artifacts in
      let (v, h, r, o, _) = set_artifacts_quiet e q id (ticked w) t unique f l in
      (
        v,
        bind-ok e (get_artifacts id) _ w (ticked w) t.artifacts
              (get_artifacts_quiet e q id w t unique f)
            ∙ h,
        (record { new_row = r.new_row; other_rows = r.other_rows }, o),
      )
