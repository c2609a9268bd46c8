-- ===== src/Api/Creating/Spec.antt =====
-- CreateTask of internal/api/task_handler.go, run alone: what the request may come to.
use acb_go.Prelude.{
  String, ◌≡◌, ◌≢◌, refl, Bool, true, false, not, Option, none, some, List, [], ◌∷◌, ◌++◌, All,
  arith, ◌==◌, if◌then◌else◌, is_empty, filter, Bool-cases, inl, inr, ◌⊎◌, ◌&&◌,
}
use acb_go.Prelude.Int.{pos}
use acb_go.Models.{Status, Task}
use acb_go.Config.{Config, is_valid_skill, validate_skills, is_valid_tag, validate_tags}
use acb_go.Db.Rows.{find}
use acb_go.Session.{Env, World, Effect, publish, dispatch_new}
use acb_go.Session.Quiet.{time}
use acb_go.Api.Response.{Response, task_or_null, write_json, write_error, write_error_safe}
use acb_go.Api.Claiming.Spec.{Idle}
use acb_go.Api.TaskHandler.Create.{CreateInput, has_cfg, breaks}

-- Every entry is in the catalog.
abbrev pub Listed : (String → Bool) → List String → Type 0
Listed valid l = All (λ s. valid s ≡ true) l

-- A list without an invalid entry, or one that has some.
Listed-filter :
    (valid : String → Bool) (l : List String)
    → ((is_empty (filter (λ s. not (valid s)) l) ≡ true) × Listed valid l)
      ⊎ ((is_empty (filter (λ s. not (valid s)) l) ≡ false) × (¬ Listed valid l))
Listed-filter valid [] = inl (refl, tt)
Listed-filter valid (s ∷ l) = elim (Bool-cases (valid s)) [
  | inl h ↦ rw h (elim (Listed-filter valid l) [
    | inl (a, b) ↦ inl (a, (refl, b))
    | inr (a, b) ↦ inr (a, λ c. b c.1)
  ])
  | inr h ↦ rw h (inr (refl, λ c. ground (arith, h, c.0)))
]

pub Listed-skills :
    (c : Option Config) (l : List String)
    → ((breaks (validate_skills c) l ≡ false) × Listed (is_valid_skill c) l)
      ⊎ ((breaks (validate_skills c) l ≡ true) × (¬ Listed (is_valid_skill c) l))
unfolding breaks validate_skills
Listed-skills c [] = inl (refl, tt)
Listed-skills c (s ∷ l) = elim (Listed-filter (is_valid_skill c) (s ∷ l)) [
  | inl (a, b) ↦ inl (rw a refl, b)
  | inr (a, b) ↦ inr (rw a refl, b)
]

any_tag : (l : List String) → Listed (is_valid_tag none) l
unfolding is_valid_tag
any_tag [] = tt
any_tag (s ∷ l) = (refl, any_tag l)

some_tags :
    (c : Option Config) (l : List String)
    → ((breaks (validate_tags c) l ≡ false) × Listed (is_valid_tag c) l)
      ⊎ ((breaks (validate_tags c) l ≡ true) × (¬ Listed (is_valid_tag c) l))
unfolding breaks validate_tags
some_tags c [] = inl (refl, tt)
some_tags c (s ∷ l) = elim (Listed-filter (is_valid_tag c) (s ∷ l)) [
  | inl (a, b) ↦ inl (rw a refl, b)
  | inr (a, b) ↦ inr (rw a refl, b)
]

-- Without a configuration every tag is in the catalog.
pub Listed-tags :
    (c : Option Config) (l : List String)
    → (((has_cfg c && breaks (validate_tags c) l) ≡ false) × Listed (is_valid_tag c) l)
      ⊎ (((has_cfg c && breaks (validate_tags c) l) ≡ true) × (¬ Listed (is_valid_tag c) l))
unfolding has_cfg
Listed-tags none l = inl (refl, any_tag l)
Listed-tags (some c) l = some_tags (some c) l

-- The id of the request, or a new one.
abbrev pub chosen : Env → World → CreateInput → String
chosen e w i = if i.id == "" then e.uuid w.calls else i.id

-- The row that is written: pending, with the values of the request and the time of the database.
abbrev pub created_row : Env → World → CreateInput → Task
created_row e w i = record {
  id = chosen e w i;
  title = i.title;
  assignee = i.assignee;
  status = Status.pending;
  priority = i.priority;
  parents = i.parents;
  skills = i.skills;
  required_skills = i.required_skills;
  tags = i.tags;
  body_goal = i.body_goal;
  body_context = i.body_context;
  body_deliverable_fmt = i.body_deliverable_fmt;
  body_deliverable_path = i.body_deliverable_path;
  created_at = time e w;
  updated_at = time e w;
  summary = "";
  artifacts = [];
  last_heartbeat = none;
  max_retries = i.max_retries;
  retry_count = pos 0;
}

-- What CreateTask starts at its end.
abbrev pub announced : Env → Task → List Effect
announced e t =
    publish "new_task" t.id t.assignee "" "" t.required_skills
    ∷ (if e.has_dispatcher then dispatch_new t ∷ [] else [])

-- The row is in the table after all others, and the tables of gates and agents are as they were.
pub record Inserts (t : Task) (w v : World) : Type 0 where
  pub row_last : v.store.tasks ≡ w.store.tasks ++ t ∷ []
  pub same_gates : v.store.gates ≡ w.store.gates
  pub same_agents : v.store.agents ≡ w.store.agents

-- The three lists of the request are in their catalogs.
pub record IsListed (c : Option Config) (i : CreateInput) : Type 0 where
  pub required : Listed (is_valid_skill c) i.required_skills
  pub skills : Listed (is_valid_skill c) i.skills
  pub tags : Listed (is_valid_tag c) i.tags

pub data Creates (e : Env) (w v : World) : Option CreateInput → Response → Type 0 where
  malformed : Idle w v → Creates e w v none (write_error 400 "invalid_json" "invalid request body")
  untitled :
      (i : CreateInput)
      → i.title ≡ ""
      → Idle w v
      → Creates e w v (some i) (write_error 400 "missing_title" "title is required")
  unlisted_required :
      (i : CreateInput)
      → i.title ≢ ""
      → ¬ Listed (is_valid_skill e.cfg) i.required_skills
      → Idle w v
      → Creates e w v (some i) (
          write_error 400 "invalid_required_skills"
            "one or more required skills are not in the allowed catalog")
  unlisted_skills :
      (i : CreateInput)
      → i.title ≢ ""
      → Listed (is_valid_skill e.cfg) i.required_skills
      → ¬ Listed (is_valid_skill e.cfg) i.skills
      → Idle w v
      → Creates e w v
          (some i)
          (write_error 400 "invalid_skills" "one or more skills are not in the allowed catalog")
  unlisted_tags :
      (i : CreateInput)
      → i.title ≢ ""
      → Listed (is_valid_skill e.cfg) i.required_skills
      → Listed (is_valid_skill e.cfg) i.skills
      → ¬ Listed (is_valid_tag e.cfg) i.tags
      → Idle w v
      → Creates e w v
          (some i)
          (write_error 400 "invalid_tags" "one or more tags are not in the allowed catalog")
  id_taken :
      (i : CreateInput) (t : Task)
      → i.title ≢ ""
      → IsListed e.cfg i
      → find Task.id (chosen e w i) w.store.tasks ≡ some t
      → Idle w v
      → Creates e w v (some i) (write_error_safe 500 "create_failed")
  created :
      (i : CreateInput)
      → i.title ≢ ""
      → IsListed e.cfg i
      → find Task.id (chosen e w i) w.store.tasks ≡ none
      → Inserts (created_row e w i) w v
      → v.spawned ≡ w.spawned ++ announced e (created_row e w i)
      → Creates e w v (some i) (write_json 201 (task_or_null (some (created_row e w i))))
