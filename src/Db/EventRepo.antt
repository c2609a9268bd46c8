-- ===== src/Db/EventRepo.antt =====
-- internal/db/task_event_repo.go: the queries of the event log, and the two methods of TaskRepo that
-- hand them on.
pub mod Sorting
pub mod Pages
use acb_go.Prelude.{
  take, ℕ, zero, suc, String, Bool, true, false, ◌&&◌, ◌||◌, not, Option, none, some, List, [], ◌∷◌,
  map, filter, ◌==◌, ltb, if◌then◌else◌,
}
use acb_go.Prelude.Int.{ℤ, pos, pos_part, ltb_ℤ}
use acb_go.Models.{Task, TaskEvent}
use acb_go.Db.Rows.{find}
use acb_go.Db.Store.{Store}
use acb_go.Session.{M, db_failed, pure, throw, get_env, query, if_nil, ◌>>=◌}

-- An event with the title of its task, as the queries return it.
pub record ListedEvent : Type 0 where
  pub id : ℕ
  pub task_id : String
  pub event : String
  pub agent : String
  pub timestamp : ℕ
  pub detail : String
  pub title : String

-- ORDER BY … DESC, for a column.
unfoldable pub insert_desc : (TaskEvent → ℕ) → TaskEvent → List TaskEvent → List TaskEvent
insert_desc by e [] = e ∷ []
insert_desc by e (x ∷ l) =
    let rest = insert_desc by e l in if ltb (by x) (by e) then e ∷ x ∷ l else x ∷ rest

unfoldable pub sort_desc : (TaskEvent → ℕ) → List TaskEvent → List TaskEvent
sort_desc by [] = []
sort_desc by (e ∷ l) = insert_desc by e (sort_desc by l)

abbrev title_or : String → Option Task → String
title_or id none = id
title_or id (some t) = t.title

-- LEFT JOIN tasks … COALESCE(t.title, e.task_id).
unfoldable pub titled : Store → TaskEvent → ListedEvent
titled s e = record {
  id = e.id;
  task_id = e.task_id;
  event = e.event;
  agent = e.agent;
  timestamp = e.timestamp;
  detail = e.detail;
  title = title_or e.task_id (find Task.id e.task_id s.tasks);
}

-- The limit of a page: between 1 and 200, or else 50.
unfoldable pub page_limit : ℤ → ℕ
page_limit limit = if not (ltb_ℤ (pos 0) limit) || ltb_ℤ (pos 200) limit then 50 else pos_part limit

-- The two kinds of cursor.
pub data Cursor : Type 0 where
  by_id : ℤ → Cursor
  by_time : ℕ → Cursor

abbrev pub is_after : Cursor → TaskEvent → Bool
is_after (by_id after) e = ltb_ℤ after (pos e.id)
is_after (by_time since) e = ltb since e.timestamp

abbrev pub is_visible : String → TaskEvent → Bool
is_visible agent e = if agent == "" then true else e.agent == agent || e.agent == ""

-- The rows of a page, newest first.
unfoldable pub page : Cursor → String → ℕ → List TaskEvent → List TaskEvent
page c agent limit events =
    take limit (sort_desc TaskEvent.id (filter (λ e. is_after c e && is_visible agent e) events))

abbrev pub cursor_of : Bool → ℤ → Option ℕ → Option Cursor
cursor_of true after_id since = some (by_id after_id)
cursor_of false after_id none = none
cursor_of false after_id (some since) = some (by_time since)

-- A query whose `since` is no time is refused.
abbrev pub rows_since : Option Cursor → String → ℤ → Store → Option (List ListedEvent)
rows_since none agent limit s = none
rows_since (some c) agent limit s = some (map (titled s) (page c agent (page_limit limit) s.events))

unfoldable pub list_since : String → String → ℤ → ℤ → Bool → M (List ListedEvent)
list_since since agent limit after_id use_id = do
  parsed ← get_env (λ e. e.timestamptz since)
  rows ← query (λ now s. rows_since (cursor_of use_id after_id parsed) agent limit s)
  if_nil rows (throw db_failed) pure

-- The id and the title are not among the columns.
unfoldable pub bare_event : TaskEvent → ListedEvent
bare_event e = record {
  id = 0;
  task_id = e.task_id;
  event = e.event;
  agent = e.agent;
  timestamp = e.timestamp;
  detail = e.detail;
  title = "";
}

unfoldable pub list_by_task : String → M (List ListedEvent)
list_by_task id =
    query λ now s.
      map bare_event (sort_desc TaskEvent.timestamp (filter (λ e. e.task_id == id) s.events))

-- Both methods of TaskRepo fail without an event repository.
unfoldable pub with_event_repo : {A : Type 0} → M A → M A
with_event_repo m = do
  present ← get_env (λ e. e.has_event_repo)
  if present then m else throw db_failed

unfoldable pub list_task_events : String → M (List ListedEvent)
list_task_events id = with_event_repo (list_by_task id)

unfoldable pub list_task_events_since : String → String → ℤ → ℤ → Bool → M (List ListedEvent)
list_task_events_since since agent limit after_id use_id =
    with_event_repo (list_since since agent limit after_id use_id)
