-- ===== src/Api/TaskHandler/Events.antt =====
-- internal/api/task_handler.go: ListTaskEvents and ListGlobalEvents.
use acb_go.Prelude.{String, Bool, true, false, ◌&&◌, not, Option, none, some, ◌==◌, if◌then◌else◌}
use acb_go.Prelude.Int.{ℤ, pos, ltb_ℤ}
use acb_go.Session.{M, pure, or_respond}
use acb_go.Db.EventRepo.{list_task_events, list_task_events_since}
use acb_go.Api.Response.{Response, events_json, write_json, write_error, write_error_safe}

unfoldable pub list_events : String → M Response
list_events id =
    or_respond (list_task_events id) (λ x. write_error_safe 500 "list_events_failed")
      λ events. pure (write_json 200 (events_json events))

-- The query string: what strconv reads in `limit` (none if it is absent or refused) and in `after_id`.
pub data AfterId : Type 0 where
  absent malformed : AfterId
  given : ℤ → AfterId

pub record EventsQuery : Type 0 where
  pub since : String
  pub agent : String
  pub limit : Option ℤ
  pub after_id : AfterId

unfoldable pub limit_of : Option ℤ → ℤ
limit_of none = pos 50
limit_of (some l) = if ltb_ℤ (pos 0) l && not (ltb_ℤ (pos 200) l) then l else pos 50

unfoldable pub events_since : EventsQuery → ℤ → Bool → M Response
events_since q after_id use_id =
    or_respond (list_task_events_since q.since q.agent (limit_of q.limit) after_id use_id)
      (λ x. write_error_safe 500 "list_events_failed")
      λ events. pure (write_json 200 (events_json events))

unfoldable pub bad_after_id : M Response
bad_after_id = pure (write_error 400 "invalid_after_id" "after_id must be a non-negative integer")

unfoldable pub by_after_id : EventsQuery → AfterId → M Response
by_after_id q malformed = bad_after_id
by_after_id q (given a) = if ltb_ℤ a (pos 0) then bad_after_id else events_since q a true
by_after_id q absent =
    if q.since == ""
    then pure (
        write_error 400 "missing_since_or_after_id" "since (ISO8601) or after_id (int) is required")
    else events_since q (pos 0) false

unfoldable pub list_global_events : EventsQuery → M Response
list_global_events q = by_after_id q q.after_id
