-- ===== src/Api/Safety/Events.antt =====
-- The handlers of the event log in every environment.
use acb_go.Prelude.{String, Option, List}
use acb_go.Prelude.{Bool}
use acb_go.Prelude.Int.{ℤ}
use acb_go.Session.{M, if_nil}
use acb_go.Session.Safe.{Safe, unknown, Safe-if_nil, safe_rules}
use acb_go.Session.Total.{NoError, total_rules}
use acb_go.Db.EventRepo.{
  ListedEvent, list_since, list_by_task, with_event_repo, list_task_events, list_task_events_since,
}
use acb_go.Db.TaskRepo.Safety.{Safe-read}
use acb_go.Api.TaskHandler.Events.{
  EventsQuery, AfterId, malformed, given, absent, list_events, events_since, bad_after_id,
  by_after_id, list_global_events,
}
use acb_go.Api.Safety.Tasks.{Answers, answer_rules}

rows-Safe :
    (o : Option (List ListedEvent)) (m : M (List ListedEvent))
    (g : List ListedEvent → M (List ListedEvent))
    → Safe unknown m (λ _. unknown)
    → ((l : List ListedEvent) → Safe unknown (g l) (λ _. unknown))
    → Safe unknown (if_nil o m g) (λ _. unknown)
rows-Safe o m g sm sg = Safe-if_nil (λ _. unknown) (λ _. unknown) o m g sm sg

events-Safe :
    (since agent : String) (limit after_id : ℤ) (use_id : Bool)
    → Safe unknown (list_task_events_since since agent limit after_id use_id) (λ _. unknown)
unfolding list_task_events_since with_event_repo list_since
events-Safe since agent limit after_id use_id = search (safe_rules, Safe-read, rows-Safe) depth 14

trail-Safe : (id : String) → Safe unknown (list_task_events id) (λ _. unknown)
unfolding list_task_events with_event_repo list_by_task
trail-Safe id = search (safe_rules, Safe-read) depth 14

pub list_events-Safe : (id : String) → Answers unknown (list_events id)
unfolding list_events
list_events-Safe id = search (answer_rules, trail-Safe) depth 14

by_after_id-Safe : (q : EventsQuery) (a : AfterId) → Answers unknown (by_after_id q a)
unfolding by_after_id bad_after_id events_since
by_after_id-Safe q malformed = search answer_rules
by_after_id-Safe q (given a) = search (answer_rules, events-Safe) depth 14
by_after_id-Safe q absent = search (answer_rules, events-Safe) depth 14

pub list_global_events-Safe : (q : EventsQuery) → Answers unknown (list_global_events q)
unfolding list_global_events
list_global_events-Safe q = by_after_id-Safe q q.after_id

pub list_events-NoError : (id : String) → NoError (list_events id)
unfolding list_events
list_events-NoError id = search total_rules

by_after_id-NoError : (q : EventsQuery) (a : AfterId) → NoError (by_after_id q a)
unfolding by_after_id bad_after_id events_since
by_after_id-NoError q malformed = search total_rules
by_after_id-NoError q (given a) = search total_rules depth 14
by_after_id-NoError q absent = search total_rules depth 14

pub list_global_events-NoError : (q : EventsQuery) → NoError (list_global_events q)
unfolding list_global_events
list_global_events-NoError q = by_after_id-NoError q q.after_id
