-- ===== src/Api/Safety/Serve.antt =====
-- Every request that the router serves, in every environment.
use acb_go.Prelude.{◌≡◌, refl}
use acb_go.Db.Store.{Store}
use acb_go.Session.{Env, World, Error, Outcome, panic}
use acb_go.Session.Evolution.{Evolves}
use acb_go.Session.Safe.{unknown, row, IsFair, Safe-if_nil, Safe-then_respond, Post}
use acb_go.Api.Response.{Response}
use acb_go.Api.TaskHandler.Reads.{list_tasks, get_task, task_graph}
use acb_go.Api.Server.{
  Request, post_task, get_tasks, get_one, get_graph, get_gates, post_claim, post_unblock,
  post_complete, post_fail, post_start, post_heartbeat, post_block, post_answer, post_approve,
  get_dispatch, get_task_events, get_events, serve,
}
use acb_go.Api.Safety.Tasks.{
  Answers, Answers-pure, Answers-lookup, Answers-not_found, answer_rules, create_task-Safe,
  claim-Safe, start-Safe, complete-Safe, fail-Safe, task_heartbeat-Safe,
}
use acb_go.Api.Safety.Gates.{block-Safe, unblock-Safe, answer-Safe, approve-Safe, list_gates-Safe}
use acb_go.Api.Safety.Reads.{list-Safe, graph-Safe, dispatch_next-Safe}
use acb_go.Api.Safety.Events.{list_events-Safe, list_global_events-Safe}
use acb_go.Api.Safety.Total.{serve-NoError}
use acb_go.Prelude.{◌≢◌}
use acb_go.Session.{ok, err}

serve-Safe : (q : Request) → Answers unknown (serve q)
unfolding serve list_tasks get_task task_graph
serve-Safe (post_task input) = create_task-Safe input
serve-Safe (get_tasks status assignee skills) = search (answer_rules, list-Safe)
serve-Safe (get_one id) = Answers-lookup id _ _ (λ t. Answers-pure (row id) _)
serve-Safe (get_graph id) = Safe-then_respond unknown _ _ _ (graph-Safe id) λ g.
    Safe-if_nil (λ _. unknown) (λ _. unknown) g _ _ (Answers-not_found unknown)
      (λ t. Answers-pure unknown _)
serve-Safe (get_gates id) = list_gates-Safe id
serve-Safe (post_claim id assignee) = claim-Safe id assignee
serve-Safe (post_unblock id gate_id) = unblock-Safe id gate_id
serve-Safe (post_complete id summary) = complete-Safe id summary
serve-Safe (post_fail id reason) = fail-Safe id reason
serve-Safe (post_start id) = start-Safe id
serve-Safe (post_heartbeat id) = task_heartbeat-Safe id
serve-Safe (post_block id input) = block-Safe id input
serve-Safe (post_answer id gate_id text) = answer-Safe id gate_id text
serve-Safe (post_approve id gate_id text) = approve-Safe id gate_id text
serve-Safe (get_dispatch agent) = dispatch_next-Safe agent
serve-Safe (get_task_events id) = list_events-Safe id
serve-Safe (get_events q) = list_global_events-Safe q

reply :
    (s : Store) (r : Outcome Response × World)
    → Post (λ _. unknown) s r
    → ((x : Error) → r.0 ≢ err x)
    → (a : Response) × (r.0 ≡ ok a)
reply s (ok a, w) p n = (a, refl)
reply s (err x, w) p n = absurd (n x refl)
reply s (panic, w) p n = absurd p

-- If the others send issued statements only, every request is answered: whatever the others do
-- between the database calls of a handler, and whichever of these calls fail, the handler returns a
-- response and dereferences no nil pointer.
pub serve_answers :
    (q : Request) (e : Env) (w : World) → IsFair e → (r : Response) × ((serve q e w).0 ≡ ok r)
serve_answers q e w f =
    reply w.store (serve q e w) ((serve-Safe q).at e f w tt) ((serve-NoError q).at e w)

evolution :
    (s : Store) (r : Outcome Response × World) → Post (λ _. unknown) s r → Evolves s r.1.store
evolution s (ok a, w) p = p.0
evolution s (err x, w) p = p
evolution s (panic, w) p = absurd p

-- All that happens to the tables while a request runs is a sequence of statements that the service
-- issues, its own and those of others, which are issued ones too.
pub serve-Evolves :
    (q : Request) (e : Env) (w : World) → IsFair e → Evolves w.store (serve q e w).1.store
serve-Evolves q e w f = evolution w.store (serve q e w) ((serve-Safe q).at e f w tt)
