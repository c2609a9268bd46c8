-- ===== src/Timeout/Safety.antt =====
-- The timeout service in every environment.
use acb_go.Prelude.{ℕ, suc, zero, String, ◌≡◌, ◌≢◌, refl, List, [], ◌∷◌}
use acb_go.Prelude.Int.{ℤ}
use acb_go.Models.{Agent}
use acb_go.Db.Store.{Store}
use acb_go.Db.Statement.{TaskUpdate, update_task}
use acb_go.Session.{Env, World, Error, Outcome, ok, err, panic, M}
use acb_go.Session.Evolution.{Issued, Evolves}
use acb_go.Session.Safe.{Safe, unknown, IsFair, Post, safe_rules, Safe->>, Safe-then}
use acb_go.Session.Total.{NoError, NoError->>, total_rules}
use acb_go.Db.TaskRepo.Expiry.{
  sweep_one, sweep, expire_pending_tasks, expire_stale_in_progress_tasks, release_agent_tasks,
}
use acb_go.Db.Statement.{expire_pending, expire_stale, release}
use acb_go.Db.AgentRepo.{list_stale}
use acb_go.Db.TaskRepo.Safety.{Safe-read, log_task_event-Safe}
use acb_go.Timeout.Service.{
  TimeoutService, check_pending, check_tasks, release_each, check_agents, check, run_service,
}

abbrev Runs : {A : Type 0} → M A → Type 0
Runs m = Safe unknown m (λ _. unknown)

one-Safe :
    (u : TaskUpdate) (id event detail : String)
    → Issued (update_task u)
    → Runs (sweep_one u id event detail)
unfolding sweep_one
one-Safe u id event detail i = search (safe_rules, log_task_event-Safe) depth 14

sweep-Safe :
    (up : String → TaskUpdate) (event detail : String) (ids : List String)
    → ((i : String) → Issued (update_task (up i)))
    → Runs (sweep up event detail ids)
unfolding sweep
sweep-Safe up event detail [] h = search safe_rules
sweep-Safe up event detail (i ∷ ids) h =
    Safe->> unknown (λ _. unknown) _ _ (one-Safe (up i) i event detail (h i))
      (sweep-Safe up event detail ids h)

pending_sweep-Safe :
    (event detail : String) (ids : List String) → Runs (sweep expire_pending event detail ids)
pending_sweep-Safe event detail ids = sweep-Safe expire_pending event detail ids (λ i. tt)

stale_sweep-Safe :
    (note event detail : String) (ids : List String)
    → Runs (sweep (λ i. expire_stale i note) event detail ids)
stale_sweep-Safe note event detail ids =
    sweep-Safe (λ i. expire_stale i note) event detail ids (λ i. tt)

pending-Safe : (limit : ℤ) → Runs (expire_pending_tasks limit)
unfolding expire_pending_tasks
pending-Safe limit = search (safe_rules, Safe-read, pending_sweep-Safe) depth 14

stale-Safe : (limit : ℤ) → Runs (expire_stale_in_progress_tasks limit)
unfolding expire_stale_in_progress_tasks
stale-Safe limit = search (safe_rules, Safe-read, stale_sweep-Safe) depth 14

release-Safe : (agent : String) → Runs (release_agent_tasks agent)
unfolding release_agent_tasks
release-Safe agent =
    Safe-then unknown (λ _. unknown) _ _ (Safe-read unknown _)
      λ ids.
        Safe->> unknown (λ _. unknown) _ _ (sweep-Safe release _ _ ids (λ i. tt))
          (search safe_rules)

release_each-Safe : (l : List Agent) → Runs (release_each l)
unfolding release_each
release_each-Safe [] = search safe_rules
release_each-Safe (a ∷ rest) =
    Safe->> unknown (λ _. unknown) _ _ (search (safe_rules, release-Safe) depth 14)
      (release_each-Safe rest)

list_stale-Safe : (dur : ℕ) → Runs (list_stale dur)
unfolding list_stale
list_stale-Safe dur = Safe-read unknown _

check-Safe : (s : TimeoutService) → Runs (check s)
unfolding check check_pending check_tasks check_agents
check-Safe s =
    search (safe_rules, pending-Safe, stale-Safe, list_stale-Safe, release_each-Safe) depth 20

run_service-Safe : (s : TimeoutService) (n : ℕ) → Runs (run_service s n)
unfolding run_service
run_service-Safe s zero = check-Safe s
run_service-Safe s (suc n) =
    Safe->> unknown (λ _. unknown) _ _ (run_service-Safe s n) (check-Safe s)

check-NoError : (s : TimeoutService) → NoError (check s)
unfolding check check_pending check_tasks check_agents
check-NoError s = search total_rules depth 20

run_service-NoError : (s : TimeoutService) (n : ℕ) → NoError (run_service s n)
unfolding run_service
run_service-NoError s zero = check-NoError s
run_service-NoError s (suc n) = NoError->> _ _ (run_service-NoError s n) (check-NoError s)

finish :
    (s : Store) (r : Outcome (Unit {0}) × World)
    → Post (λ _. unknown) s r
    → ((x : Error) → r.0 ≢ err x)
    → (r.0 ≡ ok tt) × Evolves s r.1.store
finish s (ok a, w) p n = (refl, p.0)
finish s (err x, w) p n = absurd (n x refl)
finish s (panic, w) p n = absurd p

-- If the others send issued statements only, the timeout service runs through any number of checks,
-- whichever database calls fail: an error never ends its loop, and all that happens to the tables is a
-- sequence of issued statements.
pub run_service-Evolves :
    (s : TimeoutService) (ticks : ℕ) (e : Env) (w : World)
    → IsFair e
    → ((run_service s ticks e w).0 ≡ ok tt) × Evolves w.store (run_service s ticks e w).1.store
run_service-Evolves s ticks e w f =
    finish w.store (run_service s ticks e w) ((run_service-Safe s ticks).at e f w tt)
      ((run_service-NoError s ticks).at e w)
