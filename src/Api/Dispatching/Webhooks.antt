-- ===== src/Api/Dispatching/Webhooks.antt =====
-- DispatchNewTask, NotifyStatusChange and the requests that sendWebhook and sendStatusWebhook build in
-- internal/dispatcher/dispatcher.go. The goroutines, the semaphore and the logging are left out.
use acb_go.Prelude.{
  ℕ, String, ◌<>◌, Bool, true, false, not, Option, none, some, List, [], ◌∷◌, ◌==◌, filter,
  if◌then◌else◌,
}
use acb_go.Models.{Task, Agent, Status, is}
use acb_go.Db.Secrets.{Crypto, decrypt_webhook_secret}
use acb_go.Db.TaskRepo.Reads.{get_by_id}
use acb_go.Api.Dispatching.Retries.{Delivery, not_sent}
use acb_go.Db.AgentRepo.{get_by_name, find_matching_agents}
use acb_go.Session.{M, pure, on_error, if_nil, ◌>>=◌}

-- The loop over the parents, up to the first that is not there or not completed.
unfoldable pub all_completed : List String → M Bool
all_completed [] = pure true
all_completed (id ∷ rest) = do
  parent ← on_error (get_by_id id) (λ x. pure none)
  let others = all_completed rest
  if_nil parent (pure false) λ p. if is p.status Status.completed then others else pure false

abbrev pub has_url : Agent → Bool
has_url a = not (a.webhook_url == "")

-- The agents that the task is sent to.
unfoldable pub dispatch_new_task : Task → M (List Agent)
dispatch_new_task task = do
  ready ← all_completed task.parents
  if not ready
      then pure []
      else on_error (find_matching_agents task.required_skills) (λ x. pure []) >>= λ agents.
          pure (filter has_url agents)

-- The agent that the change is sent to.
unfoldable pub notify_status_change : Task → M (Option Agent)
notify_status_change task = if task.assignee == "" then pure none else do
  agent ← on_error (get_by_name task.assignee) (λ x. pure none)
  if_nil agent (pure none) λ a. pure (if has_url a then some a else none)

-- WebhookPayload; the old and the new status of a new task are not set.
pub record WebhookPayload : Type 0 where
  pub action : String
  pub task : Task
  pub timestamp : String
  pub old_status : Status
  pub new_status : Status

pub record WebhookRequest : Type 0 where
  pub url : String
  pub body : String
  pub timestamp : String
  pub signature : Option String

-- What building a request uses: ValidateWebhookURL, which gives the text of an error, JSON, the hex
-- text of an HMAC-SHA256, and the ciphers.
pub record Signing : Type 0 where
  pub url_error : String → Option String
  pub marshal : WebhookPayload → String
  pub hmac : (key message : String) → String
  pub crypto : Crypto

abbrev pub signed :
    Signing → (timestamp body url : String) → (secret : Option String) → Option WebhookRequest
signed s timestamp body url none = none
signed s timestamp body url (some secret) = some (record {
  url = url;
  body = body;
  timestamp = timestamp;
  signature = some (s.hmac secret (timestamp <> ("." <> body)));
})

abbrev pub built : Signing → Agent → (timestamp body : String) → Option WebhookRequest
built s a timestamp body =
    if a.webhook_secret == ""
    then some (record { url = a.webhook_url; body = body; timestamp = timestamp; signature = none })
    else signed s timestamp body a.webhook_url (decrypt_webhook_secret s.crypto a.webhook_secret)

-- The request, or nothing where an error ends the function before it is sent.
unfoldable pub webhook_request : Signing → Agent → WebhookPayload → Option WebhookRequest
webhook_request s a p = elim (s.url_error a.webhook_url) [
  | some message ↦ none
  | none ↦ built s a p.timestamp (s.marshal p)
]

-- sendWebhook up to the request; `timestamp` is the time in RFC 3339.
unfoldable pub new_task_request :
    Signing → Agent → Task → (timestamp : String) → Option WebhookRequest
new_task_request s a t timestamp = webhook_request s a (record {
  action = "new_task";
  task = t;
  timestamp = timestamp;
  old_status = Status.unset;
  new_status = Status.unset;
})

-- sendStatusWebhook up to the request.
unfoldable pub status_request :
    Signing
    → Agent
    → Task
    → (old new : Status) → (action timestamp : String) → Option WebhookRequest
status_request s a t old new action timestamp = webhook_request s a (record {
  action = action;
  task = t;
  timestamp = timestamp;
  old_status = old;
  new_status = new;
})

-- What becomes of a webhook: `post` of the retry queue, with the clock and the HTTP client, after so many
-- database calls.
unfoldable pub deliver :
    Signing
    → (clock : ℕ → String) → (http : WebhookRequest → ℕ → Delivery) → Agent
    → Task
    → (calls : ℕ) → Delivery
deliver s clock http a t calls = elim (new_task_request s a t (clock calls)) [
  | none ↦ not_sent
  | some r ↦ http r calls
]
