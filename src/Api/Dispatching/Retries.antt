-- ===== src/Api/Dispatching/Retries.antt =====
-- The retry queue of one agent in internal/dispatcher/dispatcher.go: sendWebhook, enqueueRetry,
-- retryEntry and the loop of processAllRetryQueues. An entry stands under the key of its agent.
-- Redis commands succeed, and `Json` is the type of the texts in the queue.
use acb_go.Prelude.{
  drop, ℕ, suc, zero, ◌-◌, String, Bool, not, ◌&&◌, Option, none, some, List, [], ◌∷◌, ◌++◌, ◌==◌,
  leb, if◌then◌else◌, length,
}
use acb_go.Models.{Task, Agent, Status, is}
use acb_go.Session.{M, pure, on_error, if_nil, ◌>>=◌}
use acb_go.Db.TaskRepo.Reads.{get_by_id}
use acb_go.Db.AgentRepo.{get_by_name}

pub record RetryEntry : Type 0 where
  pub task_id : String
  pub agent_name : String
  pub attempt : ℕ

-- How far a webhook gets: a return before the request is sent, an error of `httpClient.Do`, or the
-- status code of the answer.
pub data Delivery : Type 0 where
  not_sent : Delivery
  no_answer : Delivery
  status_code : ℕ → Delivery

-- The outside of the dispatcher: the text of an entry and its reading, whether `rdb` is not nil,
-- and what becomes of a webhook that is sent after so many database calls.
pub record Sender (Json : Type 0) : Type 0 where
  pub marshal : RetryEntry → Json
  pub unmarshal : Json → Option RetryEntry
  pub has_rdb : Bool
  pub post : Agent → Task → (calls : ℕ) → Delivery

-- LTRIM key -n -1.
unfoldable pub keep_last : {Json : Type 0} → ℕ → List Json → List Json
keep_last n q = drop (length q - n) q

abbrev pub max_retries : ℕ
max_retries = 5

abbrev pub max_retry_queue_size : ℕ
max_retry_queue_size = 1000

unfoldable pub enqueue_retry :
    {Json : Type 0} → Sender Json → String → String → ℕ → List Json → List Json
enqueue_retry s agent_name task_id attempt q =
    if s.has_rdb
    then keep_last (max_retry_queue_size - 1) q
      ++ (s.marshal (record { task_id = task_id; agent_name = agent_name; attempt = suc attempt })
          ∷ [])
    else q

unfoldable pub has_failed : Delivery → Bool
has_failed not_sent = Bool.false
has_failed no_answer = Bool.true
has_failed (status_code n) = leb 300 n

-- What the webhook's outcome does to the queue.
unfoldable pub send_webhook :
    {Json : Type 0} → Sender Json → Agent → Task → ℕ → List Json → M (List Json)
send_webhook s a t attempt q e w =
    pure (if has_failed (s.post a t w.calls) then enqueue_retry s a.name t.id attempt q else q) e w

unfoldable pub retry_with :
    {Json : Type 0} → Sender Json → RetryEntry → List Json → Task → Option Agent → M (List Json)
retry_with s x q t found =
    if_nil found (pure q)
      λ a. if a.webhook_url == "" then pure q else send_webhook s a t x.attempt q

unfoldable pub is_over : Task → Bool
is_over t = not (is t.status Status.pending) && not (is t.status Status.claimed)

unfoldable pub retry_task :
    {Json : Type 0} → Sender Json → RetryEntry → List Json → Task → M (List Json)
retry_task s x q t =
    if is_over t
    then pure q
    else on_error (get_by_name x.agent_name) (λ y. pure none) >>= retry_with s x q t

-- The wait is left out.
unfoldable pub retry : {Json : Type 0} → Sender Json → RetryEntry → List Json → M (List Json)
retry s x q = if leb max_retries x.attempt then pure q else do
  found ← on_error (get_by_id x.task_id) (λ y. pure none)
  if_nil found (pure q) (retry_task s x q)

abbrev pub retry_parsed :
    {Json : Type 0} → Sender Json → Option RetryEntry → List Json → M (List Json)
retry_parsed s none q = pure q
retry_parsed s (some x) q = retry s x q

unfoldable pub retry_entry : {Json : Type 0} → Sender Json → Json → List Json → M (List Json)
retry_entry s text q = retry_parsed s (s.unmarshal text) q

-- The loop over one queue, for at most so many entries; the result is what is left of the queue.
unfoldable pub drain : {Json : Type 0} → Sender Json → ℕ → List Json → M (List Json)
drain s zero q = pure q
drain s (suc n) [] = pure []
drain s (suc n) (d ∷ q) = retry_entry s d q >>= drain s n
