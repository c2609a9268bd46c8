-- ===== src/Api/Dispatching/Recipients.antt =====
-- Whom DispatchNewTask of internal/dispatcher/dispatcher.go sends a task to, and how a request is signed.
use acb_go.Prelude.{
  ℕ, String, ◌<>◌, ◌≡◌, ◌≢◌, refl, ◌∙◌, Bool, true, false, ◌&&◌, Option, none, some, List, [], ◌∷◌,
  filter, arith, eq_iff, length, if◌then◌else◌, Option-cases, Bool-cases, inl, inr,
}
use acb_go.Models.{Task, Agent, Status, is}
use acb_go.Db.Rows.{find}
use acb_go.Db.Secrets.{init_cipher, encrypt_webhook_secret}
use acb_go.Db.Secrets.RoundTrip.{IsCrypto, decrypt-encrypt}
use acb_go.Db.TaskRepo.Reads.{scan_task_row, get_by_id}
use acb_go.Db.TaskRepo.Quiet.{get_by_id_quiet}
use acb_go.Db.AgentRepo.{has_all, find_matching_agents}
use acb_go.Session.{Env, World, ok, pure, on_error, if_nil}
use acb_go.Session.Quiet.{IsQuiet, ticked, bind-ok, on_error-ok, query_quiet}
use acb_go.Api.Dispatching.Webhooks.{
  all_completed, has_url, dispatch_new_task, WebhookPayload, Signing, webhook_request,
}

-- The test of the loop on the tables.
abbrev pub is_completed : Option Task → Bool
is_completed none = false
is_completed (some t) = is t.status Status.completed

abbrev pub are_completed : List Task → List String → Bool
are_completed ts [] = true
are_completed ts (id ∷ rest) = is_completed (find Task.id id ts) && are_completed ts rest

scan-completed :
    (t : Task) → is (scan_task_row t).status Status.completed ≡ is t.status Status.completed
unfolding scan_task_row
scan-completed t = ground arith

module _ (e : Env) (q : IsQuiet e) where
  found :
      (id : String) (w : World) (t : Task)
      → find Task.id id w.store.tasks ≡ some t
      → on_error (get_by_id id) (λ x. pure none) e w ≡ (ok (some (scan_task_row t)), ticked w)
  found id w t f = on_error-ok e (get_by_id id) _ w _ _ (get_by_id_quiet e q id w ∙ rw f refl)

  parents_quiet :
      (ids : List String) (w : World)
      → (v : World) × (all_completed ids e w ≡ (ok (are_completed w.store.tasks ids), v))
        × (v.store ≡ w.store)
  unfolding all_completed if_nil
  parents_quiet [] w = (w, unfold pure in refl, refl)
  parents_quiet (id ∷ rest) w = elim (Option-cases (find Task.id id w.store.tasks)) [
    | inl n ↦ (
      ticked w,
      bind-ok e _ _ w (ticked w) none
            (on_error-ok e (get_by_id id) _ w _ _ (get_by_id_quiet e q id w ∙ rw n refl))
          ∙ rw n (unfold pure in refl),
      refl,
    )
    | inr (t, f) ↦ elim (Bool-cases (is t.status Status.completed)) [
      | inl c ↦
          let (v, h, s) = parents_quiet rest (ticked w) in
          (
            v,
            bind-ok e _ _ w (ticked w) (some (scan_task_row t)) (found id w t f)
                ∙ rw (scan-completed t, c, f, c) h,
            s,
          )
      | inr c ↦ (
        ticked w,
        bind-ok e _ _ w (ticked w) (some (scan_task_row t)) (found id w t f)
            ∙ rw (scan-completed t, c, f, c) (unfold pure in refl),
        refl,
      )
    ]
  ]

  -- A task that is dispatched alone is sent to the agents that have a webhook URL and every skill that it
  -- requires, in the order of the table, if each of its parents is there and completed, and to nobody
  -- otherwise; no table changes.
  pub dispatch_new_task-recipients :
      (t : Task) (w : World)
      → (v : World) × (dispatch_new_task t e w ≡ (
        ok (
            if are_completed w.store.tasks t.parents
            then filter
                (λ a. has_url a)
                (filter (λ a. has_all a.skills t.required_skills) w.store.agents)
            else []),
        v,
      ))
        × (v.store ≡ w.store)
  unfolding dispatch_new_task find_matching_agents
  dispatch_new_task-recipients t w =
      let (v, h, s) = parents_quiet t.parents w in
      elim (Bool-cases (are_completed w.store.tasks t.parents)) [
        | inl c ↦ (
          ticked v,
          bind-ok e (all_completed t.parents) _ w v _ h
              ∙ rw c (
                  bind-ok e _ _ v (ticked v) _
                    (on_error-ok e _ _ v (ticked v) _ (query_quiet e q _ v))
                  ∙ rw s (unfold pure in refl)),
          s,
        )
        | inr c ↦ (v, bind-ok e (all_completed t.parents) _ w v _ h ∙ rw c (unfold pure in refl), s)
      ]

-- The request to an agent whose secret was encrypted for storage goes to the agent's URL with the
-- signature by the secret itself of the timestamp and the body; there is none if the URL does not pass its
-- check.
pub webhook_request-signature :
    (s : Signing) (k : IsCrypto s.crypto) (a : Agent) (p : WebhookPayload) (key nonce : List ℕ)
    (secret : String)
    → s.crypto.open_sealed key nonce (s.crypto.seal key nonce secret) ≡ some secret
    → length nonce ≡ 12
    → init_cipher s.crypto ≡ some key
    → encrypt_webhook_secret s.crypto (some nonce) secret ≡ some a.webhook_secret
    → a.webhook_secret ≢ ""
    → webhook_request s a p ≡ (elim (s.url_error a.webhook_url) [
      | some message ↦ none
      | none ↦ some (record {
        url = a.webhook_url;
        body = s.marshal p;
        timestamp = p.timestamp;
        signature = some (s.hmac secret (p.timestamp <> ("." <> s.marshal p)));
      })
    ])
unfolding webhook_request
webhook_request-signature s k a p key nonce secret o l i h n =
    let d = decrypt-encrypt s.crypto k key nonce secret a.webhook_secret o l i h in
    ground (arith, d, eq_iff a.webhook_secret "")
