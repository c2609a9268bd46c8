-- ===== src/Tests/Webhooks.antt =====
-- The theorems on webhooks, their URLs and the retry queue at concrete inputs.
use acb_go.Prelude.{
  ℕ, ◌<>◌, ◌≡◌, refl, arith, eq_iff, true, false, none, some, [], ◌∷◌, filter, if◌then◌else◌,
}
use acb_go.Models.{Status, Agent}
use acb_go.Session.{World, ok}
use acb_go.Db.Secrets.{init_cipher, encrypt_webhook_secret}
use acb_go.Db.AgentRepo.{has_all}
use acb_go.Api.Dispatching.Addresses.{is_private_ip, contains_ip, shortened}
use acb_go.Api.Dispatching.Urls.{validate_webhook_url, check_host, get_pin, check_ips}
use acb_go.Api.Dispatching.Pins.{Passes, validate_webhook_url-Passes, pins_hold}
use acb_go.Api.Dispatching.Webhooks.{dispatch_new_task, has_url, WebhookPayload, webhook_request}
use acb_go.Api.Dispatching.Recipients.{
  are_completed, dispatch_new_task-recipients, webhook_request-signature,
}
use acb_go.Prelude.{◌≤◌}
use acb_go.Prelude.{◌+◌, length}
use acb_go.Api.Dispatching.Retries.{keep_last}
use acb_go.Api.Dispatching.Queue.{Queue, empty_queue, trim, push, execute, Interleaves, stay, after}
use acb_go.Api.Dispatching.Queue.Overlap.{length-Interleaves}
use acb_go.Tests.Services.{length-copies}
use acb_go.Tests.Samples.{start_world, quiet_env, quiet_env-IsQuiet, open_task, gopher, board}
use acb_go.Tests.Services.{
  stored_secret, crypto-IsCrypto, copies, net, rebound_net, hook, public_ip, signing,
}

validate_webhook_url-Passes_example : Passes net 5 [] "https://hook.example/new"
unfolding validate_webhook_url check_host get_pin check_ips is_private_ip contains_ip shortened
validate_webhook_url-Passes_example =
    validate_webhook_url-Passes net 5 [] "https://hook.example/new" refl

pins_hold_example :
    validate_webhook_url rebound_net 900
      (validate_webhook_url net 5 [] "https://hook.example/new").1
      "https://hook.example/new"
    ≡ (none, (validate_webhook_url net 5 [] "https://hook.example/new").1)
unfolding validate_webhook_url check_host get_pin check_ips is_private_ip contains_ip shortened
pins_hold_example =
    pins_hold net rebound_net 5 900 [] "https://hook.example/new" hook public_ip [] refl refl refl
      refl refl refl (omega arith)

dispatch_new_task-recipients_example :
    (v : World) × (dispatch_new_task open_task quiet_env start_world ≡ (
      ok (
          if are_completed board.tasks open_task.parents
          then filter
              (λ a. has_url a)
              (filter (λ a. has_all a.skills open_task.required_skills) board.agents)
          else []),
      v,
    ))
    × (v.store ≡ board)
dispatch_new_task-recipients_example =
    dispatch_new_task-recipients quiet_env quiet_env-IsQuiet open_task start_world

abbrev hooked_agent : Agent
hooked_agent = record gopher {
  webhook_url = "https://hook.example/new";
  webhook_secret = stored_secret;
}

abbrev payload : WebhookPayload
payload = record {
  action = "new_task";
  task = open_task;
  timestamp = "2025-01-01T00:00:00Z";
  old_status = Status.unset;
  new_status = Status.unset;
}

webhook_request-signature_example :
    webhook_request signing hooked_agent payload
    ≡ (elim (signing.url_error hooked_agent.webhook_url) [
      | some message ↦ none
      | none ↦ some (record {
        url = hooked_agent.webhook_url;
        body = signing.marshal payload;
        timestamp = payload.timestamp;
        signature =
            some (signing.hmac "hush" (payload.timestamp <> ("." <> signing.marshal payload)));
      })
    ])
unfolding init_cipher encrypt_webhook_secret
webhook_request-signature_example =
    webhook_request-signature signing crypto-IsCrypto hooked_agent payload (copies 32 1)
      (copies 12 0) "hush" refl refl refl refl
      (λ h. let b : false ≡ true = (eq_iff stored_secret "").1 h in cc)

-- One call of enqueueRetry, and the queue that it may meet.
one_entry : Interleaves 1 (empty_queue ℕ) (record { entries = 7 ∷ []; halfway = 0 })
unfolding execute keep_last
one_entry = after (after stay trim refl (omega arith)) (push 7) refl (omega arith)

length-Interleaves_example :
    (1 ≤ 999 + 1)
    × ((r : Queue ℕ) × Interleaves 2 (record { entries = copies 999 0; halfway = 0 }) r
        × (r.halfway ≡ 0)
        × (length r.entries ≡ 1001))
length-Interleaves_example =
    length-Interleaves 1 (record { entries = 7 ∷ []; halfway = 0 }) (copies 999 0) 8 9 one_entry
      (length-copies 999 0)
