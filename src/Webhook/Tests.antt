-- ===== src/Webhook/Tests.antt =====
-- A dispatcher at concrete inputs.
use proof_stell_contract.Base.{
  ℕ, ◌+◌, ◌≡◌, refl, arith, false, none, some, List, [], ◌∷◌, ◌++◌, map, length,
}
use proof_stell_contract.Audit.Events.{Event, EventSource}
use proof_stell_contract.Webhook.Dispatch.{
  Network, WebhookDispatcher, attempt_from, deliver_with_retry, deliver_all, dispatch,
}
use proof_stell_contract.Webhook.Drain.{drain_dlq, dlq_depth}
use proof_stell_contract.Webhook.Lossless.{addressed, drain_dlq-dispatch}
use proof_stell_contract.Webhook.Rounds.{Rounds}
use proof_stell_contract.Cache.InMemory.{Text}

-- A network that counts the requests and refuses them all.
abbrev refusing : Network
refusing = record {
  World = ℕ;
  send_once = λ url payload n. (some (101 ∷ []), n + 1);
  sleep = λ ms n. n;
  now = λ n. n;
  nanos = λ n. 0;
  encode = λ entry. [];
  decode = λ text. none;
}

abbrev event : Event
event = record {
  aggregate_id = 1 ∷ [];
  event_type = [];
  sequence = 1;
  actor = [];
  idempotency_key = 7 ∷ [];
  source = EventSource.contract;
}

abbrev dispatcher : WebhookDispatcher refusing
dispatcher = record {
  config = record {
    urls = (1 ∷ []) ∷ (2 ∷ []) ∷ [];
    max_retries = 2;
    base_delay_ms = 200;
    max_delay_ms = 30000;
    jitter_enabled = false;
    deduplication_ttl = 3600;
  };
  dlq = [];
  cache = none;
  world = 0;
}

-- Each URL is tried three times.
tries_each_url : (dispatch refusing event dispatcher).world ≡ 6
unfolding dispatch deliver_all deliver_with_retry attempt_from
tries_each_url = refl

keeps_each_letter : length (dispatch refusing event dispatcher).dlq ≡ 2
unfolding dispatch deliver_all deliver_with_retry attempt_from
keeps_each_letter = refl

drain_dlq-dispatch_example :
    (letters : List (Text × Event)) × Rounds refusing dispatcher.config event dispatcher.config.urls
      0 letters
      (dispatch refusing event dispatcher).world
    × (map addressed (drain_dlq refusing (dispatch refusing event dispatcher)).0 ≡ [] ++ letters)
    × ((dlq_depth refusing (drain_dlq refusing (dispatch refusing event dispatcher)).1).0 ≡ 0)
drain_dlq-dispatch_example = drain_dlq-dispatch refusing event dispatcher refl (omega arith)
