-- ===== src/Webhook/Dispatch.antt =====
-- src/webhook.rs, `WebhookDispatcher`. The network, the clock and the serialisation to JSON are
-- parameters; the cache, if there is one, is the one in memory. The headers, the signature and the
-- metrics of a delivery are left out.
use proof_stell_contract.Base.{
  ℕ, zero, suc, ◌+◌, ◌/◌, ◌%◌, ◌^◌, ◌==◌, leb, min, if◌then◌else◌, Bool, true, false, Option, none,
  some, is_some, List, [], ◌∷◌, ◌++◌, length,
}
use proof_stell_contract.Base.Words.{as_u32, saturating_add_u64, saturating_mul_u64}
use proof_stell_contract.Cache.InMemory
use proof_stell_contract.Cache.InMemory.{Text, CacheKey, InMemoryCache, get_raw_with_expiry}
use proof_stell_contract.Audit.Events.{Event}

abbrev pub max_dlq_depth : ℕ
max_dlq_depth = 10000

-- `webhook:dlq:`
abbrev pub dlq_redis_key_prefix : Text
dlq_redis_key_prefix = 119 ∷ 101 ∷ 98 ∷ 104 ∷ 111 ∷ 111 ∷ 107 ∷ 58 ∷ 100 ∷ 108 ∷ 113 ∷ 58 ∷ []

-- `webhook:dedup:`
abbrev pub dedup_key_prefix : Text
dedup_key_prefix =
    119 ∷ 101 ∷ 98 ∷ 104 ∷ 111 ∷ 111 ∷ 107 ∷ 58 ∷ 100 ∷ 101 ∷ 100 ∷ 117 ∷ 112 ∷ 58 ∷ []

-- `delivered`
abbrev pub delivered : Text
delivered = 100 ∷ 101 ∷ 108 ∷ 105 ∷ 118 ∷ 101 ∷ 114 ∷ 101 ∷ 100 ∷ []

-- The payload is the event.
pub record DeadLetterEntry : Type 0 where
  pub url : Text
  pub payload : Event
  pub attempts : ℕ
  pub last_error : Text

pub record WebhookDispatcherConfig : Type 0 where
  pub urls : List Text
  pub max_retries : ℕ
  pub base_delay_ms : ℕ
  pub max_delay_ms : ℕ
  pub jitter_enabled : Bool
  pub deduplication_ttl : ℕ

-- What a request answers: `none` for success, or the text of an error. A read of the clock gives the
-- seconds, and the nanoseconds within the second.
pub record Network : Type 1 where
  pub World : Type 0
  pub send_once : Text → Event → World → Option Text × World
  pub sleep : ℕ → World → World
  pub now : World → ℕ
  pub nanos : World → ℕ
  pub encode : DeadLetterEntry → Text
  pub decode : Text → Option DeadLetterEntry

unfoldable pub jitter_ms : ℕ → ℕ → ℕ
jitter_ms nanos max_ms = if max_ms == 0 then 0 else nanos % max_ms

unfoldable pub backoff_delay : WebhookDispatcherConfig → ℕ → ℕ → ℕ
backoff_delay config nanos attempt =
    let exp = saturating_mul_u64 config.base_delay_ms (2 ^ min attempt 20) in
    let capped = min exp config.max_delay_ms in
    if config.jitter_enabled
    then saturating_add_u64 capped (jitter_ms nanos (capped / 4))
    else capped

-- The oldest goes where the queue is full.
abbrev pub push_bounded : DeadLetterEntry → List DeadLetterEntry → List DeadLetterEntry
push_bounded entry [] = entry ∷ []
push_bounded entry (oldest ∷ dlq) =
    if leb max_dlq_depth (length (oldest ∷ dlq))
    then dlq ++ entry ∷ []
    else (oldest ∷ dlq) ++ entry ∷ []

abbrev pub dlq_key : Text → CacheKey
dlq_key url = CacheKey.events (dlq_redis_key_prefix ++ url)

-- The depth of the queue is counted over all URLs, each looked up in the cache.
abbrev probe_all : List Text → ℕ → InMemoryCache → InMemoryCache
probe_all [] now c = c
probe_all (u ∷ urls) now c = probe_all urls now (get_raw_with_expiry (dlq_key u) now c).1

-- Whether the event was dispatched before; if not, it is marked so.
abbrev pub deduplicate : Event → Option InMemoryCache → ℕ → ℕ → Bool × Option InMemoryCache
deduplicate event none ttl now = (false, none)
deduplicate event (some c) ttl now =
    let key = CacheKey.events (dedup_key_prefix ++ event.idempotency_key) in
    let (found, c') = get_raw_with_expiry key now c in
    if is_some found.0
    then (true, some c')
    else (false, some (InMemory.set_raw key delivered ttl now c'))

module _ (network : Network) where
  open network use {World}

  -- The dead letters, oldest first, and the cache.
  pub record WebhookDispatcher : Type 0 where
    pub config : WebhookDispatcherConfig
    pub dlq : List DeadLetterEntry
    pub cache : Option InMemoryCache
    pub world : World

  abbrev pub wait : WebhookDispatcherConfig → ℕ → World → World
  wait config zero w = w
  wait config (suc attempt) w = network.sleep (backoff_delay config (network.nanos w) attempt) w

  -- What is left of the loop over the attempts, with the number of the next: `none` for a delivery, or
  -- the last error.
  unfoldable pub attempt_from :
      WebhookDispatcherConfig → Text → Event → ℕ → ℕ → Text → World → Option Text × World
  attempt_from config url payload zero attempt last_error w = (some last_error, w)
  attempt_from config url payload (suc left) attempt last_error w =
      let r = network.send_once url payload (wait config attempt w) in
      go r.0 r.1 (attempt_from config url payload left (suc attempt))
    where
      go : Option Text → World → (Text → World → Option Text × World) → Option Text × World
      go none w' rest = (none, w')
      go (some error) w' rest = rest error w'

  abbrev store_letter :
      DeadLetterEntry → Option InMemoryCache → WebhookDispatcher → WebhookDispatcher
  store_letter entry (some c) d =
      let now = network.now d.world in
      let kept = InMemory.set_raw (dlq_key entry.url) (network.encode entry) 604800 now c in
      record d { cache = some (probe_all d.config.urls now kept) }
  store_letter entry none d = record d { dlq = push_bounded entry d.dlq }

  abbrev after_attempts : Text → Event → Option Text → WebhookDispatcher → WebhookDispatcher
  after_attempts url payload none d = d
  after_attempts url payload (some last_error) d =
      store_letter
        (record {
          url = url;
          payload = payload;
          attempts = as_u32 (d.config.max_retries + 1);
          last_error = last_error;
        })
        d.cache d

  -- The empty text stands for the error before the first attempt; there always is an attempt.
  unfoldable pub deliver_with_retry : Text → Event → WebhookDispatcher → WebhookDispatcher
  deliver_with_retry url payload d =
      let r = attempt_from d.config url payload (d.config.max_retries + 1) 0 [] d.world in
      after_attempts url payload r.0 (record d { world = r.1 })

  unfoldable pub deliver_all : List Text → Event → WebhookDispatcher → WebhookDispatcher
  deliver_all [] event d = d
  deliver_all (url ∷ urls) event d = deliver_all urls event (deliver_with_retry url event d)

  unfoldable pub dispatch : Event → WebhookDispatcher → WebhookDispatcher
  dispatch event d =
      let r = deduplicate event d.cache d.config.deduplication_ttl (network.now d.world) in
      let d' : WebhookDispatcher = record d { cache = r.1 } in
      if length d.config.urls == 0
      then d
      else if r.0
      then d'
      else deliver_all d.config.urls event d'
