-- ===== src/Webhook/Drain.antt =====
-- src/webhook.rs, `drain_dlq` and `dlq_depth`: the dead letters are in the cache, one for a URL, or, where
-- there is none, in the queue.
use proof_stell_contract.Base.{ℕ, ◌+◌, Option, none, some, List, [], ◌∷◌, ◌++◌, length}
use proof_stell_contract.Cache.InMemory.{Text, InMemoryCache, get_raw_with_expiry, delete}
use proof_stell_contract.Webhook.Dispatch.{Network, WebhookDispatcher, DeadLetterEntry, dlq_key}

abbrev pub listed : Option DeadLetterEntry → List DeadLetterEntry
listed none = []
listed (some entry) = entry ∷ []

abbrev pub one_if_found : Option Text → ℕ
one_if_found none = 0
one_if_found (some raw) = 1

unfoldable pub count_letters : List Text → ℕ → InMemoryCache → ℕ × InMemoryCache
count_letters [] now c = (0, c)
count_letters (url ∷ urls) now c =
    let r = get_raw_with_expiry (dlq_key url) now c in
    let rest = count_letters urls now r.1 in (one_if_found r.0.0 + rest.0, rest.1)

module _ (network : Network) where
  -- A letter that cannot be parsed is dropped.
  abbrev pub read_letter : Option Text → List DeadLetterEntry
  read_letter none = []
  read_letter (some raw) = listed (network.decode raw)

  unfoldable pub drain_urls : List Text → ℕ → InMemoryCache → List DeadLetterEntry × InMemoryCache
  drain_urls [] now c = ([], c)
  drain_urls (url ∷ urls) now c =
      let r = get_raw_with_expiry (dlq_key url) now c in
      let rest = drain_urls urls now (delete (dlq_key url) r.1) in
      (read_letter r.0.0 ++ rest.0, rest.1)

  abbrev pub drain_from :
      Option InMemoryCache
      → WebhookDispatcher network
      → List DeadLetterEntry × WebhookDispatcher network
  drain_from none d = (d.dlq, record d { dlq = [] })
  drain_from (some c) d =
      let r = drain_urls d.config.urls (network.now d.world) c in
      (r.0, record d { cache = some r.1 })

  unfoldable pub drain_dlq :
      WebhookDispatcher network → List DeadLetterEntry × WebhookDispatcher network
  drain_dlq d = drain_from d.cache d

  abbrev pub depth_in :
      Option InMemoryCache → WebhookDispatcher network → ℕ × WebhookDispatcher network
  depth_in none d = (length d.dlq, d)
  depth_in (some c) d =
      let r = count_letters d.config.urls (network.now d.world) c in
      (r.0, record d { cache = some r.1 })

  unfoldable pub dlq_depth : WebhookDispatcher network → ℕ × WebhookDispatcher network
  dlq_depth d = depth_in d.cache d
