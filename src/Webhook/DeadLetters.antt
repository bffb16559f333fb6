-- ===== src/Webhook/DeadLetters.antt =====
-- src/webhook.rs, `WebhookDispatcher`: the delays, the attempts, and the bound on the dead letters.
use proof_stell_contract.Base.{
  ℕ, ◌+◌, ◌/◌, ◌^◌, ◌==◌, min, ℕ_discrete, ◌≤◌, ◌≡◌, arith, leb, if_both, Bool, true, false,
  Bool-cases, Option-cases, inl, inr, Option, List, [], ◌∷◌, length, length-append,
}
use native.Mathlib.Nat.{mod-lt}
use proof_stell_contract.Base.Words.{saturating_mul_u64}
use proof_stell_contract.Audit.Events.{Event}
use proof_stell_contract.Cache.InMemory.{Text, InMemoryCache}
use proof_stell_contract.Webhook.Dispatch.{
  WebhookDispatcherConfig, Network, WebhookDispatcher, DeadLetterEntry, max_dlq_depth,
  backoff_delay, push_bounded, jitter_ms, deliver_with_retry, deliver_all, dispatch, attempt_from,
  deduplicate,
}

jitter_ms-le : (nanos max_ms : ℕ) → jitter_ms nanos max_ms ≤ max_ms
unfolding jitter_ms
jitter_ms-le nanos max_ms = elim (ℕ_discrete max_ms 0) [
  | yes p ↦ let h : max_ms == 0 ≡ true = ground arith in rw h (omega arith)
  | no n ↦
      let h : max_ms == 0 ≡ false = ground arith in
      rw h (let l = mod-lt nanos {m = max_ms} (omega arith) in omega arith)
]

-- The delay before a retry is at most the configured maximum and a quarter of it.
pub backoff_delay-le :
    (config : WebhookDispatcherConfig) (nanos attempt : ℕ)
    → backoff_delay config nanos attempt ≤ config.max_delay_ms + config.max_delay_ms / 4
unfolding backoff_delay
backoff_delay-le config nanos attempt =
    if_both (λ n. n ≤ config.max_delay_ms + config.max_delay_ms / 4) config.jitter_enabled _ _
      (let j = jitter_ms-le nanos (capped / 4) in omega arith) (omega arith)
  where
    capped : ℕ
    capped = min (saturating_mul_u64 config.base_delay_ms (2 ^ min attempt 20)) config.max_delay_ms

push_bounded-fits :
    (entry : DeadLetterEntry) (dlq : List DeadLetterEntry)
    → length dlq ≤ max_dlq_depth
    → length (push_bounded entry dlq) ≤ max_dlq_depth
push_bounded-fits entry [] h = omega arith
push_bounded-fits entry (oldest ∷ dlq) h =
    elim (Bool-cases (leb max_dlq_depth (length (oldest ∷ dlq)))) [
      | inl p ↦ rw p (omega (arith, length-append dlq (entry ∷ [])))
      | inr p ↦ rw p (let l = length-append (oldest ∷ dlq) (entry ∷ []) in ground arith)
    ]

module _ (network : Network) where
  deliver_with_retry-fits :
      (url : Text) (event : Event) (d : WebhookDispatcher network)
      → length d.dlq ≤ max_dlq_depth
      → length (deliver_with_retry network url event d).dlq ≤ max_dlq_depth
  unfolding deliver_with_retry
  deliver_with_retry-fits url event d h =
      elim (Option-cases
        (attempt_from network d.config url event (d.config.max_retries + 1) 0 [] d.world).0) [
          | inl p ↦ rw p h
          | inr (e, p) ↦ elim (Option-cases d.cache) [
            | inl q ↦ rw (p, q) (push_bounded-fits _ d.dlq h)
            | inr (c, q) ↦ rw (p, q) h
          ]
        ]

  deliver_all-fits :
      (urls : List Text) (event : Event) (d : WebhookDispatcher network)
      → length d.dlq ≤ max_dlq_depth
      → length (deliver_all network urls event d).dlq ≤ max_dlq_depth
  unfolding deliver_all
  deliver_all-fits [] event d h = h
  deliver_all-fits (url ∷ urls) event d h =
      deliver_all-fits urls event (deliver_with_retry network url event d)
        (deliver_with_retry-fits url event d h)

  -- Whatever the network answers, a dispatch keeps the queue of dead letters in memory within its bound.
  pub dispatch-fits :
      (event : Event) (d : WebhookDispatcher network)
      → length d.dlq ≤ max_dlq_depth
      → length (dispatch network event d).dlq ≤ max_dlq_depth
  unfolding dispatch
  dispatch-fits event d h = if_both Within (length d.config.urls == 0) d _ h (
      if_both Within r.0 d' (deliver_all network d.config.urls event d') h
        (deliver_all-fits d.config.urls event d' h))
    where
      Within : WebhookDispatcher network → Type 0
      Within x = length x.dlq ≤ max_dlq_depth

      r : Bool × Option InMemoryCache
      r = deduplicate event d.cache d.config.deduplication_ttl (network.now d.world)

      d' : WebhookDispatcher network
      d' = record d { cache = r.1 }
