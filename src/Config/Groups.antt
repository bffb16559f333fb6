-- ===== src/Config/Groups.antt =====
-- src/config.rs, `from_env`: the ranges of each group of variables that adds no message.
use proof_stell_contract.Base.{
  ℕ, ◌*◌, ◌≤◌, ◌<◌, ◌≡◌, arith, ltb, leb, not, true, inl, inr, Bool-cases, Option, none, some, [],
}
use mathlib.Core.Option.{some-injective}
use proof_stell_contract.Base.Words.{u32_max, u64_max, as_u32}
use proof_stell_contract.Hash.Tools.{Text}
use proof_stell_contract.Config.Variables.{Variable, Environment}
use proof_stell_contract.Config.Parse.{max_timeout_ms, flatten}
use proof_stell_contract.Config.Versions.{port_max, new_port}
use proof_stell_contract.Config.Ranges.{
  positive-range, any-le, bounded-range, limited-range, taken-positive, flatten-nil, unless-nil,
}
use proof_stell_contract.Config.RateFields
use proof_stell_contract.Config.StellarFields
use proof_stell_contract.Config.CacheFields
use proof_stell_contract.Config.WebhookFields
use proof_stell_contract.Config.Checks
use proof_stell_contract.Config.Load.{
  AppConfig, service_faults, stellar_faults, cache_faults, last_faults, config,
}

abbrev pub Between : ℕ → ℕ → ℕ → Type 0
Between low high n = (low ≤ n) × (n ≤ high)

-- A delay that a service may wait.
abbrev pub Delay : ℕ → Type 0
Delay = Between 1 max_timeout_ms

-- A count of 32 bits that is not 0.
abbrev pub Count : ℕ → Type 0
Count = Between 1 u32_max

abbrev pub Rates : AppConfig → Type 0
Rates c =
    Between 1 port_max c.port
    × Count c.rate_limit_per_second
    × Between c.rate_limit_per_second u32_max c.rate_limit_burst
    × Between 1 c.rate_limit_per_second c.per_issuer_rate_limit_per_second
    × Between c.per_issuer_rate_limit_per_second u32_max c.per_issuer_rate_limit_burst
    × Between 1 u64_max c.issuer_rate_limit_ttl_seconds
    × (c.per_issuer_rate_limit_jitter_seconds < c.issuer_rate_limit_ttl_seconds)

abbrev pub StellarRanges : AppConfig → Type 0
StellarRanges c =
    (c.stellar_max_retries ≤ u32_max)
    × Delay c.stellar_retry_base_delay_ms
    × Delay c.stellar_retry_max_delay_ms
    × (c.stellar_retry_base_delay_ms ≤ c.stellar_retry_max_delay_ms)
    × Delay c.stellar_request_timeout_ms
    × Count c.stellar_circuit_breaker_failure_threshold
    × Delay c.stellar_circuit_breaker_open_duration_ms
    × Count c.stellar_circuit_breaker_half_open_max_calls
    × Count c.stellar_bulkhead_max_concurrent
    × Count c.stellar_bulkhead_max_queue

abbrev pub CacheRanges : AppConfig → Type 0
CacheRanges c =
    Count c.cache_circuit_breaker_failure_threshold
    × Delay c.cache_circuit_breaker_open_duration_ms
    × Count c.cache_circuit_breaker_half_open_max_calls
    × Delay c.cache_circuit_breaker_backoff_base_ms
    × Delay c.cache_circuit_breaker_backoff_max_ms
    × Count c.cache_bulkhead_max_concurrent
    × Count c.cache_bulkhead_max_queue

abbrev pub WebhookRanges : AppConfig → Type 0
WebhookRanges c =
    (c.webhook_max_retries ≤ u32_max)
    × Delay c.webhook_retry_base_delay_ms
    × Delay c.webhook_retry_max_delay_ms
    × (c.webhook_retry_base_delay_ms ≤ c.webhook_retry_max_delay_ms)
    × Delay c.webhook_request_timeout_ms

ordered : (a b : ℕ) → not (ltb a b) ≡ true → b ≤ a
ordered a b p = ground arith

apart : (a b : ℕ) → not (leb b a) ≡ true → a < b
apart a b p = ground arith

module _ (env : Environment) where
  port_of-Between :
      (o : Option ℕ)
      → (RateFields.port_of env o).1 ≡ []
      → Between 1 port_max (RateFields.port_of env o).0
  unfolding RateFields.port_of new_port
  port_of-Between none p = absurd (ground arith)
  port_of-Between (some n) p = elim (Bool-cases (new_port n)) [
    | inl q ↦ (ground arith, ground arith)
    | inr q ↦ absurd (ground arith)
  ]

  issuer_burst-Count :
      (o : Option Text)
      → (RateFields.per_issuer_burst_of env o).1 ≡ []
      → Count (RateFields.per_issuer_burst_of env o).0
  issuer_burst-Count (some raw) p = positive-range _ _ _ _ p
  issuer_burst-Count none p =
      let (l, q) =
        taken-positive Variable.per_issuer_rate_limit_burst
          (as_u32 ((RateFields.per_issuer_rate_limit_per_second env).0 * 2)) []
          (some (RateFields.per_issuer_burst_default env)) p in
      (l, omega (arith, some-injective _ _ q))

  pub service_faults-Rates : flatten (service_faults env) ≡ [] → Rates (config env)
  unfolding config service_faults RateFields.port RateFields.per_issuer_rate_limit_burst
      RateFields.rate_limit_per_second RateFields.rate_limit_burst
      RateFields.per_issuer_rate_limit_per_second RateFields.issuer_rate_limit_ttl_seconds
      Checks.burst_covers Checks.issuer_burst_covers Checks.issuer_within Checks.jitter_within
  service_faults-Rates p =
      let (
        _,
        (
          port,
          (
            _,
            (
              _,
              (
                rps,
                (
                  burst,
                  (
                    _,
                    (
                      covers,
                      (
                        issuer_rps,
                        (
                          issuer_burst,
                          (issuer_covers, (within, (ttl, (jitter, (jitter_within, _))))),
                        ),
                      ),
                    ),
                  ),
                ),
              ),
            ),
          ),
        ),
      ) =
        flatten-nil (service_faults env) p in
      let rate = positive-range _ _ _ _ rps in
      let issuer = positive-range _ _ _ _ issuer_rps in
      let kept = positive-range _ _ _ _ ttl in
      let top = any-le _ _ _ _ burst in
      let issuer_top = issuer_burst-Count _ issuer_burst in
      (
        port_of-Between _ port,
        rate,
        (ordered _ _ (unless-nil _ _ covers), top),
        (issuer.0, ordered _ _ (unless-nil _ _ within)),
        (ordered _ _ (unless-nil _ _ issuer_covers), issuer_top.1),
        kept,
        apart _ _ (unless-nil _ _ jitter_within),
      )

  pub stellar_faults-StellarRanges :
      flatten (stellar_faults env) ≡ []
      → flatten (last_faults env) ≡ []
      → StellarRanges (config env)
  unfolding config stellar_faults last_faults Checks.stellar_delays
      StellarFields.stellar_max_retries StellarFields.stellar_retry_base_delay_ms
      StellarFields.stellar_retry_max_delay_ms StellarFields.stellar_request_timeout_ms
      StellarFields.stellar_circuit_breaker_failure_threshold
      StellarFields.stellar_circuit_breaker_open_duration_ms
      StellarFields.stellar_circuit_breaker_half_open_max_calls
      StellarFields.stellar_bulkhead_max_concurrent StellarFields.stellar_bulkhead_max_queue
  stellar_faults-StellarRanges p q =
      let (
        retries,
        (
          base,
          (
            longest,
            (_, (timeout, (threshold, (open_for, (calls, (_, (concurrent, (queue, _)))))))),
          ),
        ),
      ) =
        flatten-nil (stellar_faults env) p in
      let (_, (delays, _)) = flatten-nil (last_faults env) q in
      (
        any-le _ _ _ _ retries,
        bounded-range _ _ _ _ base,
        bounded-range _ _ _ _ longest,
        ordered _ _ (unless-nil _ _ delays),
        bounded-range _ _ _ _ timeout,
        positive-range _ _ _ _ threshold,
        bounded-range _ _ _ _ open_for,
        positive-range _ _ _ _ calls,
        positive-range _ _ _ _ concurrent,
        positive-range _ _ _ _ queue,
      )

  pub cache_faults-CacheRanges : flatten (cache_faults env) ≡ [] → CacheRanges (config env)
  unfolding config cache_faults CacheFields.cache_circuit_breaker_failure_threshold
      CacheFields.cache_circuit_breaker_open_duration_ms
      CacheFields.cache_circuit_breaker_half_open_max_calls
      CacheFields.cache_circuit_breaker_backoff_base_ms
      CacheFields.cache_circuit_breaker_backoff_max_ms CacheFields.cache_bulkhead_max_concurrent
      CacheFields.cache_bulkhead_max_queue
  cache_faults-CacheRanges p =
      let (
        _,
        (
          _,
          (
            _,
            (_, (_, (threshold, (open_for, (calls, (base, (longest, (concurrent, (queue, _))))))))),
          ),
        ),
      ) =
        flatten-nil (cache_faults env) p in
      (
        positive-range _ _ _ _ threshold,
        bounded-range _ _ _ _ open_for,
        positive-range _ _ _ _ calls,
        limited-range _ _ _ _ base,
        limited-range _ _ _ _ longest,
        positive-range _ _ _ _ concurrent,
        positive-range _ _ _ _ queue,
      )

  pub last_faults-WebhookRanges : flatten (last_faults env) ≡ [] → WebhookRanges (config env)
  unfolding config last_faults Checks.webhook_delays WebhookFields.webhook_max_retries
      WebhookFields.webhook_retry_base_delay_ms WebhookFields.webhook_retry_max_delay_ms
      WebhookFields.webhook_request_timeout_ms
  last_faults-WebhookRanges p =
      let (_, (_, (retries, (base, (longest, (timeout, (_, (delays, _)))))))) =
        flatten-nil (last_faults env) p in
      (
        any-le _ _ _ _ retries,
        bounded-range _ _ _ _ base,
        bounded-range _ _ _ _ longest,
        ordered _ _ (unless-nil _ _ delays),
        bounded-range _ _ _ _ timeout,
      )
