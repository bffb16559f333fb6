-- ===== src/Config/Tests.antt =====
-- The configuration at a concrete environment: only the secret key is set.
use proof_stell_contract.Base.{
  ◌≤◌, ◌<◌, ◌≡◌, refl, ◌==◌, if◌then◌else◌, true, Option, none, some, [], ◌∷◌, list_eq, ℕ_discrete,
}
use proof_stell_contract.Hash.Tools.{Text, trim_start, trim_end}
use proof_stell_contract.Config.Variables.{Variable, bytes, Environment}
use proof_stell_contract.Config.Parse
use proof_stell_contract.Config.RateFields
use proof_stell_contract.Config.StellarFields
use proof_stell_contract.Config.CacheFields
use proof_stell_contract.Config.WebhookFields
use proof_stell_contract.Config.Checks
use proof_stell_contract.Config.Versions.{new_port}
use proof_stell_contract.Config.Load.{
  Loaded, config, from_env, faults, service_faults, stellar_faults, cache_faults, last_faults,
}
use proof_stell_contract.Config.Accepted.{IsValid, from_env-IsValid}
use proof_stell_contract.Config.Parse.{max_timeout_ms}
use proof_stell_contract.Config.Clients.{client_of, client_of-IsValid}
use proof_stell_contract.Stellar.Transitions.{Consistent}
use proof_stell_contract.Stellar.Verify.{retry_delay}
use proof_stell_contract.Stellar.Tests.{silent}

abbrev only_key : Variable → Option Text
only_key Variable.stellar_secret_key = some (bytes "S")
only_key _ = none

abbrev scheme_of : Text → Option Text
scheme_of [] = none
scheme_of (c ∷ cs) = if c == b'r' then some (bytes "redis") else some (bytes "https")

abbrev defaults : Environment
defaults = record { var = only_key; scheme = scheme_of; is_secret_key = λ key. true }

loads : from_env defaults ≡ Loaded.accepted (config defaults)
unfolding from_env faults service_faults stellar_faults cache_faults last_faults config
    RateFields.port_of RateFields.port RateFields.stellar_secret_key RateFields.stellar_horizon_url
    RateFields.redis_url RateFields.log_level RateFields.rate_limit_per_second
    RateFields.rate_limit_burst RateFields.per_issuer_rate_limit_per_second
    RateFields.per_issuer_rate_limit_burst RateFields.issuer_rate_limit_ttl_seconds
    RateFields.per_issuer_rate_limit_jitter_seconds StellarFields.stellar_max_retries
    StellarFields.stellar_retry_base_delay_ms StellarFields.stellar_retry_max_delay_ms
    StellarFields.stellar_retry_jitter_enabled StellarFields.stellar_request_timeout_ms
    StellarFields.stellar_circuit_breaker_failure_threshold
    StellarFields.stellar_circuit_breaker_open_duration_ms
    StellarFields.stellar_circuit_breaker_half_open_max_calls
    StellarFields.stellar_retry_jitter_type StellarFields.stellar_bulkhead_max_concurrent
    StellarFields.stellar_bulkhead_max_queue CacheFields.cache_verification_ttl
    CacheFields.cache_backend CacheFields.cache_max_size CacheFields.cache_config_ttl
    CacheFields.cache_events_ttl CacheFields.cache_circuit_breaker_failure_threshold
    CacheFields.cache_circuit_breaker_open_duration_ms
    CacheFields.cache_circuit_breaker_half_open_max_calls
    CacheFields.cache_circuit_breaker_backoff_base_ms
    CacheFields.cache_circuit_breaker_backoff_max_ms CacheFields.cache_bulkhead_max_concurrent
    CacheFields.cache_bulkhead_max_queue WebhookFields.webhook_max_retries
    WebhookFields.webhook_retry_base_delay_ms WebhookFields.webhook_retry_max_delay_ms
    WebhookFields.webhook_request_timeout_ms WebhookFields.webhook_jitter_enabled
    Checks.burst_positive Checks.burst_covers Checks.issuer_burst_covers Checks.issuer_within
    Checks.jitter_within Checks.stellar_delays Checks.webhook_delays Checks.url_list
    Checks.url_faults Checks.urls Parse.parse Parse.parse_digits Parse.is_url Parse.is_redis_url
    Parse.take_boolean Parse.trim Parse.split_commas Parse.drop_empty new_port list_eq ℕ_discrete
    trim_start trim_end
loads = refl

from_env-IsValid_example : IsValid (config defaults)
from_env-IsValid_example = from_env-IsValid defaults (config defaults) loads

client_of-IsValid_example :
    Consistent (client_of (config defaults)).1
    × ((client_of (config defaults)).1.config.failure_threshold
        ≡ (config defaults).stellar_circuit_breaker_failure_threshold)
    × ((client_of (config defaults)).1.config.open_duration
        ≡ (config defaults).stellar_circuit_breaker_open_duration_ms)
    × ((client_of (config defaults)).1.config.half_open_max_calls
        ≡ (config defaults).stellar_circuit_breaker_half_open_max_calls)
    × (0 < (client_of (config defaults)).1.config.failure_threshold)
    × (0 < (client_of (config defaults)).1.config.half_open_max_calls)
    × ((client_of (config defaults)).0.max_retries ≡ (config defaults).stellar_max_retries)
    × ((retry_delay silent (client_of (config defaults)).0.retry 3 tt).0
        ≤ (config defaults).stellar_retry_max_delay_ms)
    × ((retry_delay silent (client_of (config defaults)).0.retry 3 tt).0 ≤ max_timeout_ms)
client_of-IsValid_example = client_of-IsValid defaults (config defaults) silent 3 tt loads
