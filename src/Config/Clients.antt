-- ===== src/Config/Clients.antt =====
-- src/stellar.rs, `StellarClientConfig::from_app_config` and `StellarClient::with_config`: the client
-- that an accepted configuration makes.
use proof_stell_contract.Base.{
  ℕ, ◌≤◌, ◌<◌, ◌≡◌, refl, ◌==◌, arith, if◌then◌else◌, Bool, true, [], ◌∷◌,
}
use proof_stell_contract.Hash.Tools.{Text}
use proof_stell_contract.Stellar.Errors.{RetryJitter, RetryPolicy, CircuitBreakerConfig}
use proof_stell_contract.Stellar.Breaker
use proof_stell_contract.Stellar.Breaker.{CircuitBreaker}
use proof_stell_contract.Stellar.Client.{Horizon, StellarClient}
use proof_stell_contract.Stellar.Verify.{retry_delay}
use proof_stell_contract.Stellar.Transitions.{Consistent, new-Consistent}
use proof_stell_contract.Stellar.Delays.{retry_delay-le}
use proof_stell_contract.Config.Variables.{bytes, Environment}
use proof_stell_contract.Config.Parse.{same, lowercase, max_timeout_ms}
use proof_stell_contract.Config.Load.{AppConfig, Loaded, from_env}
use proof_stell_contract.Config.Accepted.{from_env-IsValid}

pub record BulkheadConfig : Type 0 where
  pub max_concurrent : ℕ
  pub max_queue : ℕ

pub record GracefulDegradationConfig : Type 0 where
  pub fallback_cache_ttl : ℕ
  pub stale_cache_ok : Bool

pub record StellarClientConfig : Type 0 where
  pub retry : RetryPolicy
  pub circuit_breaker : CircuitBreakerConfig
  pub request_timeout : ℕ
  pub rate_limit_per_second : ℕ
  pub rate_limit_burst : ℕ
  pub bulkhead : BulkheadConfig
  pub graceful_degradation : GracefulDegradationConfig

abbrev default_degradation : GracefulDegradationConfig
default_degradation = record { fallback_cache_ttl = 300000; stale_cache_ok = true }

unfoldable pub jitter_of : Text → RetryJitter
jitter_of text =
    if same (lowercase text) (bytes "none")
    then RetryJitter.no_jitter
    else if same (lowercase text) (bytes "full")
    then RetryJitter.full
    else if same (lowercase text) (bytes "equal")
    then RetryJitter.equal
    else if same (lowercase text) (bytes "decorrelated")
    then RetryJitter.decorrelated
    else RetryJitter.full

unfoldable pub from_app_config : AppConfig → StellarClientConfig
unfolding jitter_of
from_app_config config = record {
  retry = record {
    max_retries = config.stellar_max_retries;
    base_delay = config.stellar_retry_base_delay_ms;
    max_delay = config.stellar_retry_max_delay_ms;
    jitter = jitter_of config.stellar_retry_jitter_type;
  };
  circuit_breaker = record {
    failure_threshold = config.stellar_circuit_breaker_failure_threshold;
    open_duration = config.stellar_circuit_breaker_open_duration_ms;
    half_open_max_calls = config.stellar_circuit_breaker_half_open_max_calls;
  };
  request_timeout = config.stellar_request_timeout_ms;
  rate_limit_per_second = config.rate_limit_per_second;
  rate_limit_burst = config.rate_limit_burst;
  bulkhead = record {
    max_concurrent = config.stellar_bulkhead_max_concurrent;
    max_queue = config.stellar_bulkhead_max_queue;
  };
  graceful_degradation = default_degradation;
}

-- `trim_end_matches('/')`
abbrev shorten_slash : ℕ → Text → Text
shorten_slash c [] = if c == b'/' then [] else c ∷ []
shorten_slash c (d ∷ ds) = c ∷ d ∷ ds

unfoldable pub trim_trailing_slash : Text → Text
trim_trailing_slash [] = []
trim_trailing_slash (c ∷ cs) = shorten_slash c (trim_trailing_slash cs)

-- The client with its circuit breaker.
unfoldable pub with_config : Text → StellarClientConfig → StellarClient × CircuitBreaker
unfolding trim_trailing_slash
with_config horizon_url config = (
  record {
    horizon_url = trim_trailing_slash horizon_url;
    max_retries = config.retry.max_retries;
    retry = config.retry;
    stale_cache_ok = config.graceful_degradation.stale_cache_ok;
  },
  Breaker.new config.circuit_breaker,
)

unfoldable pub client_of : AppConfig → StellarClient × CircuitBreaker
unfolding from_app_config with_config
client_of config = with_config config.stellar_horizon_url (from_app_config config)

-- The client of an accepted configuration has a consistent breaker, with the configured threshold,
-- open time and number of probes, of which the first and the last are above 0. It retries as often as
-- configured, and none of its retries waits longer than the configured maximum, nor than five
-- minutes, whatever the jitter.
pub client_of-IsValid :
    (env : Environment) (c : AppConfig) (h : Horizon) (attempt : ℕ) (w : h.World)
    → from_env env ≡ Loaded.accepted c
    → Consistent (client_of c).1
      × ((client_of c).1.config.failure_threshold ≡ c.stellar_circuit_breaker_failure_threshold)
      × ((client_of c).1.config.open_duration ≡ c.stellar_circuit_breaker_open_duration_ms)
      × ((client_of c).1.config.half_open_max_calls ≡ c.stellar_circuit_breaker_half_open_max_calls)
      × (0 < (client_of c).1.config.failure_threshold)
      × (0 < (client_of c).1.config.half_open_max_calls)
      × ((client_of c).0.max_retries ≡ c.stellar_max_retries)
      × ((retry_delay h (client_of c).0.retry attempt w).0 ≤ c.stellar_retry_max_delay_ms)
      × ((retry_delay h (client_of c).0.retry attempt w).0 ≤ max_timeout_ms)
unfolding client_of Breaker.new
client_of-IsValid env c h attempt w p =
    let valid = from_env-IsValid env c p in
    let (_, _, longest, _, _, threshold, _, calls, _, _) = valid.stellar in
    let (short, _) = retry_delay-le h (client_of c).0.retry attempt w (omega arith) in
    (
      new-Consistent (from_app_config c).circuit_breaker (threshold.1, calls.1),
      refl,
      refl,
      refl,
      threshold.0,
      calls.0,
      refl,
      short,
      omega arith,
    )
