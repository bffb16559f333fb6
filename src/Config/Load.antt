-- ===== src/Config/Load.antt =====
-- src/config.rs, `AppConfig`: all the variables together.
use proof_stell_contract.Base.{ℕ, Bool, Option, List, [], ◌∷◌, ◌++◌}
use proof_stell_contract.Hash.Tools.{Text}
use proof_stell_contract.Config.Variables.{Variable, Complaint, Environment}
use proof_stell_contract.Config.Parse.{flatten}
use proof_stell_contract.Config.RateFields
use proof_stell_contract.Config.StellarFields
use proof_stell_contract.Config.CacheFields
use proof_stell_contract.Config.WebhookFields
use proof_stell_contract.Config.Checks

pub record AppConfig : Type 0 where
  pub port : ℕ
  pub stellar_horizon_url : Text
  pub stellar_secret_key : Option Text
  pub redis_url : Text
  pub rate_limit_per_second : ℕ
  pub rate_limit_burst : ℕ
  pub per_issuer_rate_limit_per_second : ℕ
  pub per_issuer_rate_limit_burst : ℕ
  pub issuer_rate_limit_ttl_seconds : ℕ
  pub per_issuer_rate_limit_jitter_seconds : ℕ
  pub stellar_max_retries : ℕ
  pub stellar_retry_base_delay_ms : ℕ
  pub stellar_retry_max_delay_ms : ℕ
  pub stellar_retry_jitter_enabled : Bool
  pub stellar_request_timeout_ms : ℕ
  pub stellar_circuit_breaker_failure_threshold : ℕ
  pub stellar_circuit_breaker_open_duration_ms : ℕ
  pub stellar_circuit_breaker_half_open_max_calls : ℕ
  pub stellar_retry_jitter_type : Text
  pub stellar_bulkhead_max_concurrent : ℕ
  pub stellar_bulkhead_max_queue : ℕ
  pub log_level : Text
  pub webhook_urls : List Text
  pub webhook_secret : Option Text
  pub webhook_max_retries : ℕ
  pub webhook_retry_base_delay_ms : ℕ
  pub webhook_retry_max_delay_ms : ℕ
  pub webhook_request_timeout_ms : ℕ
  pub webhook_jitter_enabled : Bool
  pub cache_verification_ttl : ℕ
  pub cache_backend : Text
  pub cache_max_size : ℕ
  pub cache_config_ttl : ℕ
  pub cache_events_ttl : ℕ
  pub cache_circuit_breaker_failure_threshold : ℕ
  pub cache_circuit_breaker_open_duration_ms : ℕ
  pub cache_circuit_breaker_half_open_max_calls : ℕ
  pub cache_circuit_breaker_backoff_base_ms : ℕ
  pub cache_circuit_breaker_backoff_max_ms : ℕ
  pub cache_bulkhead_max_concurrent : ℕ
  pub cache_bulkhead_max_queue : ℕ

-- `ConfigError::Validation` has all the messages.
pub data Loaded : Type 0 where
  accepted : AppConfig → Loaded
  refused : List Complaint → Loaded

module _ (env : Environment) where
  -- The messages, in the order in which they are added.
  unfoldable pub service_faults : List (List Complaint)
  service_faults =
      (RateFields.stellar_secret_key env).1
      ∷ (RateFields.port env).1
      ∷ (RateFields.stellar_horizon_url env).1
      ∷ (RateFields.redis_url env).1
      ∷ (RateFields.rate_limit_per_second env).1
      ∷ (RateFields.rate_limit_burst env).1
      ∷ Checks.burst_positive env
      ∷ Checks.burst_covers env
      ∷ (RateFields.per_issuer_rate_limit_per_second env).1
      ∷ (RateFields.per_issuer_rate_limit_burst env).1
      ∷ Checks.issuer_burst_covers env
      ∷ Checks.issuer_within env
      ∷ (RateFields.issuer_rate_limit_ttl_seconds env).1
      ∷ (RateFields.per_issuer_rate_limit_jitter_seconds env).1
      ∷ Checks.jitter_within env
      ∷ []

  unfoldable pub stellar_faults : List (List Complaint)
  stellar_faults =
      (StellarFields.stellar_max_retries env).1
      ∷ (StellarFields.stellar_retry_base_delay_ms env).1
      ∷ (StellarFields.stellar_retry_max_delay_ms env).1
      ∷ (StellarFields.stellar_retry_jitter_enabled env).1
      ∷ (StellarFields.stellar_request_timeout_ms env).1
      ∷ (StellarFields.stellar_circuit_breaker_failure_threshold env).1
      ∷ (StellarFields.stellar_circuit_breaker_open_duration_ms env).1
      ∷ (StellarFields.stellar_circuit_breaker_half_open_max_calls env).1
      ∷ (StellarFields.stellar_retry_jitter_type env).1
      ∷ (StellarFields.stellar_bulkhead_max_concurrent env).1
      ∷ (StellarFields.stellar_bulkhead_max_queue env).1
      ∷ []

  unfoldable pub cache_faults : List (List Complaint)
  cache_faults =
      (CacheFields.cache_verification_ttl env).1
      ∷ (CacheFields.cache_backend env).1
      ∷ (CacheFields.cache_max_size env).1
      ∷ (CacheFields.cache_config_ttl env).1
      ∷ (CacheFields.cache_events_ttl env).1
      ∷ (CacheFields.cache_circuit_breaker_failure_threshold env).1
      ∷ (CacheFields.cache_circuit_breaker_open_duration_ms env).1
      ∷ (CacheFields.cache_circuit_breaker_half_open_max_calls env).1
      ∷ (CacheFields.cache_circuit_breaker_backoff_base_ms env).1
      ∷ (CacheFields.cache_circuit_breaker_backoff_max_ms env).1
      ∷ (CacheFields.cache_bulkhead_max_concurrent env).1
      ∷ (CacheFields.cache_bulkhead_max_queue env).1
      ∷ []

  unfoldable pub last_faults : List (List Complaint)
  last_faults =
      (RateFields.log_level env).1
      ∷ Checks.stellar_delays env
      ∷ (WebhookFields.webhook_max_retries env).1
      ∷ (WebhookFields.webhook_retry_base_delay_ms env).1
      ∷ (WebhookFields.webhook_retry_max_delay_ms env).1
      ∷ (WebhookFields.webhook_request_timeout_ms env).1
      ∷ (WebhookFields.webhook_jitter_enabled env).1
      ∷ Checks.webhook_delays env
      ∷ Checks.urls env
      ∷ []

  unfoldable pub faults : List Complaint
  faults =
      flatten service_faults
      ++ (flatten stellar_faults ++ (flatten cache_faults ++ flatten last_faults))

  unfoldable pub config : AppConfig
  config = record {
    port = (RateFields.port env).0;
    stellar_horizon_url = (RateFields.stellar_horizon_url env).0;
    stellar_secret_key = (RateFields.stellar_secret_key env).0;
    redis_url = (RateFields.redis_url env).0;
    rate_limit_per_second = (RateFields.rate_limit_per_second env).0;
    rate_limit_burst = (RateFields.rate_limit_burst env).0;
    per_issuer_rate_limit_per_second = (RateFields.per_issuer_rate_limit_per_second env).0;
    per_issuer_rate_limit_burst = (RateFields.per_issuer_rate_limit_burst env).0;
    issuer_rate_limit_ttl_seconds = (RateFields.issuer_rate_limit_ttl_seconds env).0;
    per_issuer_rate_limit_jitter_seconds = (RateFields.per_issuer_rate_limit_jitter_seconds env).0;
    stellar_max_retries = (StellarFields.stellar_max_retries env).0;
    stellar_retry_base_delay_ms = (StellarFields.stellar_retry_base_delay_ms env).0;
    stellar_retry_max_delay_ms = (StellarFields.stellar_retry_max_delay_ms env).0;
    stellar_retry_jitter_enabled = (StellarFields.stellar_retry_jitter_enabled env).0;
    stellar_request_timeout_ms = (StellarFields.stellar_request_timeout_ms env).0;
    stellar_circuit_breaker_failure_threshold =
        (StellarFields.stellar_circuit_breaker_failure_threshold env).0;
    stellar_circuit_breaker_open_duration_ms =
        (StellarFields.stellar_circuit_breaker_open_duration_ms env).0;
    stellar_circuit_breaker_half_open_max_calls =
        (StellarFields.stellar_circuit_breaker_half_open_max_calls env).0;
    stellar_retry_jitter_type = (StellarFields.stellar_retry_jitter_type env).0;
    stellar_bulkhead_max_concurrent = (StellarFields.stellar_bulkhead_max_concurrent env).0;
    stellar_bulkhead_max_queue = (StellarFields.stellar_bulkhead_max_queue env).0;
    log_level = (RateFields.log_level env).0;
    webhook_urls = Checks.url_list env;
    webhook_secret = env.var Variable.webhook_secret;
    webhook_max_retries = (WebhookFields.webhook_max_retries env).0;
    webhook_retry_base_delay_ms = (WebhookFields.webhook_retry_base_delay_ms env).0;
    webhook_retry_max_delay_ms = (WebhookFields.webhook_retry_max_delay_ms env).0;
    webhook_request_timeout_ms = (WebhookFields.webhook_request_timeout_ms env).0;
    webhook_jitter_enabled = (WebhookFields.webhook_jitter_enabled env).0;
    cache_verification_ttl = (CacheFields.cache_verification_ttl env).0;
    cache_backend = (CacheFields.cache_backend env).0;
    cache_max_size = (CacheFields.cache_max_size env).0;
    cache_config_ttl = (CacheFields.cache_config_ttl env).0;
    cache_events_ttl = (CacheFields.cache_events_ttl env).0;
    cache_circuit_breaker_failure_threshold =
        (CacheFields.cache_circuit_breaker_failure_threshold env).0;
    cache_circuit_breaker_open_duration_ms =
        (CacheFields.cache_circuit_breaker_open_duration_ms env).0;
    cache_circuit_breaker_half_open_max_calls =
        (CacheFields.cache_circuit_breaker_half_open_max_calls env).0;
    cache_circuit_breaker_backoff_base_ms =
        (CacheFields.cache_circuit_breaker_backoff_base_ms env).0;
    cache_circuit_breaker_backoff_max_ms = (CacheFields.cache_circuit_breaker_backoff_max_ms env).0;
    cache_bulkhead_max_concurrent = (CacheFields.cache_bulkhead_max_concurrent env).0;
    cache_bulkhead_max_queue = (CacheFields.cache_bulkhead_max_queue env).0;
  }

  abbrev pub decide : List Complaint → Loaded
  decide [] = Loaded.accepted config
  decide (c ∷ cs) = Loaded.refused (c ∷ cs)

  unfoldable pub from_env : Loaded
  from_env = decide faults
