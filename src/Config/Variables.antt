-- ===== src/Config/Variables.antt =====
-- src/config.rs: the variables of the environment, and the messages of a validation that failed. A
-- message is kept as what it complains of, without its wording.
use Prim.Native.Char.{code}
use Prim.Native.String.{String}
use proof_stell_contract.Base.{ℕ, Bool, Option, [], ◌∷◌}
use proof_stell_contract.Hash.Tools.{Text}

-- `PORT`, `STELLAR_HORIZON_URL` and so on.
pub data Variable : Type 0 where
  port : Variable
  stellar_horizon_url : Variable
  stellar_secret_key : Variable
  redis_url : Variable
  log_level : Variable
  webhook_urls : Variable
  webhook_secret : Variable
  webhook_max_retries : Variable
  webhook_retry_base_delay_ms : Variable
  webhook_retry_max_delay_ms : Variable
  webhook_request_timeout_ms : Variable
  webhook_jitter_enabled : Variable
  rate_limit_per_second : Variable
  rate_limit_burst : Variable
  per_issuer_rate_limit_per_second : Variable
  per_issuer_rate_limit_burst : Variable
  issuer_rate_limit_ttl_seconds : Variable
  per_issuer_rate_limit_jitter_seconds : Variable
  stellar_max_retries : Variable
  stellar_retry_base_delay_ms : Variable
  stellar_retry_max_delay_ms : Variable
  stellar_retry_jitter : Variable
  stellar_request_timeout_ms : Variable
  stellar_circuit_breaker_failure_threshold : Variable
  stellar_circuit_breaker_open_duration_ms : Variable
  stellar_circuit_breaker_half_open_max_calls : Variable
  stellar_retry_jitter_type : Variable
  stellar_bulkhead_max_concurrent : Variable
  stellar_bulkhead_max_queue : Variable
  cache_verification_ttl : Variable
  cache_backend : Variable
  cache_max_size : Variable
  cache_config_ttl : Variable
  cache_events_ttl : Variable
  cache_circuit_breaker_failure_threshold : Variable
  cache_circuit_breaker_open_duration_ms : Variable
  cache_circuit_breaker_half_open_max_calls : Variable
  cache_circuit_breaker_backoff_base_ms : Variable
  cache_circuit_breaker_backoff_max_ms : Variable
  cache_bulkhead_max_concurrent : Variable
  cache_bulkhead_max_queue : Variable

pub data Complaint : Type 0 where
  not_set : Variable → Complaint
  not_a_number : Variable → Text → Complaint
  not_positive : Variable → Complaint
  above_maximum : Variable → ℕ → Complaint
  not_a_boolean : Variable → Text → Complaint
  none_of_these : Variable → Text → Complaint
  not_valid : Variable → Text → Complaint
  out_of_range : ℕ → Complaint
  less_than : Variable → ℕ → Variable → ℕ → Complaint
  more_than : Variable → ℕ → Variable → ℕ → Complaint
  not_less_than : Variable → ℕ → Variable → ℕ → Complaint

-- The bytes of a literal.
abbrev pub bytes : String → Text
bytes String.[] = []
bytes (String.◌∷◌ letter rest) = code letter ∷ bytes rest

-- The crates `url` and `stellar_strkey`: the scheme of a URL, if it is one, and whether a text is a
-- secret key.
pub record Environment : Type 0 where
  pub var : Variable → Option Text
  pub scheme : Text → Option Text
  pub is_secret_key : Text → Bool
