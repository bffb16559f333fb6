-- ===== src/Config/CacheFields.antt =====
-- src/config.rs: the variables of the cache.
use proof_stell_contract.Base.{ℕ, if◌then◌else◌, [], ◌∷◌}
use proof_stell_contract.Base.Words.{u32_max, u64_max}
use proof_stell_contract.Hash.Tools.{Text}
use proof_stell_contract.Config.Variables.{Variable, Complaint, bytes, Environment}
use proof_stell_contract.Config.Parse.{
  Reading, get_env_or_default, take_any, take_positive, take_bounded, take_limited, one_of,
  lowercase, read,
}

module _ (env : Environment) where
  unfoldable pub cache_verification_ttl : Reading ℕ
  cache_verification_ttl =
      read take_any u64_max Variable.cache_verification_ttl 3600
        (get_env_or_default env Variable.cache_verification_ttl (bytes "3600"))

  abbrev backend_of : Text → Reading Text
  backend_of raw =
      if one_of (lowercase raw) (bytes "redis" ∷ bytes "rediss" ∷ [])
      then (bytes "redis", [])
      else if one_of (lowercase raw) (bytes "inmemory" ∷ bytes "memory" ∷ [])
      then (bytes "inmemory", [])
      else (bytes "inmemory", Complaint.none_of_these Variable.cache_backend (lowercase raw) ∷ [])

  unfoldable pub cache_backend : Reading Text
  cache_backend = backend_of (get_env_or_default env Variable.cache_backend (bytes "inmemory"))

  unfoldable pub cache_max_size : Reading ℕ
  cache_max_size =
      read take_any u64_max Variable.cache_max_size 10000
        (get_env_or_default env Variable.cache_max_size (bytes "10000"))

  unfoldable pub cache_config_ttl : Reading ℕ
  cache_config_ttl =
      read take_any u64_max Variable.cache_config_ttl 3600
        (get_env_or_default env Variable.cache_config_ttl (bytes "3600"))

  unfoldable pub cache_events_ttl : Reading ℕ
  cache_events_ttl =
      read take_any u64_max Variable.cache_events_ttl 1800
        (get_env_or_default env Variable.cache_events_ttl (bytes "1800"))

  unfoldable pub cache_circuit_breaker_failure_threshold : Reading ℕ
  cache_circuit_breaker_failure_threshold =
      read take_positive u32_max Variable.cache_circuit_breaker_failure_threshold 5
        (get_env_or_default env Variable.cache_circuit_breaker_failure_threshold (bytes "5"))

  unfoldable pub cache_circuit_breaker_open_duration_ms : Reading ℕ
  cache_circuit_breaker_open_duration_ms =
      read take_bounded u64_max Variable.cache_circuit_breaker_open_duration_ms 30000
        (get_env_or_default env Variable.cache_circuit_breaker_open_duration_ms (bytes "30000"))

  unfoldable pub cache_circuit_breaker_half_open_max_calls : Reading ℕ
  cache_circuit_breaker_half_open_max_calls =
      read take_positive u32_max Variable.cache_circuit_breaker_half_open_max_calls 1
        (get_env_or_default env Variable.cache_circuit_breaker_half_open_max_calls (bytes "1"))

  unfoldable pub cache_circuit_breaker_backoff_base_ms : Reading ℕ
  cache_circuit_breaker_backoff_base_ms =
      read take_limited u64_max Variable.cache_circuit_breaker_backoff_base_ms 100
        (get_env_or_default env Variable.cache_circuit_breaker_backoff_base_ms (bytes "100"))

  unfoldable pub cache_circuit_breaker_backoff_max_ms : Reading ℕ
  cache_circuit_breaker_backoff_max_ms =
      read take_limited u64_max Variable.cache_circuit_breaker_backoff_max_ms 30000
        (get_env_or_default env Variable.cache_circuit_breaker_backoff_max_ms (bytes "30000"))

  unfoldable pub cache_bulkhead_max_concurrent : Reading ℕ
  cache_bulkhead_max_concurrent =
      read take_positive u32_max Variable.cache_bulkhead_max_concurrent 20
        (get_env_or_default env Variable.cache_bulkhead_max_concurrent (bytes "20"))

  unfoldable pub cache_bulkhead_max_queue : Reading ℕ
  cache_bulkhead_max_queue =
      read take_positive u32_max Variable.cache_bulkhead_max_queue 200
        (get_env_or_default env Variable.cache_bulkhead_max_queue (bytes "200"))
