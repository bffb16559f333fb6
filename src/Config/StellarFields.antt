-- ===== src/Config/StellarFields.antt =====
-- src/config.rs: the variables of the Stellar client.
use proof_stell_contract.Base.{ℕ, if◌then◌else◌, Bool, [], ◌∷◌}
use proof_stell_contract.Base.Words.{u32_max, u64_max}
use proof_stell_contract.Hash.Tools.{Text}
use proof_stell_contract.Config.Variables.{Variable, Complaint, bytes, Environment}
use proof_stell_contract.Config.Parse.{
  Reading, get_env_or_default, take_any, take_positive, take_bounded, take_boolean, one_of,
  lowercase, read,
}

module _ (env : Environment) where
  unfoldable pub stellar_max_retries : Reading ℕ
  stellar_max_retries =
      read take_any u32_max Variable.stellar_max_retries 3
        (get_env_or_default env Variable.stellar_max_retries (bytes "3"))

  unfoldable pub stellar_retry_base_delay_ms : Reading ℕ
  stellar_retry_base_delay_ms =
      read take_bounded u64_max Variable.stellar_retry_base_delay_ms 100
        (get_env_or_default env Variable.stellar_retry_base_delay_ms (bytes "100"))

  unfoldable pub stellar_retry_max_delay_ms : Reading ℕ
  stellar_retry_max_delay_ms =
      read take_bounded u64_max Variable.stellar_retry_max_delay_ms 10000
        (get_env_or_default env Variable.stellar_retry_max_delay_ms (bytes "10000"))

  unfoldable pub stellar_retry_jitter_enabled : Reading Bool
  stellar_retry_jitter_enabled =
      take_boolean Variable.stellar_retry_jitter
        (get_env_or_default env Variable.stellar_retry_jitter (bytes "true"))

  unfoldable pub stellar_request_timeout_ms : Reading ℕ
  stellar_request_timeout_ms =
      read take_bounded u64_max Variable.stellar_request_timeout_ms 10000
        (get_env_or_default env Variable.stellar_request_timeout_ms (bytes "10000"))

  unfoldable pub stellar_circuit_breaker_failure_threshold : Reading ℕ
  stellar_circuit_breaker_failure_threshold =
      read take_positive u32_max Variable.stellar_circuit_breaker_failure_threshold 5
        (get_env_or_default env Variable.stellar_circuit_breaker_failure_threshold (bytes "5"))

  unfoldable pub stellar_circuit_breaker_open_duration_ms : Reading ℕ
  stellar_circuit_breaker_open_duration_ms =
      read take_bounded u64_max Variable.stellar_circuit_breaker_open_duration_ms 30000
        (get_env_or_default env Variable.stellar_circuit_breaker_open_duration_ms (bytes "30000"))

  unfoldable pub stellar_circuit_breaker_half_open_max_calls : Reading ℕ
  stellar_circuit_breaker_half_open_max_calls =
      read take_positive u32_max Variable.stellar_circuit_breaker_half_open_max_calls 1
        (get_env_or_default env Variable.stellar_circuit_breaker_half_open_max_calls (bytes "1"))

  abbrev jitter_type_of : Text → Reading Text
  jitter_type_of raw =
      if one_of (lowercase raw)
        (bytes "none" ∷ bytes "full" ∷ bytes "equal" ∷ bytes "decorrelated" ∷ [])
      then (raw, [])
      else (
        bytes "full",
        Complaint.none_of_these Variable.stellar_retry_jitter_type (lowercase raw) ∷ [],
      )

  unfoldable pub stellar_retry_jitter_type : Reading Text
  stellar_retry_jitter_type =
      jitter_type_of (get_env_or_default env Variable.stellar_retry_jitter_type (bytes "full"))

  unfoldable pub stellar_bulkhead_max_concurrent : Reading ℕ
  stellar_bulkhead_max_concurrent =
      read take_positive u32_max Variable.stellar_bulkhead_max_concurrent 10
        (get_env_or_default env Variable.stellar_bulkhead_max_concurrent (bytes "10"))

  unfoldable pub stellar_bulkhead_max_queue : Reading ℕ
  stellar_bulkhead_max_queue =
      read take_positive u32_max Variable.stellar_bulkhead_max_queue 100
        (get_env_or_default env Variable.stellar_bulkhead_max_queue (bytes "100"))
