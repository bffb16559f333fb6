-- ===== src/Stellar/Errors.antt =====
-- src/stellar.rs: the types of the client's configuration, its errors and its results. A duration is
-- a number of milliseconds, and a text the list of its bytes.
use proof_stell_contract.Base.{ℕ, Bool, true, false}
use proof_stell_contract.Hash.Tools.{Text}

pub data RetryJitter : Type 0 where
  no_jitter : RetryJitter
  full : RetryJitter
  equal : RetryJitter
  decorrelated : RetryJitter

pub record RetryPolicy : Type 0 where
  pub max_retries : ℕ
  pub base_delay : ℕ
  pub max_delay : ℕ
  pub jitter : RetryJitter

pub record CircuitBreakerConfig : Type 0 where
  pub failure_threshold : ℕ
  pub open_duration : ℕ
  pub half_open_max_calls : ℕ

abbrev pub default_breaker : CircuitBreakerConfig
default_breaker = record { failure_threshold = 5; open_duration = 30000; half_open_max_calls = 1 }

abbrev pub default_retry : RetryPolicy
default_retry = record {
  max_retries = 3;
  base_delay = 100;
  max_delay = 10000;
  jitter = RetryJitter.full;
}

pub data CircuitState : Type 0 where
  closed : CircuitState
  open_circuit : CircuitState
  half_open : CircuitState

-- The source of a parse error is its text.
pub data StellarError : Type 0 where
  circuit_open : CircuitState → ℕ → StellarError
  request : Text → Text → StellarError
  timeout : Text → ℕ → StellarError
  retryable_http_status : ℕ → Text → Text → StellarError
  non_retryable_http_status : ℕ → Text → Text → StellarError
  response_parse : Text → Text → Text → StellarError
  verification_not_found : Text → StellarError
  retry_exhausted : Text → ℕ → ℕ → StellarError → StellarError

unfoldable pub is_retryable : StellarError → Bool
is_retryable (StellarError.circuit_open _ _) = true
is_retryable (StellarError.request _ _) = true
is_retryable (StellarError.timeout _ _) = true
is_retryable (StellarError.retryable_http_status _ _ _) = true
is_retryable (StellarError.response_parse _ _ _) = true
is_retryable (StellarError.retry_exhausted _ _ _ final_error) = is_retryable final_error
is_retryable (StellarError.non_retryable_http_status _ _ _) = false
is_retryable (StellarError.verification_not_found _) = false

unfoldable pub affects_circuit_breaker : StellarError → Bool
affects_circuit_breaker (StellarError.retry_exhausted _ _ _ final_error) =
    affects_circuit_breaker final_error
affects_circuit_breaker (StellarError.request _ _) = true
affects_circuit_breaker (StellarError.timeout _ _) = true
affects_circuit_breaker (StellarError.retryable_http_status _ _ _) = true
affects_circuit_breaker _ = false

pub data StellarResult {ℓ} (A : Type ℓ) : Type ℓ where
  ok : A → StellarResult A
  err : StellarError → StellarResult A
