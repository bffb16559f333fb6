-- ===== src/Stellar/Breaker.antt =====
-- src/stellar.rs, `CircuitBreaker`. Each method runs alone: no other caller comes between its
-- accesses to the atomics. The clock is an argument.
use proof_stell_contract.Base.{ℕ, ◌+◌, ◌-◌, ◌^◌, ◌==◌, leb, max, if◌then◌else◌, Option, none, some}
use proof_stell_contract.Base.Words.{as_u64, saturating_sub, saturating_add_u64}
use proof_stell_contract.Stellar.Errors.{
  CircuitState, CircuitBreakerConfig, StellarError, affects_circuit_breaker, StellarResult, ok, err,
}

pub record CircuitBreakerMetrics : Type 0 where
  pub trips : ℕ
  pub recoveries : ℕ
  pub half_open_successes : ℕ
  pub half_open_failures : ℕ
  pub rejected_calls : ℕ
  pub successful_calls : ℕ
  pub failed_calls : ℕ
  pub timeout_calls : ℕ
  pub retryable_http_calls : ℕ
  pub consecutive_failures : ℕ
  pub in_flight : ℕ

abbrev pub no_metrics : CircuitBreakerMetrics
no_metrics = record {
  trips = 0;
  recoveries = 0;
  half_open_successes = 0;
  half_open_failures = 0;
  rejected_calls = 0;
  successful_calls = 0;
  failed_calls = 0;
  timeout_calls = 0;
  retryable_http_calls = 0;
  consecutive_failures = 0;
  in_flight = 0;
}

-- `permits` are those that the semaphore has left.
pub record CircuitBreaker : Type 0 where
  pub config : CircuitBreakerConfig
  pub state : CircuitState
  pub opened_at : Option ℕ
  pub consecutive_failures : ℕ
  pub half_open_in_flight : ℕ
  pub half_open_successes : ℕ
  pub permits : ℕ
  pub metrics : CircuitBreakerMetrics

unfoldable pub new : CircuitBreakerConfig → CircuitBreaker
new config = record {
  config = config;
  state = CircuitState.closed;
  opened_at = none;
  consecutive_failures = 0;
  half_open_in_flight = 0;
  half_open_successes = 0;
  permits = max config.half_open_max_calls 1;
  metrics = no_metrics;
}

abbrev pub up : ℕ → ℕ
up n = saturating_add_u64 n 1

-- `fetch_sub(1)` wraps.
abbrev pub down : ℕ → ℕ
down n = as_u64 (n + 2 ^ 64 - 1)

abbrev pub increment_rejected_calls : CircuitBreakerMetrics → CircuitBreakerMetrics
increment_rejected_calls m = record m { rejected_calls = up m.rejected_calls }

abbrev pub rejected : CircuitBreaker → CircuitBreaker
rejected cb = record cb { metrics = increment_rejected_calls cb.metrics }

abbrev pub probe : CircuitBreaker → CircuitBreaker
probe cb = record cb {
  state = CircuitState.half_open;
  half_open_in_flight = 0;
  half_open_successes = 0;
}

abbrev pub allow_open : ℕ → CircuitBreaker → Option ℕ → StellarResult (Unit {0}) × CircuitBreaker
allow_open now cb none = (ok tt, probe cb)
allow_open now cb (some opened_at) =
    let elapsed = saturating_sub now opened_at in
    if leb cb.config.open_duration elapsed then (ok tt, probe cb) else (
      err (
          StellarError.circuit_open CircuitState.open_circuit
            (saturating_sub cb.config.open_duration elapsed)),
      rejected cb,
    )

-- The permit is a local variable: it is given back on return. `permits` counts those that the calls of
-- `allow_call` under way leave.
abbrev pub allow_half_open : CircuitBreaker → StellarResult (Unit {0}) × CircuitBreaker
allow_half_open cb =
    if cb.permits == 0
    then (err (StellarError.circuit_open CircuitState.half_open 0), rejected cb)
    else (
      ok tt,
      record cb {
        half_open_in_flight = as_u64 (cb.half_open_in_flight + 1);
        permits = cb.permits - 1 + 1;
      },
    )

abbrev pub allow_in : CircuitState → ℕ → CircuitBreaker → StellarResult (Unit {0}) × CircuitBreaker
allow_in CircuitState.closed now cb = (ok tt, cb)
allow_in CircuitState.open_circuit now cb = allow_open now cb cb.opened_at
allow_in CircuitState.half_open now cb = allow_half_open cb

unfoldable pub allow_call : ℕ → CircuitBreaker → StellarResult (Unit {0}) × CircuitBreaker
allow_call now cb = allow_in cb.state now cb

abbrev pub success_in : CircuitState → CircuitBreaker → CircuitBreaker
success_in CircuitState.closed cb = record cb {
  consecutive_failures = 0;
  metrics = record cb.metrics { successful_calls = up cb.metrics.successful_calls };
}
success_in CircuitState.half_open cb =
    let successes = cb.half_open_successes + 1 in
    let m : CircuitBreakerMetrics = record cb.metrics {
      successful_calls = up cb.metrics.successful_calls;
      half_open_successes = up cb.metrics.half_open_successes;
    } in
    let cb' : CircuitBreaker = record cb {
      half_open_in_flight = down cb.half_open_in_flight;
      half_open_successes = as_u64 successes;
      metrics = m;
    } in
    if leb (max cb.config.half_open_max_calls 1) successes
    then record cb' {
      state = CircuitState.closed;
      opened_at = none;
      consecutive_failures = 0;
      metrics = record m { recoveries = up m.recoveries };
    }
    else cb'
success_in CircuitState.open_circuit cb = cb

unfoldable pub record_success : CircuitBreaker → CircuitBreaker
record_success cb = success_in cb.state cb

abbrev pub count_kind : StellarError → CircuitBreakerMetrics → CircuitBreakerMetrics
count_kind (StellarError.timeout _ _) m = record m { timeout_calls = up m.timeout_calls }
count_kind (StellarError.retryable_http_status _ _ _) m = record m {
  retryable_http_calls = up m.retryable_http_calls;
}
count_kind _ m = m

abbrev pub count_failure : StellarError → CircuitBreakerMetrics → CircuitBreakerMetrics
count_failure e m = record (count_kind e m) { failed_calls = up (count_kind e m).failed_calls }

abbrev pub failure_in : CircuitState → ℕ → StellarError → CircuitBreaker → CircuitBreaker
failure_in CircuitState.closed now e cb =
    let failures = cb.consecutive_failures + 1 in
    let m = count_failure e cb.metrics in
    let cb' : CircuitBreaker = record cb { consecutive_failures = as_u64 failures; metrics = m } in
    if leb (max cb.config.failure_threshold 1) failures
    then record cb' {
      state = CircuitState.open_circuit;
      opened_at = some now;
      metrics = record m { trips = up m.trips };
    }
    else cb'
failure_in CircuitState.half_open now e cb = record cb {
  half_open_in_flight = down cb.half_open_in_flight;
  state = CircuitState.open_circuit;
  opened_at = some now;
  metrics = record cb.metrics {
    trips = up cb.metrics.trips;
    failed_calls = up cb.metrics.failed_calls;
    half_open_failures = up cb.metrics.half_open_failures;
  };
}
failure_in CircuitState.open_circuit now e cb = cb

unfoldable pub record_failure : ℕ → StellarError → CircuitBreaker → CircuitBreaker
record_failure now e cb = failure_in cb.state now e cb

unfoldable pub record_result {ℓ} :
    {A : Type ℓ} → ℕ → StellarResult A → CircuitBreaker → CircuitBreaker
unfolding record_success record_failure affects_circuit_breaker
record_result now (ok _) cb = record_success cb
record_result now (err e) cb = if affects_circuit_breaker e then record_failure now e cb else cb
