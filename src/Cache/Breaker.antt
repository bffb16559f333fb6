-- ===== src/Cache/Breaker.antt =====
-- src/cache.rs, `CacheCircuitBreaker`: its states and its operations. A duration and an instant are
-- milliseconds, and an operation that reads the clock has the instant as its first argument.
use proof_stell_contract.Base.{
  ℕ, ◌+◌, ◌-◌, ◌*◌, ◌^◌, ltb, leb, min, max, if◌then◌else◌, Bool, true, false, Option, none, some,
}
use proof_stell_contract.Base.Words.{as_u32, as_u64, saturating_sub}

pub data CircuitState : Type 0 where
  closed : CircuitState
  open_circuit : CircuitState
  half_open : CircuitState

abbrev pub as_metric_value : CircuitState → ℕ
as_metric_value CircuitState.closed = 0
as_metric_value CircuitState.open_circuit = 1
as_metric_value CircuitState.half_open = 2

pub record CacheCircuitBreakerConfig : Type 0 where
  pub failure_threshold : ℕ
  pub open_duration_ms : ℕ
  pub half_open_max_calls : ℕ
  pub backoff_base_ms : ℕ
  pub backoff_max_ms : ℕ

abbrev pub default_config : CacheCircuitBreakerConfig
default_config = record {
  failure_threshold = 5;
  open_duration_ms = 30000;
  half_open_max_calls = 1;
  backoff_base_ms = 100;
  backoff_max_ms = 30000;
}

pub record CacheCircuitBreaker : Type 0 where
  pub state : CircuitState
  pub consecutive_failures : ℕ
  pub failure_threshold : ℕ
  pub open_duration : ℕ
  pub half_open_max_calls : ℕ
  pub half_open_calls : ℕ
  pub opened_at : Option ℕ
  pub backoff_base : ℕ
  pub backoff_max : ℕ
  pub last_transition : Option (CircuitState × CircuitState)

unfoldable pub new : CacheCircuitBreakerConfig → CacheCircuitBreaker
new config = record {
  state = CircuitState.closed;
  consecutive_failures = 0;
  failure_threshold = config.failure_threshold;
  open_duration = config.open_duration_ms;
  half_open_max_calls = config.half_open_max_calls;
  half_open_calls = 0;
  opened_at = none;
  backoff_base = config.backoff_base_ms;
  backoff_max = config.backoff_max_ms;
  last_transition = none;
}

unfoldable pub current_backoff : CacheCircuitBreaker → ℕ
current_backoff cb =
    let failure_count = max cb.consecutive_failures 1 in
    let exponent = min (failure_count - 1) 6 in
    min (as_u64 (cb.backoff_base * 2 ^ exponent)) cb.backoff_max

abbrev pub enter : CircuitState → ℕ → CacheCircuitBreaker → CacheCircuitBreaker
enter CircuitState.closed now cb = record cb {
  consecutive_failures = 0;
  opened_at = none;
  half_open_calls = 0;
}
enter CircuitState.open_circuit now cb = record cb { opened_at = some now; half_open_calls = 0 }
enter CircuitState.half_open now cb = record cb { half_open_calls = 0 }

abbrev pub transition_to : CircuitState → ℕ → CacheCircuitBreaker → CacheCircuitBreaker
transition_to new_state now cb = record (enter new_state now cb) {
  state = new_state;
  last_transition = some (cb.state, new_state);
}

-- Whether an open circuit may be probed.
abbrev pub waited : ℕ → CacheCircuitBreaker → Option ℕ → Bool
waited now cb none = false
waited now cb (some opened_at) = leb (current_backoff cb) (saturating_sub now opened_at)

abbrev pub allow_in : CircuitState → ℕ → CacheCircuitBreaker → Bool × CacheCircuitBreaker
allow_in CircuitState.closed now cb = (true, cb)
allow_in CircuitState.open_circuit now cb =
    if waited now cb cb.opened_at
    then (true, transition_to CircuitState.half_open now cb)
    else (false, cb)
allow_in CircuitState.half_open now cb = (ltb cb.half_open_calls cb.half_open_max_calls, cb)

unfoldable pub should_allow : ℕ → CacheCircuitBreaker → Bool × CacheCircuitBreaker
should_allow now cb = allow_in cb.state now cb

abbrev pub success_in : CircuitState → ℕ → CacheCircuitBreaker → CacheCircuitBreaker
success_in CircuitState.closed now cb = record cb { consecutive_failures = 0 }
success_in CircuitState.half_open now cb =
    let cb' : CacheCircuitBreaker = record cb {
      half_open_calls = as_u32 (cb.half_open_calls + 1);
    } in
    if leb cb'.half_open_max_calls cb'.half_open_calls
    then transition_to CircuitState.closed now cb'
    else cb'
success_in CircuitState.open_circuit now cb = cb

unfoldable pub record_success : ℕ → CacheCircuitBreaker → CacheCircuitBreaker
record_success now cb = success_in cb.state now cb

abbrev pub failure_in : CircuitState → ℕ → CacheCircuitBreaker → CacheCircuitBreaker
failure_in CircuitState.closed now cb =
    let cb' : CacheCircuitBreaker = record cb {
      consecutive_failures = as_u32 (cb.consecutive_failures + 1);
    } in
    if leb cb'.failure_threshold cb'.consecutive_failures
    then transition_to CircuitState.open_circuit now cb'
    else cb'
failure_in CircuitState.half_open now cb = transition_to CircuitState.open_circuit now cb
failure_in CircuitState.open_circuit now cb = record cb {
  consecutive_failures = as_u32 (cb.consecutive_failures + 1);
}

unfoldable pub record_failure : ℕ → CacheCircuitBreaker → CacheCircuitBreaker
record_failure now cb = failure_in cb.state now cb

unfoldable pub take_last_transition :
    CacheCircuitBreaker → Option (CircuitState × CircuitState) × CacheCircuitBreaker
take_last_transition cb = (cb.last_transition, record cb { last_transition = none })
