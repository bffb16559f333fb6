-- ===== src/Stellar/Accounts.antt =====
-- src/stellar.rs, `CircuitBreaker`: what its counters of transitions say together.
use proof_stell_contract.Base.{
  ℕ, ◌+◌, ◌<◌, ◌≡◌, refl, arith, inl, inr, ◌==◌, leb, max, Bool-cases, Option, none, some,
}
use proof_stell_contract.Base.Words.{u64_max, saturating_sub}
use proof_stell_contract.Stellar.Errors.{CircuitState, CircuitBreakerConfig, StellarError}
use proof_stell_contract.Stellar.Breaker.{
  CircuitBreaker, CircuitBreakerMetrics, new, allow_in, allow_open, allow_call, success_in,
  record_success, failure_in, record_failure, count_kind,
}
use proof_stell_contract.Stellar.Transitions.{Event, step}

abbrev pub not_closed : CircuitState → ℕ
not_closed CircuitState.closed = 0
not_closed CircuitState.open_circuit = 1
not_closed CircuitState.half_open = 1

-- Each trip was followed by a recovery or by a failed probe, but for the last one of a circuit that
-- is not closed.
abbrev pub Balanced : CircuitBreaker → Type 0
Balanced cb =
    cb.metrics.trips ≡ cb.metrics.recoveries + cb.metrics.half_open_failures + not_closed cb.state

pub new-Balanced : (config : CircuitBreakerConfig) → Balanced (new config)
unfolding new
new-Balanced config = omega arith

count_kind-kept :
    (e : StellarError) (m : CircuitBreakerMetrics)
    → ((count_kind e m).trips ≡ m.trips)
      × ((count_kind e m).recoveries ≡ m.recoveries)
      × ((count_kind e m).half_open_failures ≡ m.half_open_failures)
count_kind-kept (StellarError.timeout _ _) m = (refl, refl, refl)
count_kind-kept (StellarError.retryable_http_status _ _ _) m = (refl, refl, refl)
count_kind-kept _ m = (refl, refl, refl)

module _ (cb : CircuitBreaker) (b : Balanced cb) (l : cb.metrics.trips < u64_max) where
  open-Balanced :
      (now : ℕ) (o : Option ℕ)
      → cb.state ≡ CircuitState.open_circuit
      → Balanced (allow_open now cb o).1
  open-Balanced now none p = ground arith
  open-Balanced now (some t) p =
      elim (Bool-cases (leb cb.config.open_duration (saturating_sub now t))) [
        | inl q ↦ rw q (ground arith)
        | inr q ↦ rw q b
      ]

  allow-Balanced : (s : CircuitState) (now : ℕ) → cb.state ≡ s → Balanced (allow_in s now cb).1
  allow-Balanced CircuitState.closed now p = b
  allow-Balanced CircuitState.half_open now p = elim (Bool-cases (cb.permits == 0)) [
    | inl q ↦ rw q b
    | inr q ↦ rw q b
  ]
  allow-Balanced CircuitState.open_circuit now p = open-Balanced now cb.opened_at p

  success-Balanced : (s : CircuitState) → cb.state ≡ s → Balanced (success_in s cb)
  success-Balanced CircuitState.closed p = b
  success-Balanced CircuitState.open_circuit p = b
  success-Balanced CircuitState.half_open p =
      elim (Bool-cases (leb (max cb.config.half_open_max_calls 1) (cb.half_open_successes + 1))) [
        | inl q ↦ rw q (ground arith)
        | inr q ↦ rw q b
      ]

  failure-Balanced :
      (s : CircuitState) (now : ℕ) (e : StellarError)
      → cb.state ≡ s
      → Balanced (failure_in s now e cb)
  failure-Balanced CircuitState.closed now e p =
      let kept = count_kind-kept e cb.metrics in
      elim (Bool-cases (leb (max cb.config.failure_threshold 1) (cb.consecutive_failures + 1))) [
        | inl q ↦ rw q (ground arith)
        | inr q ↦ rw q (ground arith)
      ]
  failure-Balanced CircuitState.open_circuit now e p = b
  failure-Balanced CircuitState.half_open now e p = ground arith

-- Every step keeps the counters in balance, short of the largest `u64`: the trips are the recoveries
-- and the failed probes together, and one more exactly while the circuit is not closed.
pub step-Balanced :
    (event : Event) (now : ℕ) (cb : CircuitBreaker)
    → Balanced cb
    → cb.metrics.trips < u64_max
    → Balanced (step event now cb)
unfolding allow_call record_success record_failure
step-Balanced Event.allow now cb b l = allow-Balanced cb b l cb.state now refl
step-Balanced Event.success now cb b l = success-Balanced cb b l cb.state refl
step-Balanced (Event.failure e) now cb b l = failure-Balanced cb b l cb.state now e refl
