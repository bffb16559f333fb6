-- ===== src/Stellar/Opens.antt =====
-- src/stellar.rs, `CircuitBreaker`: the number of failures that opens it.
use proof_stell_contract.Base.{
  ℕ, zero, suc, ◌+◌, ◌≤◌, ◌<◌, ◌≡◌, ◌↔◌, refl, sym, ap, subst, ◌∙◌, arith, max, if_true, if_false,
  dec_lt, some,
}
use proof_stell_contract.Base.Words.{as_u64}
use proof_stell_contract.Stellar.Errors.{CircuitState, StellarError}
use proof_stell_contract.Stellar.Breaker.{
  CircuitBreaker, failure_in, record_failure, count_failure, up,
}
use proof_stell_contract.Stellar.Transitions.{Consistent, Event, step-Consistent, Fits}

-- As many failures as `n`, with the same error and no success between.
abbrev pub failures : ℕ → ℕ → StellarError → CircuitBreaker → CircuitBreaker
failures zero now e cb = cb
failures (suc n) now e cb = failures n now e (record_failure now e cb)

abbrev pub counted : StellarError → CircuitBreaker → CircuitBreaker
counted e cb = record cb {
  consecutive_failures = as_u64 (cb.consecutive_failures + 1);
  metrics = count_failure e cb.metrics;
}

abbrev opened : ℕ → CircuitBreaker → CircuitBreaker
opened now cb = record cb {
  state = CircuitState.open_circuit;
  opened_at = some now;
  metrics = record cb.metrics { trips = up cb.metrics.trips };
}

module _ (now : ℕ) (e : StellarError) (cb : CircuitBreaker)
    (p : cb.state ≡ CircuitState.closed) where
  pub record_failure-below :
      cb.consecutive_failures + 1 < max cb.config.failure_threshold 1
      → record_failure now e cb ≡ counted e cb
  unfolding record_failure
  record_failure-below l =
      ap (λ s. failure_in s now e cb) p
      ∙ if_false (opened now (counted e cb)) (counted e cb) (ground arith)

  record_failure-reaches :
      max cb.config.failure_threshold 1 ≤ cb.consecutive_failures + 1
      → record_failure now e cb ≡ opened now (counted e cb)
  unfolding record_failure
  record_failure-reaches l =
      ap (λ s. failure_in s now e cb) p
      ∙ if_true (opened now (counted e cb)) (counted e cb) (ground arith)

record_failure-open :
    (now : ℕ) (e : StellarError) (cb : CircuitBreaker)
    → cb.state ≡ CircuitState.open_circuit
    → record_failure now e cb ≡ cb
unfolding record_failure
record_failure-open now e cb p = ap (λ s. failure_in s now e cb) p

failures-open :
    (n now : ℕ) (e : StellarError) (cb : CircuitBreaker)
    → cb.state ≡ CircuitState.open_circuit
    → failures n now e cb ≡ cb
failures-open zero now e cb p = refl
failures-open (suc n) now e cb p = rw (record_failure-open now e cb p) (failures-open n now e cb p)

closed-below :
    (cb : CircuitBreaker)
    → Consistent cb
    → cb.state ≡ CircuitState.closed
    → cb.consecutive_failures < max cb.config.failure_threshold 1
closed-below cb h p = (subst (λ s. Fits s cb) p h.fields).1

-- A closed breaker opens after `n` failures in a row exactly when they bring the number of failures
-- since the last success to the threshold, which counts as 1 if it is 0.
pub failures-trip_iff :
    (n now : ℕ) (e : StellarError) (cb : CircuitBreaker)
    → Consistent cb
    → cb.state ≡ CircuitState.closed
    → ((failures n now e cb).state ≡ CircuitState.open_circuit)
      ↔ (max cb.config.failure_threshold 1 ≤ n + cb.consecutive_failures)
failures-trip_iff zero now e cb h p =
    (λ q. cc (p, q), λ l. absurd (omega (arith, closed-below cb h p)))
failures-trip_iff (suc n) now e cb h p =
    elim (dec_lt (cb.consecutive_failures + 1) (max cb.config.failure_threshold 1)) [
      | yes l ↦
          let next = record_failure-below now e cb p l in
          let moved = ap (λ b. (failures n now e b).state) next in
          let (to, from) =
            failures-trip_iff n now e (counted e cb)
              (subst Consistent next (step-Consistent (Event.failure e) now cb h)) p in
          let below = closed-below cb h p in
          let (bound, _) = h.counts in
          (λ q. omega (arith, to (sym moved ∙ q)), λ q. moved ∙ from (omega arith))
      | no l ↦
          let next = record_failure-reaches now e cb p (omega arith) in
          let moved = ap (λ b. (failures n now e b).state) next in
          let still = ap (λ b. b.state) (failures-open n now e (opened now (counted e cb)) refl) in
          (λ _. omega arith, λ _. moved ∙ still)
    ]
