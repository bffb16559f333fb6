-- ===== src/Cache/Recovery.antt =====
-- src/cache.rs, `CacheCircuitBreaker`: when the circuit opens, when it is probed, and when it closes.
use proof_stell_contract.Base.{
  ℕ, zero, suc, ◌+◌, ◌^◌, ◌≤◌, ◌<◌, ◌≡◌, ◌↔◌, refl, sym, ap, ◌∙◌, arith, ltb, leb, leb→le, subst,
  ◌%◌, if◌then◌else◌, true, false, Bool-cases, inl, inr, none, some,
}
use proof_stell_contract.Base.Words.{u32_max, as_u32}
use proof_stell_contract.Cache.Breaker.{
  CircuitState, CacheCircuitBreaker, current_backoff, waited, allow_in, success_in, failure_in,
  should_allow, record_success, record_failure, take_last_transition,
}

-- What holds between the fields in each state.
abbrev InState : CircuitState → CacheCircuitBreaker → Type 0
InState CircuitState.closed cb =
    (cb.consecutive_failures < cb.failure_threshold) × (cb.opened_at ≡ none)
InState CircuitState.open_circuit cb = (at : ℕ) × (cb.opened_at ≡ some at)
InState CircuitState.half_open cb = cb.half_open_calls < cb.half_open_max_calls

-- A breaker that its operations lead to: with limits that a `u32` holds and that are not 0.
pub record Sound (cb : CacheCircuitBreaker) : Type 0 where
  pub threshold : (0 < cb.failure_threshold) × (cb.failure_threshold ≤ u32_max)
  pub calls : (0 < cb.half_open_max_calls) × (cb.half_open_max_calls ≤ u32_max)
  pub fields : InState cb.state cb

-- One operation of the service on the breaker.
pub data Event : Type 0 where
  ask : Event
  succeed : Event
  fail : Event
  notice : Event

unfoldable pub step : Event → ℕ → CacheCircuitBreaker → CacheCircuitBreaker
step Event.ask now cb = (should_allow now cb).1
step Event.succeed now cb = record_success now cb
step Event.fail now cb = record_failure now cb
step Event.notice now cb = (take_last_transition cb).1

below : (a b : ℕ) → leb a b ≡ false → b < a
below a b p = ground arith

module _ (now : ℕ) (cb : CacheCircuitBreaker) (s : Sound cb) where
  allow-Sound : (st : CircuitState) → InState st cb → Sound (allow_in st now cb).1
  allow-Sound CircuitState.closed f = s
  allow-Sound CircuitState.half_open f = s
  allow-Sound CircuitState.open_circuit f = elim (Bool-cases (waited now cb cb.opened_at)) [
    | inl p ↦ rw p (record { threshold = s.threshold; calls = s.calls; fields = s.calls.0 })
    | inr p ↦ rw p s
  ]

  success-Sound : (st : CircuitState) → cb.state ≡ st → InState st cb → Sound (success_in st now cb)
  success-Sound CircuitState.closed p f = record {
    threshold = s.threshold;
    calls = s.calls;
    fields = rw p (s.threshold.0, f.1);
  }
  success-Sound CircuitState.open_circuit p f = s
  success-Sound CircuitState.half_open p f =
      elim (Bool-cases (leb cb.half_open_max_calls (as_u32 (cb.half_open_calls + 1)))) [
        | inl q ↦
            rw q
              (record { threshold = s.threshold; calls = s.calls; fields = (s.threshold.0, refl) })
        | inr q ↦
            rw q (record { threshold = s.threshold; calls = s.calls; fields = rw p (below _ _ q) })
      ]

  failure-Sound : (st : CircuitState) → cb.state ≡ st → InState st cb → Sound (failure_in st now cb)
  failure-Sound CircuitState.closed p f =
      elim (Bool-cases (leb cb.failure_threshold (as_u32 (cb.consecutive_failures + 1)))) [
        | inl q ↦ rw q (record { threshold = s.threshold; calls = s.calls; fields = (now, refl) })
        | inr q ↦
            rw q (record {
              threshold = s.threshold;
              calls = s.calls;
              fields = rw p (below _ _ q, f.1);
            })
      ]
  failure-Sound CircuitState.open_circuit p f = record {
    threshold = s.threshold;
    calls = s.calls;
    fields = rw p f;
  }
  failure-Sound CircuitState.half_open p f = record {
    threshold = s.threshold;
    calls = s.calls;
    fields = (now, refl);
  }

-- Every operation keeps a breaker sound: with its limits above 0 and within a `u32`, below the
-- threshold of failures and with no opening time while the circuit is closed, with an opening time
-- while it is open, and below the limit of calls while it is half open.
pub step-Sound :
    (event : Event) (now : ℕ) (cb : CacheCircuitBreaker) → Sound cb → Sound (step event now cb)
unfolding step should_allow record_success record_failure take_last_transition
step-Sound Event.ask now cb s = allow-Sound now cb s cb.state s.fields
step-Sound Event.succeed now cb s = success-Sound now cb s cb.state refl s.fields
step-Sound Event.fail now cb s = failure-Sound now cb s cb.state refl s.fields
step-Sound Event.notice now cb s = record {
  threshold = s.threshold;
  calls = s.calls;
  fields = kept cb.state s.fields;
}
  where
    kept : (st : CircuitState) → InState st cb → InState st (record cb { last_transition = none })
    kept CircuitState.closed f = f
    kept CircuitState.open_circuit f = f
    kept CircuitState.half_open f = f

-- As many failures as `n`, one after the other and with no success between.
abbrev pub failures : ℕ → ℕ → CacheCircuitBreaker → CacheCircuitBreaker
failures zero now cb = cb
failures (suc n) now cb = failures n now (record_failure now cb)

abbrev pub allows : ℕ → ℕ → CacheCircuitBreaker → ℕ
allows zero now cb = 0
allows (suc n) now cb =
    let (admitted, cb') = should_allow now cb in (if admitted then 1 else 0) + allows n now cb'

should_allow-half_open :
    (now : ℕ) (cb : CacheCircuitBreaker)
    → cb.state ≡ CircuitState.half_open
    → cb.half_open_calls < cb.half_open_max_calls
    → should_allow now cb ≡ (true, cb)
unfolding should_allow
should_allow-half_open now cb p h =
    let q : ltb cb.half_open_calls cb.half_open_max_calls ≡ true = ground arith in
    ap (λ st. allow_in st now cb) p ∙ ap (λ b. (b, cb)) q

-- A half-open circuit with fewer successes than its limit of calls lets every request through until
-- one of them has succeeded or failed: the limit does not count the probes under way.
pub allows-half_open :
    (n now : ℕ) (cb : CacheCircuitBreaker)
    → cb.state ≡ CircuitState.half_open
    → cb.half_open_calls < cb.half_open_max_calls
    → allows n now cb ≡ n
allows-half_open zero now cb p h = refl
allows-half_open (suc n) now cb p h =
    rw (should_allow-half_open now cb p h, allows-half_open n now cb p h) (omega arith)

-- A probe that fails does not lengthen the wait for the next: the backoff stays as it was.
pub record_failure-same_backoff :
    (now : ℕ) (cb : CacheCircuitBreaker)
    → cb.state ≡ CircuitState.half_open
    → current_backoff (record_failure now cb) ≡ current_backoff cb
unfolding record_failure current_backoff
record_failure-same_backoff now cb p = ap (λ st. current_backoff (failure_in st now cb)) p

record_failure-state :
    (now : ℕ) (cb : CacheCircuitBreaker) {st : CircuitState}
    → cb.state ≡ st
    → record_failure now cb ≡ failure_in st now cb
unfolding record_failure
record_failure-state now cb p = ap (λ st. failure_in st now cb) p

failures-stays_open :
    (n now : ℕ) (cb : CacheCircuitBreaker)
    → cb.state ≡ CircuitState.open_circuit
    → (failures n now cb).state ≡ CircuitState.open_circuit
failures-stays_open zero now cb p = p
failures-stays_open (suc n) now cb p =
    failures-stays_open n now _ (ap (λ c. c.state) (record_failure-state now cb p) ∙ p)

-- A sound and closed circuit that sees only failures is open after `n` of them exactly when they and
-- those counted before reach its threshold, as long as their number fits a `u32`.
pub failures-opens_iff :
    (n now : ℕ) (cb : CacheCircuitBreaker)
    → Sound cb
    → cb.state ≡ CircuitState.closed
    → n + cb.consecutive_failures ≤ u32_max
    → ((failures n now cb).state ≡ CircuitState.open_circuit)
      ↔ (cb.failure_threshold ≤ n + cb.consecutive_failures)
unfolding step
failures-opens_iff zero now cb s p small =
    let f : InState CircuitState.closed cb = subst (λ st. InState st cb) p s.fields in
    ((λ q. cc (sym p ∙ q)), λ h. absurd (omega (arith, f.0)))
failures-opens_iff (suc n) now cb s p small =
    let count : (cb.consecutive_failures + 1) % 2 ^ 32 ≡ cb.consecutive_failures + 1 =
      omega arith in
    let next = record_failure-state now cb p in
    elim (Bool-cases (leb cb.failure_threshold (as_u32 (cb.consecutive_failures + 1)))) [
      | inl q ↦
          let opened : (record_failure now cb).state ≡ CircuitState.open_circuit =
            ap (λ c. c.state) next ∙ rw q refl in
          let h : cb.failure_threshold ≤ cb.consecutive_failures + 1 =
            leb→le _ _ (ap (leb cb.failure_threshold) (sym count) ∙ q) in
          ((λ _. omega arith), λ _. failures-stays_open n now _ opened)
      | inr q ↦
          let cb' : CacheCircuitBreaker = record cb {
            consecutive_failures = as_u32 (cb.consecutive_failures + 1);
          } in
          let e : record_failure now cb ≡ cb' = next ∙ rw q refl in
          let s' : Sound cb' = subst Sound e (step-Sound Event.fail now cb s) in
          let (there, back) = failures-opens_iff n now cb' s' p (omega arith) in
          subst
            (λ c.
              ((failures n now c).state ≡ CircuitState.open_circuit)
              ↔ (cb.failure_threshold ≤ suc n + cb.consecutive_failures))
            (sym e) ((λ z. let h = there z in omega arith), λ h. back (omega arith))
    ]
