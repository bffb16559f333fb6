-- ===== src/Stellar/Transitions.antt =====
-- src/stellar.rs, `CircuitBreaker`: the invariant of its states, when it opens, rejects and closes.
use proof_stell_contract.Base.{
  ℕ, ◌+◌, ◌-◌, ◌≤◌, ◌<◌, ◌≡◌, ◌↔◌, ◌⊎◌, refl, arith, inl, inr, ◌==◌, leb, max, Bool-cases, none,
  some,
}
use proof_stell_contract.Base.Words.{u32_max, saturating_sub}
use proof_stell_contract.Stellar.Errors.{CircuitState, CircuitBreakerConfig, StellarError, err}
use proof_stell_contract.Stellar.Breaker.{
  CircuitBreaker, new, allow_in, allow_call, success_in, record_success, failure_in, record_failure,
}

-- The configured counts are words of 32 bits.
abbrev pub Counts : CircuitBreakerConfig → Type 0
Counts config = (config.failure_threshold ≤ u32_max) × (config.half_open_max_calls ≤ u32_max)

-- What each state says of the other fields.
abbrev pub Fits : CircuitState → CircuitBreaker → Type 0
Fits CircuitState.closed cb =
    (cb.opened_at ≡ none) × (cb.consecutive_failures < max cb.config.failure_threshold 1)
Fits CircuitState.open_circuit cb = (t : ℕ) × (cb.opened_at ≡ some t)
Fits CircuitState.half_open cb = cb.half_open_successes < max cb.config.half_open_max_calls 1

pub record Consistent (cb : CircuitBreaker) : Type 0 where
  pub counts : Counts cb.config
  pub permits : cb.permits ≡ max cb.config.half_open_max_calls 1
  pub fields : Fits cb.state cb

-- What callers do: one is let in or not, and one reports its result.
pub data Event : Type 0 where
  allow : Event
  success : Event
  failure : StellarError → Event

abbrev pub step : Event → ℕ → CircuitBreaker → CircuitBreaker
step Event.allow now cb = (allow_call now cb).1
step Event.success now cb = record_success cb
step (Event.failure e) now cb = record_failure now e cb

pub new-Consistent : (config : CircuitBreakerConfig) → Counts config → Consistent (new config)
unfolding new
new-Consistent config c = record { counts = c; permits = refl; fields = (refl, ground arith) }

module _ (cb : CircuitBreaker) (h : Consistent cb) where
  allow-Consistent :
      (s : CircuitState) (now : ℕ) → Fits s cb → cb.state ≡ s → Consistent (allow_in s now cb).1
  allow-Consistent CircuitState.closed now f p = h
  allow-Consistent CircuitState.half_open now f p = elim (Bool-cases (cb.permits == 0)) [
    | inl q ↦ rw q (record { counts = h.counts; permits = h.permits; fields = rw p f })
    | inr q ↦ rw q (record { counts = h.counts; permits = ground arith; fields = rw p f })
  ]
  allow-Consistent CircuitState.open_circuit now (t, f) p =
      rw f (elim (Bool-cases (leb cb.config.open_duration (saturating_sub now t))) [
        | inl q ↦ rw q (record { counts = h.counts; permits = h.permits; fields = ground arith })
        | inr q ↦ rw q (record { counts = h.counts; permits = h.permits; fields = rw p (t, refl) })
      ])

  success-Consistent : (s : CircuitState) → Fits s cb → cb.state ≡ s → Consistent (success_in s cb)
  success-Consistent CircuitState.closed f p = record {
    counts = h.counts;
    permits = h.permits;
    fields = rw p (f.0, ground arith);
  }
  success-Consistent CircuitState.open_circuit f p = h
  success-Consistent CircuitState.half_open f p =
      elim (Bool-cases (leb (max cb.config.half_open_max_calls 1) (cb.half_open_successes + 1))) [
        | inl q ↦
            rw q (record { counts = h.counts; permits = h.permits; fields = (refl, ground arith) })
        | inr q ↦
            rw q (record { counts = h.counts; permits = h.permits; fields = rw p (ground arith) })
      ]

  failure-Consistent :
      (s : CircuitState) (now : ℕ) (e : StellarError)
      → Fits s cb
      → cb.state ≡ s
      → Consistent (failure_in s now e cb)
  failure-Consistent CircuitState.closed now e f p =
      elim (Bool-cases (leb (max cb.config.failure_threshold 1) (cb.consecutive_failures + 1))) [
        | inl q ↦ rw q (record { counts = h.counts; permits = h.permits; fields = (now, refl) })
        | inr q ↦
            rw q
              (record { counts = h.counts; permits = h.permits; fields = rw p (f.0, ground arith) })
      ]
  failure-Consistent CircuitState.open_circuit now e f p = h
  failure-Consistent CircuitState.half_open now e f p = record {
    counts = h.counts;
    permits = h.permits;
    fields = (now, refl);
  }

-- Every step keeps a breaker sound: a closed one has no opening time and fewer failures than its
-- threshold, an open one has an opening time, a half-open one has fewer successes than it needs, and
-- the semaphore has all its permits.
pub step-Consistent :
    (event : Event) (now : ℕ) (cb : CircuitBreaker) → Consistent cb → Consistent (step event now cb)
unfolding allow_call record_success record_failure
step-Consistent Event.allow now cb h = allow-Consistent cb h cb.state now h.fields refl
step-Consistent Event.success now cb h = success-Consistent cb h cb.state h.fields refl
step-Consistent (Event.failure e) now cb h = failure-Consistent cb h cb.state now e h.fields refl

-- The open time has not passed, and the error names what is left of it.
abbrev pub TooEarly : ℕ → CircuitBreaker → StellarError → Type 0
TooEarly now cb e =
    (cb.state ≡ CircuitState.open_circuit)
    × ((t : ℕ) × (cb.opened_at ≡ some t)
        × (now - t < cb.config.open_duration)
        × (e
            ≡ StellarError.circuit_open CircuitState.open_circuit
                (cb.config.open_duration - (now - t))))

-- The calls of `allow_call` that are under way hold every permit.
abbrev pub NoPermit : CircuitBreaker → StellarError → Type 0
NoPermit cb e =
    (cb.state ≡ CircuitState.half_open)
    × (cb.permits ≡ 0)
    × (e ≡ StellarError.circuit_open CircuitState.half_open 0)

-- A breaker whose fields fit its state refuses a call exactly when it is open and less than the open
-- time has passed since it opened, with what is left of it in the error, or when it is half open and
-- no permit is left at that moment, that is, when the calls of `allow_call` under way hold them all,
-- with no time to wait. A closed breaker refuses no call.
pub allow_call-rejects_iff :
    (now : ℕ) (cb : CircuitBreaker) (e : StellarError)
    → Fits cb.state cb
    → ((allow_call now cb).0 ≡ err e) ↔ (TooEarly now cb e ⊎ NoPermit cb e)
unfolding allow_call
allow_call-rejects_iff now cb e fits = verdict cb.state fits refl
  where
    verdict :
        (s : CircuitState)
        → Fits s cb
        → cb.state ≡ s
        → ((allow_in s now cb).0 ≡ err e) ↔ (TooEarly now cb e ⊎ NoPermit cb e)
    verdict CircuitState.closed f p =
        (λ q. cc q, λ x. elim x [ inl (q, _) ↦ cc (p, q) | inr (q, _, _) ↦ cc (p, q) ])
    verdict CircuitState.half_open f p = elim (Bool-cases (cb.permits == 0)) [
      | inl z ↦ (
        λ q. inr (p, ground arith, ground arith),
        λ x. elim x [ inl (q, _) ↦ cc (p, q) | inr (_, _, m) ↦ ground arith ],
      )
      | inr z ↦ (
        λ q. absurd (ground arith),
        λ x. elim x [ inl (q, _) ↦ cc (p, q) | inr (_, m, _) ↦ ground arith ],
      )
    ]
    verdict CircuitState.open_circuit (t, f) p = (
      λ q. inl (p, (t, f, ground arith, ground arith)),
      λ x. elim x [ inl (_, (u, g, l, m)) ↦ ground arith | inr (q, _, _) ↦ cc (p, q) ],
    )
