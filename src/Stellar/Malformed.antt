-- ===== src/Stellar/Malformed.antt =====
-- src/stellar.rs, `verify_hash_with_retry`: texts that are no canonical hash, and the circuit breaker.
use proof_stell_contract.Base.{ℕ, zero, suc, ◌+◌, ◌≤◌, ◌≡◌, refl, ap, ◌∙◌, arith, none, max}
use proof_stell_contract.Hash.Tools.{Text}
use proof_stell_contract.Hash.Canonical
use proof_stell_contract.Stellar.Errors.{CircuitState, StellarError, err}
use proof_stell_contract.Stellar.Breaker.{CircuitBreaker, allow_in, record_failure, record_result}
use proof_stell_contract.Stellar.Client.{
  VerificationStatus, VerificationResult, Horizon, StellarClient, to_option,
}
use proof_stell_contract.Stellar.Verify.{gave_up}
use proof_stell_contract.Stellar.Guarded.{
  exhausted, judge, allowed, execute_verify_hash_with_retry, verify_hash_with_retry,
}
use proof_stell_contract.Stellar.Transitions.{Consistent, Event, step-Consistent}
use proof_stell_contract.Stellar.Opens.{failures, record_failure-below, failures-trip_iff}
use proof_stell_contract.Stellar.Confirmed.{verify_hash-refused}

-- The text is no canonical hash.
abbrev pub Refused : Horizon → Text → Type 0
Refused h text = to_option (Canonical.new h.subtle text) ≡ none

module _ (h : Horizon) (client : StellarClient) (text : Text) (refused : Refused h text) where
  -- What the breaker is told of such a text.
  abbrev malformed : StellarError
  malformed = exhausted h client (gave_up h VerificationStatus.malformed_response none)

  execute-refused :
      (w : h.World) → execute_verify_hash_with_retry h client text w ≡ (err malformed, w)
  unfolding execute_verify_hash_with_retry
  execute-refused w =
      ap (λ r. (judge h client r.0 r.0.status, r.1)) (verify_hash-refused h client text w refused)

  -- As many verifications of the text as `n`, one after the other.
  abbrev pub verifications : ℕ → CircuitBreaker → h.World → CircuitBreaker × h.World
  verifications zero cb w = (cb, w)
  verifications (suc n) cb w =
      let (_, cb', w') = verify_hash_with_retry h client text cb w in verifications n cb' w'

  record_result-affects :
      (now : ℕ) (cb : CircuitBreaker)
      → record_result {A = VerificationResult} now (err malformed) cb
        ≡ record_failure now malformed cb
  unfolding record_result
  record_result-affects now cb = refl

  with_retry-refused :
      (cb : CircuitBreaker) (w : h.World)
      → cb.state ≡ CircuitState.closed
      → verify_hash_with_retry h client text cb w
        ≡ (err malformed, record_failure (h.now w) malformed cb, w)
  unfolding verify_hash_with_retry
  with_retry-refused cb w p =
      ap
        (λ s.
          allowed h (execute_verify_hash_with_retry h client text) (allow_in s (h.now w) cb).0
            (allow_in s (h.now w) cb).1 w)
        p
      ∙ ap (λ r. (r.0, record_result (h.now r.1) r.0 cb, r.1)) (execute-refused w)
      ∙ ap (λ b. (err malformed, b, w)) (record_result-affects (h.now w) cb)

  verifications-failures :
      (n : ℕ) (cb : CircuitBreaker) (w : h.World)
      → Consistent cb
      → cb.state ≡ CircuitState.closed
      → n + cb.consecutive_failures ≤ max cb.config.failure_threshold 1
      → verifications n cb w ≡ (failures n (h.now w) malformed cb, w)
  verifications-failures zero cb w s p l = refl
  verifications-failures (suc zero) cb w s p l = ap (λ r. (r.1, r.2)) (with_retry-refused cb w p)
  verifications-failures (suc (suc n)) cb w s p l =
      let next = record_failure-below (h.now w) malformed cb p (omega arith) in
      let (bound, _) = s.counts in
      ap (λ r. verifications (suc n) r.1 r.2) (with_retry-refused cb w p)
      ∙ verifications-failures (suc n) (record_failure (h.now w) malformed cb) w
          (step-Consistent (Event.failure malformed) (h.now w) cb s) (ap (λ b. b.state) next ∙ p)
          (omega (
            arith,
            ap (λ b. b.consecutive_failures) next,
            ap (λ b. b.config.failure_threshold) next,
          ))

  -- Texts that are no canonical hash open a closed breaker, as many of them one after the other as
  -- the threshold is above the failures since the last success, though none of them leads to a
  -- request: the surroundings stay as they were.
  pub verifications-open :
      (n : ℕ) (cb : CircuitBreaker) (w : h.World)
      → Consistent cb
      → cb.state ≡ CircuitState.closed
      → n + cb.consecutive_failures ≡ max cb.config.failure_threshold 1
      → ((verifications n cb w).0.state ≡ CircuitState.open_circuit)
        × ((verifications n cb w).1 ≡ w)
  verifications-open n cb w s p l =
      let run = verifications-failures n cb w s p (omega arith) in
      (
        ap (λ r. r.0.state) run ∙ (failures-trip_iff n (h.now w) malformed cb s p).1 (omega arith),
        ap (λ r. r.1) run,
      )
