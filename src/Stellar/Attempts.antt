-- ===== src/Stellar/Attempts.antt =====
-- src/stellar.rs, `verify_hash`: how many requests a verification makes, and when it ends.
use proof_stell_contract.Base.{
  ℕ, zero, suc, ◌+◌, ◌-◌, ◌≤◌, ◌≡◌, refl, arith, inl, inr, ◌==◌, Bool, true, false, Bool-cases,
  Option, none, some,
}
use proof_stell_contract.Hash.Tools.{Text}
use proof_stell_contract.Hash.Canonical
use proof_stell_contract.Hash.Canonical.{CanonicalHash}
use proof_stell_contract.Stellar.Errors.{RetryJitter}
use proof_stell_contract.Stellar.Client.{
  VerificationStatus, VerificationResult, Horizon, StellarClient, Flow, return_with, again, stop,
  capped_delay, to_option,
}
use proof_stell_contract.Stellar.Verify.{
  pause, admitted, attempt_once, attempts, proceed, checked, verify_hash, jittered,
}

-- The same surroundings, with a count of the requests.
abbrev pub counting : Horizon → Horizon
counting h = record h {
  World = h.World × ℕ;
  get = λ url (w, n). let (answer, w') = h.get url w in (answer, (w', n + 1));
  sleep = λ d (w, n). (h.sleep d w, n);
  acquire = λ (w, n). let (a, w') = h.acquire w in (a, (w', n));
  cached = λ hash (w, n). let (c, w') = h.cached hash w in (c, (w', n));
  now = λ (w, n). h.now w;
  subsec_nanos = λ (w, n). h.subsec_nanos w;
  gen_range = λ m (w, n). let (r, w') = h.gen_range m w in (r, (w', n));
  subsec_nanos_lt = λ (w, n). h.subsec_nanos_lt w;
  gen_range_lt = λ m (w, n) p. h.gen_range_lt m w p;
}

module _ (h : Horizon) (client : StellarClient) where
  jittered-count :
      (jitter : RetryJitter) (d : ℕ) (w : h.World) (n : ℕ)
      → (jittered (counting h) jitter d (w, n)).1.1 ≡ n
  unfolding jittered
  jittered-count RetryJitter.no_jitter d w n = refl
  jittered-count RetryJitter.full d w n = refl
  jittered-count RetryJitter.equal d w n = refl
  jittered-count RetryJitter.decorrelated d w n = refl

  pub pause-count :
      (attempt : ℕ) (w : h.World) (n : ℕ) → (pause (counting h) client attempt (w, n)).1 ≡ n
  unfolding pause
  pause-count attempt w n = elim (Bool-cases (attempt == 0)) [
    | inl p ↦ rw p refl
    | inr p ↦
        rw p (jittered-count client.retry.jitter (capped_delay client.retry (attempt - 1)) w n)
  ]

  admitted-count :
      (hash : Text) (http : Option ℕ) (acquired : Bool) (w : h.World) (n : ℕ)
      → (admitted (counting h) client hash http acquired (w, n)).1.1 ≤ n + 1
  unfolding admitted
  admitted-count hash http true w n = omega arith
  admitted-count hash http false w n = omega arith

  once-count :
      (hash : Text) (http : Option ℕ) (w : h.World × ℕ)
      → (attempt_once (counting h) client hash http w).1.1 ≤ w.1 + 1
  unfolding attempt_once
  once-count hash http (w, n) = admitted-count hash http (h.acquire w).0 (h.acquire w).1 n

  proceed-count :
      (rest : VerificationStatus → Option ℕ → h.World × ℕ → VerificationResult × (h.World × ℕ))
      (left bound : ℕ)
      → ((s : VerificationStatus) (http : Option ℕ) (w : h.World × ℕ)
          → (rest s http w).1.1 ≤ w.1 + left)
      → (flow : Flow) (w : h.World × ℕ) → w.1 ≤ bound
      → (proceed (counting h) rest (flow, w)).1.1 ≤ bound + left
  proceed-count rest left bound ih (return_with r) w l = omega arith
  proceed-count rest left bound ih (again s http) w l = omega (arith, ih s http w)
  proceed-count rest left bound ih (stop s http) w l = omega arith

  attempts-count :
      (hash : Text) (left attempt : ℕ) (s : VerificationStatus) (http : Option ℕ) (w : h.World × ℕ)
      → (attempts (counting h) client hash left attempt s http w).1.1 ≤ w.1 + left
  unfolding attempts
  attempts-count hash zero attempt s http w = omega arith
  attempts-count hash (suc left) attempt s http (w, n) =
      let paused = pause (counting h) client attempt (w, n) in
      let (flow, w') = attempt_once (counting h) client hash http paused in
      omega (
        arith,
        proceed-count (attempts (counting h) client hash left (attempt + 1)) left (n + 1)
            (attempts-count hash left (attempt + 1)) flow w'
            (omega (arith, once-count hash http paused, pause-count attempt w n)),
      )

  -- Whatever Horizon, the cache and the queue answer, a verification of any text ends after at most
  -- as many requests as there are retries, and one more.
  pub verify_hash-requests :
      (hash : Text) (w : h.World)
      → (verify_hash (counting h) client hash (w, 0)).1.1 ≤ client.max_retries + 1
  unfolding verify_hash
  verify_hash-requests hash w = bound (to_option (Canonical.new h.subtle hash))
    where
      bound :
          (c : Option CanonicalHash)
          → (checked (counting h) client c (w, 0)).1.1 ≤ client.max_retries + 1
      bound none = omega arith
      bound (some c) = omega (
        arith,
        attempts-count c.inner (client.max_retries + 1) 0 VerificationStatus.no_match none (w, 0),
      )
