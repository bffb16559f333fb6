-- ===== src/Stellar/Unreachable.antt =====
-- src/stellar.rs, `verify_hash`: a Horizon that cannot be reached.
use proof_stell_contract.Base.{ℕ, zero, suc, ◌+◌, ◌≡◌, refl, subst, arith, true, Option, none}
use proof_stell_contract.Hash.Tools.{Text, Outcome}
use proof_stell_contract.Hash.Canonical
use proof_stell_contract.Hash.Canonical.{CanonicalHash}
use proof_stell_contract.Stellar.Client.{
  VerificationStatus, VerificationResult, Answer, Horizon, StellarClient, Flow, again,
}
use proof_stell_contract.Stellar.Answers.{read_answer}
use proof_stell_contract.Stellar.Verify.{
  pause, admitted, attempt_once, attempts, proceed, gave_up, verify_hash, request_url,
}
use proof_stell_contract.Stellar.Attempts.{counting, pause-count}

module _ (h : Horizon) (client : StellarClient) where
  -- Every request fails before an answer.
  abbrev pub Down : Type 0
  Down = (url : Text) (w : h.World) → (h.get url w).0 ≡ Answer.failed

  -- Every request finds a place in the queue.
  abbrev pub Room : Type 0
  Room = (w : h.World) → (h.acquire w).0 ≡ true

  module _ (down : Down) (room : Room) where
    admitted-down :
        (hash : Text) (http : Option ℕ) (w : h.World) (n : ℕ)
        → ((admitted (counting h) client hash http true (w, n)).0
            ≡ again VerificationStatus.network_error none)
          × ((admitted (counting h) client hash http true (w, n)).1.1 ≡ n + 1)
    unfolding admitted read_answer
    admitted-down hash http w n = (rw (down (request_url h client hash) w) refl, refl)

    once-down :
        (hash : Text) (http : Option ℕ) (w : h.World) (n : ℕ)
        → ((attempt_once (counting h) client hash http (w, n)).0
            ≡ again VerificationStatus.network_error none)
          × ((attempt_once (counting h) client hash http (w, n)).1.1 ≡ n + 1)
    unfolding attempt_once
    once-down hash http w n = rw (room w) (admitted-down hash http (h.acquire w).1 n)

    -- The rounds that are left all fail, and each makes a request.
    Failed : ℕ → VerificationResult × (h.World × ℕ) → Type 0
    Failed n (result, w) = (result ≡ gave_up h VerificationStatus.network_error none) × (w.1 ≡ n)

    stopped :
        (hash : Text) (attempt : ℕ) (w : h.World × ℕ) (m : ℕ)
        → m ≡ w.1 + 0
        → Failed m
            (attempts (counting h) client hash zero attempt VerificationStatus.network_error none w)
    unfolding attempts Failed
    stopped hash attempt w m p = (refl, omega arith)

    proceed-down :
        (rest : VerificationStatus → Option ℕ → h.World × ℕ → VerificationResult × (h.World × ℕ))
        (m : ℕ) (flow : Flow) (w : h.World × ℕ)
        → flow ≡ again VerificationStatus.network_error none
        → Failed m (rest VerificationStatus.network_error none w)
        → Failed m (proceed (counting h) rest (flow, w))
    proceed-down rest m flow w p f = rw p f

    round-down :
        (hash : Text) (left attempt : ℕ) (s : VerificationStatus) (w : h.World) (n : ℕ)
        → ((w' : h.World × ℕ)
            → w'.1 ≡ n + 1
            → Failed (n + suc left) (
                attempts
                  (counting h)
                  client
                  hash
                  left
                  (attempt + 1)
                  VerificationStatus.network_error
                  none
                  w'))
        → Failed (n + suc left) (attempts (counting h) client hash (suc left) attempt s none (w, n))
    unfolding attempts
    round-down hash left attempt s w n ih =
        let paused = pause (counting h) client attempt (w, n) in
        let (failed, one) = once-down hash none paused.0 paused.1 in
        let (flow, w') = attempt_once (counting h) client hash none paused in
        proceed-down (attempts (counting h) client hash left (attempt + 1)) (n + suc left) flow w'
          failed (ih w' (omega (arith, one, pause-count h client attempt w n)))

    attempts-down :
        (hash : Text) (left attempt : ℕ) (w : h.World × ℕ) (m : ℕ)
        → m ≡ w.1 + left
        → Failed m
            (attempts (counting h) client hash left attempt VerificationStatus.network_error none w)
    attempts-down hash zero attempt w m p = stopped hash attempt w m p
    attempts-down hash (suc left) attempt (w, n) m p = rw p (
        round-down hash left attempt VerificationStatus.network_error w n
          (λ w' q. attempts-down hash left (attempt + 1) w' (n + suc left) (omega arith)))

    all-down :
        (hash : Text) (w : h.World) (k : ℕ)
        → k ≡ suc client.max_retries
        → Failed k (attempts (counting h) client hash k 0 VerificationStatus.no_match none (w, 0))
    all-down hash w k p = rw p (
        subst
          (λ m. Failed m (
            attempts (counting h) client hash (suc client.max_retries) 0 VerificationStatus.no_match
              none (w, 0)))
          sum
          (round-down hash client.max_retries 0 VerificationStatus.no_match w 0 (λ w' q.
            attempts-down hash client.max_retries 1 w' (0 + suc client.max_retries) (omega arith))))
      where
        sum : 0 + suc client.max_retries ≡ suc client.max_retries
        sum = omega arith

    -- While no request gets an answer, and each finds a place in the queue, the verification of a
    -- canonical hash makes one request more than there are retries and reports an error of the
    -- network, with no status.
    pub verify_hash-down :
        (hash : Text) (c : CanonicalHash) (w : h.World)
        → Canonical.new h.subtle hash ≡ Outcome.ok c
        → ((verify_hash (counting h) client hash (w, 0)).0
            ≡ gave_up h VerificationStatus.network_error none)
          × ((verify_hash (counting h) client hash (w, 0)).1.1 ≡ client.max_retries + 1)
    unfolding verify_hash Failed
    verify_hash-down hash c w p = rw p (all-down c.inner w (client.max_retries + 1) (omega arith))
