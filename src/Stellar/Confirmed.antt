-- ===== src/Stellar/Confirmed.antt =====
-- src/stellar.rs, `verify_hash`: what a confirmation rests on.
use proof_stell_contract.Base.{
  ℕ, zero, suc, ◌+◌, ◌≡◌, ◌≢◌, ◌⊎◌, refl, sym, ap, ◌∙◌, inl, inr, Bool, true, false, Bool-cases,
  Option-cases, if◌then◌else◌, if_both, Option, none, some, List, ◌∷◌, ◌++◌, All, ◌||◌,
}
use proof_stell_contract.Hash.Tools.{Text, Outcome}
use proof_stell_contract.Hash.Canonical
use proof_stell_contract.Hash.Canonical.{
  CanonicalHash, to_stellar_memo_hash, to_stellar_memo_base64,
}
use proof_stell_contract.Hash.Policy.{validate_for_contract-accepts_iff, new-validate_for_contract}
use proof_stell_contract.Stellar.Client.{
  VerificationStatus, VerificationResult, HorizonTransaction, Answer, Horizon, StellarClient, Flow,
  return_with, again, stop, to_option, is_retryable_status, verified,
}
use proof_stell_contract.Stellar.Answers.{memo_matches, first_match, found_record, read_answer}
use proof_stell_contract.Stellar.Verify.{
  try_stale_cache_fallback, full_queue, pause, admitted, attempt_once, attempts, proceed, checked,
  gave_up, verify_hash, request_url,
}
use proof_stell_contract.Stellar.Memo.{Matches, to_option-some, first_match-Found}

module _ (h : Horizon) where
  -- Horizon answered the query for the hash with a transaction that has it as its memo, the first
  -- one of the answer that does, and the result names that transaction.
  abbrev pub Answered : StellarClient → Text → VerificationResult → Type 0
  Answered client hash result =
      (w : h.World) × (status : ℕ) × (before : List HorizonTransaction) × (tx : HorizonTransaction)
      × (after : List HorizonTransaction) × ((h.get (request_url h client hash) w).0
          ≡ Answer.response status (some (before ++ (tx ∷ after))))
      × (h.is_success status ≡ true)
      × All (λ t. memo_matches h hash t ≡ false) before
      × Matches h hash tx
      × (result.transaction_id ≡ some tx.id)

  -- The cache holds the result for the hash.
  abbrev pub Kept : Text → VerificationResult → Type 0
  Kept hash result = (w : h.World) × ((h.cached hash w).0 ≡ some result)

module _ (h : Horizon) (client : StellarClient) (hash : Text) where
  abbrev Justified : VerificationResult → Type 0
  Justified result = Answered h client hash result ⊎ Kept h hash result

  -- What an attempt leads to is no confirmation without a reason.
  abbrev Good : Flow → Type 0
  Good (return_with result) = result.status ≡ VerificationStatus.confirmed_match → Justified result
  Good (again s http) = s ≢ VerificationStatus.confirmed_match
  Good (stop s http) = s ≢ VerificationStatus.confirmed_match

  body-Good :
      (http : Option ℕ) (w : h.World) (status : ℕ) (records : List HorizonTransaction)
      → (h.get (request_url h client hash) w).0 ≡ Answer.response status (some records)
      → h.is_success status ≡ true
      → Good (found_record h http (first_match h hash records))
  body-Good http w status records got success = elim (Option-cases (first_match h hash records)) [
    | inl p ↦ rw p (λ q. cc q)
    | inr (found, p) ↦
        let (before, tx, after, e, others, m, i) = first_match-Found h hash records found p in
        rw p (λ _. inl (
          w,
          status,
          before,
          tx,
          after,
          got ∙ ap (λ l. Answer.response status (some l)) e,
          success,
          others,
          m,
          ap some i,
        ))
  ]

  refused-Good :
      (status : ℕ)
      → Good (
          if is_retryable_status status
          then again VerificationStatus.network_error (some status)
          else stop VerificationStatus.no_match (some status))
  refused-Good status = if_both Good (is_retryable_status status) _ _ (λ q. cc q) (λ q. cc q)

  answer-Good :
      (http : Option ℕ) (w : h.World) (answer : Answer)
      → (h.get (request_url h client hash) w).0 ≡ answer
      → Good (read_answer h hash http answer)
  unfolding read_answer
  answer-Good http w Answer.failed got = λ q. cc q
  answer-Good http w (Answer.response status none) got =
      if_both Good (h.is_success status) _ _ (λ q. cc q) (refused-Good status)
  answer-Good http w (Answer.response status (some records)) got =
      elim (Bool-cases (h.is_success status)) [
        | inl p ↦ rw p (body-Good http w status records got p)
        | inr p ↦ rw p (refused-Good status)
      ]

  kept-Good :
      (http : Option ℕ) (w : h.World)
      → Good (full_queue h http (try_stale_cache_fallback h client hash w).0)
  unfolding try_stale_cache_fallback
  kept-Good http w = elim (Option-cases (h.cached hash w).0) [
    | inl p ↦ rw p (λ q. cc q)
    | inr (r, p) ↦ elim (Bool-cases (verified r.status || client.stale_cache_ok)) [
      | inl q ↦ rw p (rw q (λ _. inr (w, p)))
      | inr q ↦ rw p (rw q (λ e. cc e))
    ]
  ]

  admitted-Good :
      (http : Option ℕ) (acquired : Bool) (w : h.World)
      → Good (admitted h client hash http acquired w).0
  unfolding admitted
  admitted-Good http true w = answer-Good http w (h.get (request_url h client hash) w).0 refl
  admitted-Good http false w = kept-Good http w

  once-Good : (http : Option ℕ) (w : h.World) → Good (attempt_once h client hash http w).0
  unfolding attempt_once
  once-Good http w = admitted-Good http (h.acquire w).0 (h.acquire w).1

  abbrev Result : VerificationResult × h.World → Type 0
  Result (result, _) = result.status ≡ VerificationStatus.confirmed_match → Justified result

  proceed-Result :
      (rest : VerificationStatus → Option ℕ → h.World → VerificationResult × h.World)
      → ((s : VerificationStatus) (http : Option ℕ) (w : h.World)
          → s ≢ VerificationStatus.confirmed_match
          → Result (rest s http w))
      → (flow : Flow) (w : h.World) → Good flow
      → Result (proceed h rest (flow, w))
  proceed-Result rest ih (return_with result) w g = g
  proceed-Result rest ih (again s http) w g = ih s http w g
  proceed-Result rest ih (stop s http) w g = λ p. absurd (g p)

  attempts-Result :
      (left attempt : ℕ) (s : VerificationStatus) (http : Option ℕ) (w : h.World)
      → s ≢ VerificationStatus.confirmed_match
      → Result (attempts h client hash left attempt s http w)
  unfolding attempts
  attempts-Result zero attempt s http w n = λ p. absurd (n p)
  attempts-Result (suc left) attempt s http w n =
      let paused = pause h client attempt w in
      let (flow, w') = attempt_once h client hash http paused in
      proceed-Result (attempts h client hash left (attempt + 1))
        (attempts-Result left (attempt + 1)) flow w' (once-Good http paused)

new-inner :
    (h : Horizon) (text : Text) (c : CanonicalHash)
    → Canonical.new h.subtle text ≡ Outcome.ok c
    → c ≡ record { inner = text }
new-inner h text c p =
    let accepted = (new-validate_for_contract h.subtle text c).0 p in
    let (same, _) = (validate_for_contract-accepts_iff h.subtle text c.inner).0 accepted in
    λ i. record { inner = same i }

verify_hash-accepted :
    (h : Horizon) (client : StellarClient) (text : Text) (w : h.World)
    → to_option (Canonical.new h.subtle text) ≡ some (record { inner = text })
    → verify_hash h client text w
      ≡ attempts h client text (client.max_retries + 1) 0 VerificationStatus.no_match none w
unfolding verify_hash
verify_hash-accepted h client text w p = ap (λ c. checked h client c w) p

pub verify_hash-refused :
    (h : Horizon) (client : StellarClient) (text : Text) (w : h.World)
    → to_option (Canonical.new h.subtle text) ≡ none
    → verify_hash h client text w ≡ (gave_up h VerificationStatus.malformed_response none, w)
unfolding verify_hash
verify_hash-refused h client text w p = ap (λ c. checked h client c w) p

-- A verification confirms a hash only if the text is its canonical form and either Horizon answered
-- the query for it with a transaction whose memo is that hash, which the result names, or the cache
-- holds that result for it.
pub verify_hash-confirmed :
    (h : Horizon) (client : StellarClient) (text : Text) (w : h.World)
    → (verify_hash h client text w).0.status ≡ VerificationStatus.confirmed_match
    → (Canonical.new h.subtle text ≡ Outcome.ok (record { inner = text }))
      × (Answered h client text (verify_hash h client text w).0
          ⊎ Kept h text (verify_hash h client text w).0)
verify_hash-confirmed h client text w p =
    elim (Option-cases (to_option (Canonical.new h.subtle text))) [
      | inl q ↦ cc (sym p ∙ ap (λ r. r.0.status) (verify_hash-refused h client text w q))
      | inr (c, q) ↦
          let r = to_option-some (Canonical.new h.subtle text) c q in
          let e = new-inner h text c r in
          let run = verify_hash-accepted h client text w (q ∙ ap some e) in
          (
            r ∙ ap Outcome.ok e,
            rw run (
                attempts-Result h client text (client.max_retries + 1) 0 VerificationStatus.no_match
                  none w (λ n. cc n) (sym (ap (λ s. s.0.status) run) ∙ p)),
          )
    ]
