-- ===== src/Stellar/Verify.antt =====
-- src/stellar.rs, `StellarClient`: the delay before a retry, the reading of an answer, the loop of
-- the attempts, and the call through the circuit breaker.
use proof_stell_contract.Base.{
  ℕ, zero, suc, ◌+◌, ◌-◌, ◌/◌, min, max, ◌==◌, if◌then◌else◌, Bool, true, false, ◌||◌, Option, none,
  some, ◌++◌,
}
use proof_stell_contract.Base.Words.{as_u64, saturating_mul_u64}
use proof_stell_contract.Hash.Tools.{Text}
use proof_stell_contract.Hash.Canonical
use proof_stell_contract.Hash.Canonical.{CanonicalHash, to_stellar_memo_base64}
use proof_stell_contract.Stellar.Errors.{RetryJitter, RetryPolicy}
use proof_stell_contract.Stellar.Answers.{read_answer}
use proof_stell_contract.Stellar.Client.{
  VerificationStatus, VerificationResult, verified, Horizon, StellarClient, Flow, return_with,
  again, stop, capped_delay, to_option, query,
}

module _ (h : Horizon) where
  open h use {World}
  open h.floats use {lit, as_secs_f64, mul, div, round}

  unfoldable pub jittered_delay_full : ℕ → World → ℕ
  jittered_delay_full max_delay w =
      let fraction = div (lit (h.subsec_nanos w)) (lit 1000000000) in
      round (mul (mul (as_secs_f64 max_delay) (lit 1000)) fraction)

  unfoldable pub jittered_delay_equal : ℕ → ℕ
  jittered_delay_equal max_delay = round (div (mul (as_secs_f64 max_delay) (lit 1000)) (lit 2))

  unfoldable pub jittered_delay_decorrelated : ℕ → World → ℕ × World
  jittered_delay_decorrelated base w =
      let millis = as_u64 base in
      let decorrelated = saturating_mul_u64 millis 3 / 4 in
      let (jitter, w') = h.gen_range (max decorrelated 1) w in (min jitter (as_u64 base), w')

  unfoldable pub jittered : RetryJitter → ℕ → World → ℕ × World
  unfolding jittered_delay_full jittered_delay_equal jittered_delay_decorrelated
  jittered RetryJitter.no_jitter capped w = (capped, w)
  jittered RetryJitter.full capped w = (jittered_delay_full capped w, w)
  jittered RetryJitter.equal capped w = (jittered_delay_equal capped, w)
  jittered RetryJitter.decorrelated capped w = jittered_delay_decorrelated capped w

  unfoldable pub retry_delay : RetryPolicy → ℕ → World → ℕ × World
  unfolding jittered
  retry_delay retry attempt w = jittered retry.jitter (capped_delay retry attempt) w

  abbrev pub fallback : Bool → Option VerificationResult → Option VerificationResult
  fallback stale_cache_ok none = none
  fallback stale_cache_ok (some result) =
      if verified result.status || stale_cache_ok then some result else none

  unfoldable pub try_stale_cache_fallback :
      StellarClient → Text → World → Option VerificationResult × World
  try_stale_cache_fallback client hash w =
      let (found, w') = h.cached hash w in (fallback client.stale_cache_ok found, w')

  abbrev pub full_queue : Option ℕ → Option VerificationResult → Flow
  full_queue last_http none = again VerificationStatus.network_error last_http
  full_queue last_http (some result) = return_with result

  unfoldable pub pause : StellarClient → ℕ → World → World
  unfolding retry_delay
  pause client attempt w =
      if attempt == 0
      then w
      else let (delay, w') = retry_delay client.retry (attempt - 1) w in h.sleep delay w'

  unfoldable pub request_url : StellarClient → Text → Text
  request_url client hash = client.horizon_url ++ (query ++ hash)

  unfoldable pub admitted : StellarClient → Text → Option ℕ → Bool → World → Flow × World
  unfolding try_stale_cache_fallback request_url
  admitted client hash last_http true w =
      let (answer, w') = h.get (request_url client hash) w in
      (read_answer h hash last_http answer, w')
  admitted client hash last_http false w =
      let (kept, w') = try_stale_cache_fallback client hash w in (full_queue last_http kept, w')

  -- The body of the loop, behind its delay.
  unfoldable pub attempt_once : StellarClient → Text → Option ℕ → World → Flow × World
  unfolding admitted
  attempt_once client hash last_http w =
      let (acquired, w') = h.acquire w in admitted client hash last_http acquired w'

  abbrev pub gave_up : VerificationStatus → Option ℕ → VerificationResult
  gave_up last_status last_http = record {
    status = last_status;
    transaction_id = none;
    timestamp = none;
    last_http_status = last_http;
  }

  -- What follows an attempt, where `rest` is the loop from there on.
  abbrev pub proceed :
      (VerificationStatus → Option ℕ → World → VerificationResult × World)
      → Flow × World
      → VerificationResult × World
  proceed rest (return_with result, w) = (result, w)
  proceed rest (again s http, w) = rest s http w
  proceed rest (stop s http, w) = (gave_up s http, w)

  -- The loop, with the number of attempts that are left.
  unfoldable pub attempts :
      StellarClient
      → Text
      → ℕ
      → ℕ
      → VerificationStatus
      → Option ℕ
      → World
      → VerificationResult × World
  attempts client hash zero attempt last_status last_http w = (gave_up last_status last_http, w)
  attempts client hash (suc left) attempt last_status last_http w =
      proceed (attempts client hash left (attempt + 1))
        (attempt_once client hash last_http (pause client attempt w))

  abbrev pub checked : StellarClient → Option CanonicalHash → World → VerificationResult × World
  checked client none w = (gave_up VerificationStatus.malformed_response none, w)
  checked client (some c) w =
      attempts client c.inner (client.max_retries + 1) 0 VerificationStatus.no_match none w

  unfoldable pub verify_hash : StellarClient → Text → World → VerificationResult × World
  unfolding attempts
  verify_hash client hash w = checked client (to_option (Canonical.new h.subtle hash)) w
