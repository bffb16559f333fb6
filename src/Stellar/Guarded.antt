-- ===== src/Stellar/Guarded.antt =====
-- src/stellar.rs, `StellarClient`: the verification through the circuit breaker, and the check of the
-- connection.
use proof_stell_contract.Base.{
  ℕ, zero, suc, ◌+◌, ◌==◌, if◌then◌else◌, Bool, true, false, Option, none, some, unwrap_or, [], ◌∷◌,
  ◌++◌,
}
use proof_stell_contract.Base.Words.{as_u32, saturating_add_u32}
use proof_stell_contract.Hash.Tools.{Text}
use proof_stell_contract.Stellar.Errors.{StellarError, StellarResult, ok, err}
use proof_stell_contract.Stellar.Breaker.{CircuitBreaker, allow_call, record_result}
use proof_stell_contract.Stellar.Client.{
  VerificationStatus, VerificationResult, Answer, Horizon, StellarClient,
}
use proof_stell_contract.Stellar.Verify.{retry_delay, verify_hash}

abbrev pub http_prefix : Text
http_prefix = b'H' ∷ b'T' ∷ b'T' ∷ b'P' ∷ 32 ∷ []

abbrev pub returned_prefix : Text
returned_prefix =
    b'v' ∷ b'e' ∷ b'r' ∷ b'i' ∷ b'f' ∷ b'i' ∷ b'c' ∷ b'a' ∷ b't' ∷ b'i' ∷ b'o' ∷ b'n' ∷ 32 ∷ b'r'
    ∷ b'e' ∷ b't' ∷ b'u' ∷ b'r' ∷ b'n' ∷ b'e' ∷ b'd' ∷ 32 ∷ []

abbrev pub verify_name : Text
verify_name = b'v' ∷ b'e' ∷ b'r' ∷ b'i' ∷ b'f' ∷ b'y' ∷ b'_' ∷ b'h' ∷ b'a' ∷ b's' ∷ b'h' ∷ []

abbrev pub check_name : Text
check_name =
    b'c' ∷ b'h' ∷ b'e' ∷ b'c' ∷ b'k' ∷ b'_' ∷ b'c' ∷ b'o' ∷ b'n' ∷ b'n' ∷ b'e' ∷ b'c' ∷ b't' ∷ b'i'
    ∷ b'o' ∷ b'n' ∷ []

-- `connection check returned a non-success response`
abbrev pub non_success : Text
non_success =
    b'c' ∷ b'o' ∷ b'n' ∷ b'n' ∷ b'e' ∷ b'c' ∷ b't' ∷ b'i' ∷ b'o' ∷ b'n' ∷ 32 ∷ b'c' ∷ b'h' ∷ b'e'
    ∷ b'c' ∷ b'k' ∷ 32 ∷ b'r' ∷ b'e' ∷ b't' ∷ b'u' ∷ b'r' ∷ b'n' ∷ b'e' ∷ b'd' ∷ 32 ∷ b'a' ∷ 32
    ∷ b'n' ∷ b'o' ∷ b'n' ∷ b'-' ∷ b's' ∷ b'u' ∷ b'c' ∷ b'c' ∷ b'e' ∷ b's' ∷ b's' ∷ 32 ∷ b'r' ∷ b'e'
    ∷ b's' ∷ b'p' ∷ b'o' ∷ b'n' ∷ b's' ∷ b'e' ∷ []

abbrev pub check_failed : Text
check_failed =
    b'c' ∷ b'o' ∷ b'n' ∷ b'n' ∷ b'e' ∷ b'c' ∷ b't' ∷ b'i' ∷ b'o' ∷ b'n' ∷ 32 ∷ b'c' ∷ b'h' ∷ b'e'
    ∷ b'c' ∷ b'k' ∷ 32 ∷ b'f' ∷ b'a' ∷ b'i' ∷ b'l' ∷ b'e' ∷ b'd' ∷ []

module _ (h : Horizon) where
  open h use {World}

  abbrev reason_of : VerificationStatus → Option ℕ → Text
  reason_of status (some http) = http_prefix ++ h.decimal http
  reason_of status none = returned_prefix ++ h.debug status

  abbrev pub exhausted : StellarClient → VerificationResult → StellarError
  exhausted client result =
      StellarError.retry_exhausted verify_name (as_u32 (client.max_retries + 1)) client.max_retries
        (StellarError.request client.horizon_url (reason_of result.status result.last_http_status))

  abbrev pub judge :
      StellarClient → VerificationResult → VerificationStatus → StellarResult VerificationResult
  judge client result VerificationStatus.confirmed_match = ok result
  judge client result VerificationStatus.no_match = ok result
  judge client result VerificationStatus.network_error = err (exhausted client result)
  judge client result VerificationStatus.malformed_response = err (exhausted client result)

  unfoldable pub execute_verify_hash_with_retry :
      StellarClient → Text → World → StellarResult VerificationResult × World
  unfolding verify_hash
  execute_verify_hash_with_retry client hash w =
      let (result, w') = verify_hash h client hash w in (judge client result result.status, w')

  abbrev pub allowed {ℓ} :
      {A : Type ℓ}
      → (World → StellarResult A × World)
      → StellarResult (Unit {0})
      → CircuitBreaker
      → World
      → StellarResult A × CircuitBreaker × World
  allowed operation (err e) cb w = (err e, cb, w)
  allowed operation (ok _) cb w =
      let (result, w') = operation w in (result, record_result (h.now w') result cb, w')

  -- `CircuitBreaker::call`
  unfoldable pub call {ℓ} :
      {A : Type ℓ}
      → (World → StellarResult A × World)
      → CircuitBreaker
      → World
      → StellarResult A × CircuitBreaker × World
  unfolding allow_call record_result
  call operation cb w =
      let (answer, cb') = allow_call (h.now w) cb in allowed operation answer cb' w

  unfoldable pub verify_hash_with_retry :
      StellarClient
      → Text
      → CircuitBreaker
      → World
      → StellarResult VerificationResult × CircuitBreaker × World
  unfolding call execute_verify_hash_with_retry
  verify_hash_with_retry client hash = call (execute_verify_hash_with_retry client hash)

  abbrev answered : Answer → Bool
  answered Answer.failed = false
  answered (Answer.response status _) = h.is_success status

  unfoldable pub check_connection : StellarClient → World → Bool × World
  check_connection client w = let (answer, w') = h.get client.horizon_url w in (answered answer, w')

  abbrev not_connected : StellarClient → Option StellarError → StellarError
  not_connected client last_error =
      StellarError.retry_exhausted check_name (saturating_add_u32 client.retry.max_retries 1)
        client.retry.max_retries
        (unwrap_or last_error (StellarError.request client.horizon_url check_failed))

  -- The delay after a check that failed.
  abbrev wait : StellarClient → ℕ → World → World
  wait client attempt w = let (delay, w') = retry_delay h client.retry attempt w in h.sleep delay w'

  -- The loop, with the number of checks that are left.
  unfoldable pub checks :
      StellarClient → ℕ → ℕ → Option StellarError → World → StellarResult Bool × World
  unfolding retry_delay check_connection
  checks client zero attempt last_error w = (err (not_connected client last_error), w)
  checks client (suc left) attempt last_error w =
      let (connected, w') = check_connection client w in
      let rest =
        checks client left (attempt + 1)
          (some (StellarError.request client.horizon_url non_success)) (wait client attempt w') in
      if connected
      then (ok true, w')
      else if attempt + 1 == saturating_add_u32 client.retry.max_retries 1
      then (err (not_connected client last_error), w')
      else rest

  unfoldable pub check_connection_with_retry : StellarClient → World → StellarResult Bool × World
  unfolding checks
  check_connection_with_retry client w =
      checks client (saturating_add_u32 client.retry.max_retries 1) 0 none w
