-- ===== src/Stellar/Client.antt =====
-- src/stellar.rs, `StellarClient`: one verification of a hash, with its retries. Horizon, the clock,
-- the queue before the requests, the cache and the crates are parameters; the metrics are left out.
use proof_stell_contract.Base.{
  ℕ, ◌+◌, ◌*◌, ◌^◌, ◌<◌, ◌==◌, leb, min, if◌then◌else◌, Bool, true, false, ◌&&◌, ◌||◌, Option, none,
  some, holds, List, [], ◌∷◌, map, ℕ_discrete, list_eq,
}
use proof_stell_contract.Base.Words.{u64_max}
use proof_stell_contract.Base.Int.{ℤ}
use proof_stell_contract.Hash.Tools.{Text, Outcome, Subtle, to_lowercase}
use proof_stell_contract.Stellar.Errors.{RetryPolicy}
use proof_stell_contract.Stellar.Floats.{Floats}

pub data VerificationStatus : Type 0 where
  confirmed_match : VerificationStatus
  no_match : VerificationStatus
  network_error : VerificationStatus
  malformed_response : VerificationStatus

pub record VerificationResult : Type 0 where
  pub status : VerificationStatus
  pub transaction_id : Option Text
  pub timestamp : Option ℤ
  pub last_http_status : Option ℕ

abbrev pub verified : VerificationStatus → Bool
verified VerificationStatus.confirmed_match = true
verified _ = false

pub record TransactionRecord : Type 0 where
  pub transaction_id : Text
  pub timestamp : ℤ
  pub verified : Bool

pub record HorizonTransaction : Type 0 where
  pub id : Text
  pub created_at : Option Text
  pub memo : Option Text
  pub memo_type : Option Text

-- A request fails, or gives a status and a body. The body is read as JSON: `none` is an error.
pub data Answer : Type 0 where
  failed : Answer
  response : ℕ → Option (List HorizonTransaction) → Answer

-- `acquire` is whether the bulkhead let a request pass within 500 ms. `cached` is what the cache, if
-- there is one, holds for a hash, read as JSON. `subsec_nanos` are the nanoseconds within the second,
-- and `gen_range` is a number below its first argument.
pub record Horizon : Type 1 where
  pub World : Type 0
  pub get : Text → World → Answer × World
  pub sleep : ℕ → World → World
  pub acquire : World → Bool × World
  pub cached : Text → World → Option VerificationResult × World
  pub now : World → ℕ
  pub subsec_nanos : World → ℕ
  pub gen_range : ℕ → World → ℕ × World
  pub is_success : ℕ → Bool
  pub parse_from_rfc3339 : Text → Option ℤ
  pub base64 : List ℕ → Text
  pub decimal : ℕ → Text
  pub debug : VerificationStatus → Text
  pub subtle : Subtle
  pub floats : Floats
  pub subsec_nanos_lt : (w : World) → subsec_nanos w < 1000000000
  pub gen_range_lt : (n : ℕ) (w : World) → 0 < n → (gen_range n w).0 < n

pub record StellarClient : Type 0 where
  pub horizon_url : Text
  pub max_retries : ℕ
  pub retry : RetryPolicy
  pub stale_cache_ok : Bool

-- `Duration::MAX`, in whole milliseconds.
abbrev pub duration_max : ℕ
duration_max = u64_max * 1000 + 999

unfoldable pub capped_delay : RetryPolicy → ℕ → ℕ
capped_delay retry attempt =
    let multiplier = 2 ^ min attempt 31 in
    let product = retry.base_delay * multiplier in
    let exponential = if leb product duration_max then product else retry.max_delay in
    min exponential retry.max_delay

unfoldable pub is_retryable_status : ℕ → Bool
is_retryable_status status =
    (status == 408) || (status == 429) || (leb 500 status && leb status 599)

-- `eq_ignore_ascii_case`
abbrev pub same_text : Text → Text → Bool
same_text a b = holds (list_eq ℕ_discrete a b)

abbrev pub eq_ignore_ascii_case : Text → Text → Bool
eq_ignore_ascii_case a b = same_text (map to_lowercase a) (map to_lowercase b)

-- `text` and `hash`
abbrev pub memo_text : Text
memo_text = 116 ∷ 101 ∷ 120 ∷ 116 ∷ []

abbrev pub memo_hash : Text
memo_hash = 104 ∷ 97 ∷ 115 ∷ 104 ∷ []

-- `.ok()`
abbrev pub to_option {ℓ} : {A : Type ℓ} → Outcome A → Option A
to_option (Outcome.ok a) = some a
to_option _ = none

abbrev pub equals : Text → Option Text → Bool
equals memo none = false
equals memo (some text) = same_text text memo

-- `/transactions?memo=`
abbrev pub query : Text
query =
    47 ∷ 116 ∷ 114 ∷ 97 ∷ 110 ∷ 115 ∷ 97 ∷ 99 ∷ 116 ∷ 105 ∷ 111 ∷ 110 ∷ 115 ∷ 63 ∷ 109 ∷ 101 ∷ 109
    ∷ 111 ∷ 61 ∷ []

-- What an attempt leads to: a return, another attempt, or the end of the loop.
pub data Flow : Type 0 where
  return_with : VerificationResult → Flow
  again : VerificationStatus → Option ℕ → Flow
  stop : VerificationStatus → Option ℕ → Flow
