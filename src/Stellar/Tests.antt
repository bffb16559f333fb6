-- ===== src/Stellar/Tests.antt =====
-- The client of Horizon and its circuit breaker at concrete inputs.
use proof_stell_contract.Base.{
  ℕ, ◌+◌, ◌*◌, ◌/◌, ◌^◌, ◌≤◌, ◌≡◌, ◌⊎◌, ◌↔◌, refl, arith, leb, Bool, true, ◌&&◌, ℕ_discrete,
  list_eq, max, min, none, some, [], ◌∷◌,
}
use proof_stell_contract.Hash.Tools.{Outcome}
use proof_stell_contract.Hash.Canonical
use proof_stell_contract.Hash.Canonical.{CanonicalHash}
use proof_stell_contract.Hash.Tests.{plain, sample, canonical, new-sample}
use proof_stell_contract.Stellar.Errors.{
  CircuitState, StellarError, err, default_breaker, default_retry,
}
use proof_stell_contract.Stellar.Breaker.{CircuitBreaker, new, allow_call}
use proof_stell_contract.Stellar.Client.{
  VerificationStatus, HorizonTransaction, Answer, Horizon, StellarClient, capped_delay, memo_text,
}
use proof_stell_contract.Stellar.Answers.{read_answer}
use proof_stell_contract.Stellar.Verify.{pause, attempt_once, retry_delay, verify_hash, gave_up}
use proof_stell_contract.Stellar.Transitions.{
  Consistent, Event, step, new-Consistent, step-Consistent, TooEarly, NoPermit,
  allow_call-rejects_iff,
}
use proof_stell_contract.Stellar.Opens.{failures, failures-trip_iff}
use proof_stell_contract.Stellar.Accounts.{Balanced, new-Balanced, step-Balanced}
use proof_stell_contract.Stellar.Attempts.{counting, verify_hash-requests}
use proof_stell_contract.Stellar.Unreachable.{verify_hash-down}
use proof_stell_contract.Stellar.Confirmed.{Answered, Kept, verify_hash-confirmed}
use proof_stell_contract.Stellar.Delays.{capped_delay-doubles, Jittered, retry_delay-le}
use proof_stell_contract.Stellar.Floats.{Floats}
use native.Mathlib.Nat.{mul-le-mul_left, div-le_of_le-mul}
use proof_stell_contract.Stellar.Malformed.{Refused, verifications, verifications-open}

abbrev fresh : CircuitBreaker
fresh = new default_breaker

fresh-Consistent : Consistent fresh
fresh-Consistent = new-Consistent default_breaker (omega arith, omega arith)

step-Consistent_example : Consistent (step Event.success 10 fresh)
step-Consistent_example = step-Consistent Event.success 10 fresh fresh-Consistent

abbrev unreachable : StellarError
unreachable = StellarError.request [] []

abbrev tripped : CircuitBreaker
tripped = record fresh { state = CircuitState.open_circuit; opened_at = some 7 }

tripped-Consistent : Consistent tripped
unfolding new
tripped-Consistent = record {
  counts = (omega arith, omega arith);
  permits = refl;
  fields = (7, refl);
}

allow_call-rejects_iff_example :
    ((allow_call 10 tripped).0 ≡ err unreachable)
    ↔ (TooEarly 10 tripped unreachable ⊎ NoPermit tripped unreachable)
allow_call-rejects_iff_example =
    allow_call-rejects_iff 10 tripped unreachable tripped-Consistent.fields

failures-trip_iff_example :
    ((failures 5 10 unreachable fresh).state ≡ CircuitState.open_circuit)
    ↔ (max 5 1 ≤ 5 + fresh.consecutive_failures)
unfolding new
failures-trip_iff_example = failures-trip_iff 5 10 unreachable fresh fresh-Consistent refl

step-Balanced_example : Balanced (step (Event.failure unreachable) 10 fresh)
unfolding new
step-Balanced_example =
    step-Balanced (Event.failure unreachable) 10 fresh (new-Balanced default_breaker) (omega arith)

abbrev success : ℕ → Bool
success status = leb 200 status && leb status 299

abbrev memo_of_sample : HorizonTransaction
memo_of_sample = record {
  id = 1 ∷ [];
  created_at = none;
  memo = some sample;
  memo_type = some memo_text;
}

pub thousandths-mul : (x y : ℕ) → y ≤ 1000 → x * y / 1000 ≤ x
thousandths-mul x y l = let k = mul-le-mul_left x l in omega arith

-- Numbers with three places behind the point, rounded down.
abbrev thousandths : Floats
thousandths = record {
  F64 = ℕ;
  leq = λ x y. x ≤ y;
  lit = λ n. n * 1000;
  as_secs_f64 = λ d. d;
  mul = λ x y. x * y / 1000;
  div = λ x y. x * 1000 / y;
  round = λ x. (x + 500) / 1000;
  mul_le = λ x y l. thousandths-mul x y l;
  div_le = λ n m l p small. div-le_of_le-mul (m * 1000) (omega arith);
  round_le = λ x y l. omega arith;
  round_millis = λ d l. omega arith;
  round_half = λ x l. omega arith;
}

-- Horizon answers each request alike, and the clock stands still.
abbrev answering : Answer → Horizon
answering answer = record {
  World = Unit {0};
  get = λ url w. (answer, w);
  sleep = λ d w. w;
  acquire = λ w. (true, w);
  cached = λ hash w. (none, w);
  now = λ w. 1000;
  subsec_nanos = λ w. 0;
  gen_range = λ n w. (0, w);
  is_success = success;
  parse_from_rfc3339 = λ t. none;
  base64 = λ bytes. bytes;
  decimal = λ n. [];
  debug = λ s. [];
  subtle = plain;
  floats = thousandths;
  subsec_nanos_lt = λ w. omega arith;
  gen_range_lt = λ n w p. p;
}

abbrev pub silent : Horizon
silent = answering Answer.failed

abbrev matching : Horizon
matching = answering (Answer.response 200 (some (memo_of_sample ∷ [])))

abbrev client : StellarClient
client = record { horizon_url = []; max_retries = 3; retry = default_retry; stale_cache_ok = true }

verify_hash-requests_example : (verify_hash (counting silent) client sample (tt, 0)).1.1 ≤ 3 + 1
verify_hash-requests_example = verify_hash-requests silent client sample tt

verify_hash-down_example :
    ((verify_hash (counting silent) client sample (tt, 0)).0
      ≡ gave_up silent VerificationStatus.network_error none)
    × ((verify_hash (counting silent) client sample (tt, 0)).1.1 ≡ 3 + 1)
verify_hash-down_example =
    verify_hash-down silent client (λ url w. refl) (λ w. refl) sample canonical tt new-sample

finds_sample : (verify_hash matching client sample tt).0.status ≡ VerificationStatus.confirmed_match
unfolding verify_hash Canonical.new pause attempt_once read_answer list_eq ℕ_discrete
finds_sample = refl

verify_hash-confirmed_example :
    (Canonical.new plain sample ≡ Outcome.ok canonical)
    × (Answered matching client sample (verify_hash matching client sample tt).0
        ⊎ Kept matching sample (verify_hash matching client sample tt).0)
verify_hash-confirmed_example = verify_hash-confirmed matching client sample tt finds_sample

capped_delay-doubles_example : capped_delay default_retry 3 ≡ min (100 * 2 ^ min 3 31) 10000
capped_delay-doubles_example = capped_delay-doubles default_retry 3 (omega arith)

retry_delay-le_example :
    ((retry_delay silent default_retry 3 tt).0 ≤ 10000)
    × Jittered silent default_retry.jitter
        (capped_delay default_retry 3)
        (retry_delay silent default_retry 3 tt).0
retry_delay-le_example = retry_delay-le silent default_retry 3 tt (omega arith)

-- An upper-case digit makes a text no canonical hash.
upper-Refused : Refused silent (b'A' ∷ [])
unfolding Canonical.new
upper-Refused = refl

verifications-open_example :
    ((verifications silent client (b'A' ∷ []) upper-Refused 5 fresh tt).0.state
      ≡ CircuitState.open_circuit)
    × ((verifications silent client (b'A' ∷ []) upper-Refused 5 fresh tt).1 ≡ tt)
unfolding new
verifications-open_example =
    verifications-open silent client (b'A' ∷ []) upper-Refused 5 fresh tt fresh-Consistent refl
      (omega arith)
