-- ===== src/Limiter/Tests.antt =====
-- The off-chain limiter at concrete inputs.
use proof_stell_contract.Base.{
  ℕ, ◌+◌, ◌-◌, ◌*◌, ◌≤◌, ◌≡◌, ◌==◌, if◌then◌else◌, refl, sym, ap, ◌∙◌, arith, Bool, true, false,
  none, some, List, [], ◌∷◌,
}
use proof_stell_contract.Base.Assoc.{find, Unique}
use proof_stell_contract.Limiter.Bucket.{
  milli, pack, Quota, new, refilled, next_word, outcome, idle, try_consume, time_to_next_token,
  reset_at, last_seen, deterministic_jitter,
}
use proof_stell_contract.Limiter.Level.{Sane, report, left, try_consume-report}
use proof_stell_contract.Limiter.Clock.{serve, serve-bound, try_consume-time_to_next_token}
use proof_stell_contract.Limiter.Callers.{run, start, act, Replays}
use proof_stell_contract.Limiter.Callers.Linear.{Known, run-Replays}
use proof_stell_contract.Limiter.Issuers.{
  Issuer, issuer_eq, default_config, Buckets, Governor, PerIssuerRateLimiter, new_bucket,
  evict_stale,
}
use proof_stell_contract.Limiter.Alike.{Ordinary, Fills}
use proof_stell_contract.Limiter.Harmless.{answers, holding, evict_stale-harmless}
use mathlib.Core.Option.{some-injective}
use proof_stell_contract.Base.Assoc.{find-hit, find-miss}

-- Bursts of two, one token a second.
abbrev two : Quota
two = record { capacity_milli = 2000; refill_milli_per_sec = 1000; jitter_offset = 0 }

two-Sane : Sane two
two-Sane = record {
  capacity_low = omega arith;
  capacity_high = omega arith;
  rate_low = omega arith;
  rate_high = omega arith;
}

bucket : Unit {0}
unfolding new refilled next_word outcome idle try_consume time_to_next_token reset_at last_seen
    deterministic_jitter serve run act start
bucket = tt

new-two : new 2 1 0 (97 ∷ []) 50 ≡ (two, pack 50 2000)
unfolding bucket
new-two = refl

burst_then_wait : (serve two (50 ∷ 50 ∷ 50 ∷ 51 ∷ []) (pack 50 2000)) ≡ (3, pack 51 0)
unfolding bucket
burst_then_wait = refl

try_consume-report_example :
    try_consume two 51 (pack 50 500) ≡ (report two 51 50 500, pack 51 (left two 51 50 500))
try_consume-report_example =
    try_consume-report two 51 50 500 two-Sane (omega arith) (omega arith) (omega arith)

serve-bound_example :
    (serve two (50 ∷ 50 ∷ 51 ∷ []) (pack 50 2000)).0 * milli ≤ 2000 + (51 - 50) * 1000
serve-bound_example =
    serve-bound two (50 ∷ 50 ∷ 51 ∷ []) 50 2000 51 two-Sane (omega arith) (omega arith)
      (omega arith, (omega arith, (omega arith, omega arith)))

try_consume-time_to_next_token_example :
    (try_consume two (50 + time_to_next_token two 50 (pack 50 0)) (pack 50 0)).0.granted ≡ true
unfolding bucket
try_consume-time_to_next_token_example =
    try_consume-time_to_next_token two 50 50 0 two-Sane (omega arith) (omega arith) (omega arith)

-- Both callers load the same word; the first to swap wins, the second loads again.
abbrev race : List (ℕ × Bool)
race = (0, false) ∷ (1, false) ∷ (1, false) ∷ (0, false) ∷ (0, false) ∷ (0, false) ∷ []

run-Replays_example :
    Replays two
      (run two race (start (λ i. 50) (pack 50 1000))).log
      (pack 50 1000)
      (run two race (start (λ i. 50) (pack 50 1000))).word
    × Known
        (run two race (start (λ i. 50) (pack 50 1000))).callers
        (run two race (start (λ i. 50) (pack 50 1000))).log
run-Replays_example = run-Replays two (λ i. 50) (pack 50 1000) race

race_drains : (run two race (start (λ i. 50) (pack 50 1000))).word ≡ pack 50 0
unfolding bucket
race_drains = refl

-- A global tier that counts down.
abbrev countdown : Governor
countdown = record { Cells = ℕ; check = λ n. (if n == 0 then some 1 else none, n - 1) }

abbrev alice : Issuer
alice = 1 ∷ []

abbrev bob : Issuer
bob = 2 ∷ []

abbrev stale : Buckets
stale = (alice, ((new_bucket default_config alice 50).0, pack 50 0)) ∷ []

abbrev limiter : PerIssuerRateLimiter countdown
limiter = record { global = 5; buckets = stale; config = default_config }

stale-Unique : Unique issuer_eq stale
unfolding Unique find
stale-Unique = (refl, tt)

stale-Ordinary : Ordinary default_config 9000 stale
unfolding find new_bucket new
stale-Ordinary issuer b p = elim (issuer_eq issuer alice) [
  | yes q ↦ (
    50,
    0,
    some-injective _ _ (
        sym p
        ∙ find-hit issuer_eq issuer alice _ [] q
        ∙ ap (λ i. some ((new_bucket default_config i 50).0, pack 50 0)) (sym q)),
    omega arith,
    omega arith,
  )
  | no n ↦ absurd (cc (sym p ∙ find-miss issuer_eq issuer alice _ [] n))
]

default-Fills : Fills default_config 9000
unfolding new_bucket new
default-Fills issuer = omega arith

-- At the eviction and later: the bucket of `alice` is stale, `bob` has none.
abbrev requests : List (Issuer × ℕ)
requests = (alice, 9000) ∷ (bob, 9000) ∷ (alice, 9005) ∷ []

evict_stale-harmless_example :
    answers countdown requests (holding countdown (evict_stale default_config 9000 stale) limiter)
    ≡ answers countdown requests limiter
evict_stale-harmless_example =
    evict_stale-harmless countdown 9000 limiter requests stale-Unique stale-Ordinary default-Fills
      (omega arith)
      ((omega arith, omega arith), ((omega arith, omega arith), ((omega arith, omega arith), tt)))
