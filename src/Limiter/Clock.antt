-- ===== src/Limiter/Clock.antt =====
-- src/rate_limit.rs, `AtomicTokenBucket`: how many calls a bucket grants, on a clock that does not go
-- back and on one that does, and when the next is granted.
use proof_stell_contract.Base.{
  ℕ, zero, suc, ◌+◌, ◌-◌, ◌*◌, ◌^◌, ◌==◌, leb, min, max, if◌then◌else◌, ◌<◌, ◌≤◌, ◌≡◌, refl, ap,
  ◌∙◌, ◌⊎◌, arith, le→leb, Bool-cases, ℕ_discrete, inl, inr, true, false, List, [], ◌∷◌,
}
use native.Mathlib.Nat.{mod-eq_of_lt, div-eq_of_lt, mod_self, div_self}
use proof_stell_contract.Limiter.Bucket.{
  milli, pack, Quota, ConsumeOutcome, try_consume, time_to_next_token, div_ceil,
}
use proof_stell_contract.Limiter.Level.{Sane, level, left, report, try_consume-report, at_level}

abbrev pub count : ConsumeOutcome → ℕ
count o = if o.granted then 1 else 0

-- One call after the other, each with the second that its caller read.
unfoldable pub serve : Quota → List ℕ → ℕ → ℕ × ℕ
serve b [] word = (0, word)
serve b (now ∷ later) word =
    let (o, next) = try_consume b now word in
    let (n, final) = serve b later next in (count o + n, final)

-- The times are in order, from `s` to at most `t`.
abbrev pub Ordered : ℕ → List ℕ → ℕ → Type 0
Ordered s [] t = s ≤ t
Ordered s (now ∷ later) t = (s ≤ now) × Ordered now later t

Ordered-le : (s : ℕ) (times : List ℕ) (t : ℕ) → Ordered s times t → s ≤ t
Ordered-le s [] t h = h
Ordered-le s (now ∷ later) t (p, h) = omega (arith, Ordered-le now later t h)

-- A call pays for what it grants from the tokens and the refill.
left-pays :
    (b : Quota) (now last tokens : ℕ)
    → count (report b now last tokens) * milli + left b now last tokens
      ≤ tokens + (now - last) * b.refill_milli_per_sec
unfolding left level report
left-pays b now last tokens = ground arith

left-le-capacity : (b : Quota) (now last tokens : ℕ) → left b now last tokens ≤ b.capacity_milli
unfolding left level
left-le-capacity b now last tokens = ground arith

span : (s t u rate : ℕ) → s ≤ t → t ≤ u → (t - s) * rate + (u - t) * rate ≡ (u - s) * rate
span s t u rate p q = let h : u - s ≡ (t - s) + (u - t) = omega arith in rw h (omega arith)

-- On times in order and below 2 ^ 32, a bucket with the limits of one that `new` builds and at most its
-- capacity of tokens grants no more calls than its tokens and the refill of the time from its last
-- refill to the end pay for.
pub serve-bound :
    (b : Quota) (times : List ℕ) (last tokens t : ℕ)
    → Sane b
    → t < 2 ^ 32
    → tokens ≤ b.capacity_milli
    → Ordered last times t
    → (serve b times (pack last tokens)).0 * milli ≤ tokens + (t - last) * b.refill_milli_per_sec
unfolding serve
serve-bound b [] last tokens t s small le h = omega arith
serve-bound b (now ∷ later) last tokens t s small le (p, h) =
    let before = Ordered-le now later t h in
    let rest =
      serve-bound b later now (left b now last tokens) t s small
        (left-le-capacity b now last tokens) h in
    let run = try_consume-report b now last tokens s (omega arith) (omega arith) le in
    let pays = left-pays b now last tokens in
    let total = span last now t b.refill_milli_per_sec p before in rw run (omega arith)

abbrev pub alternating : ℕ → ℕ → List ℕ
alternating t zero = []
alternating t (suc n) = suc t ∷ t ∷ alternating t n

tick_up :
    (b : Quota) (t : ℕ)
    → Sane b
    → b.refill_milli_per_sec ≡ milli
    → (left b (suc t) t 0 ≡ 0) × (count (report b (suc t) t 0) ≡ 1)
unfolding left level report
tick_up b t s one =
    let c = s.capacity_low in
    let z : suc t - t ≡ 1 = omega arith in
    let h : min (0 + 1 * b.refill_milli_per_sec) b.capacity_milli ≡ milli = omega arith in
    rw (z, h) (refl, refl)

tick_down : (b : Quota) (t : ℕ) → (left b t (suc t) 0 ≡ 0) × (count (report b t (suc t) 0) ≡ 0)
unfolding left level report
tick_down b t =
    let z : t - suc t ≡ 0 = omega arith in
    let h : min (0 + 0 * b.refill_milli_per_sec) b.capacity_milli ≡ 0 = omega arith in
    rw (z, h) (refl, refl)

-- Callers that read the clock just before and just after a tick, and reach the bucket in turns, are
-- granted one call each round from an empty bucket of one token a second, without end, with limits as
-- `new` builds them and both seconds below 2 ^ 32.
pub serve-alternating :
    (b : Quota) (t n : ℕ)
    → Sane b
    → b.refill_milli_per_sec ≡ milli
    → suc t < 2 ^ 32
    → serve b (alternating t n) (pack t 0) ≡ (n, pack t 0)
unfolding serve
serve-alternating b t zero s one small = refl
serve-alternating b t (suc n) s one small =
    let up = try_consume-report b (suc t) t 0 s small (omega arith) (omega arith) in
    let down = try_consume-report b t (suc t) 0 s (omega arith) small (omega arith) in
    let (up_left, up_count) = tick_up b t s one in
    let (down_left, down_count) = tick_down b t in
    rw (up, up_left, down, down_left, up_count, down_count, serve-alternating b t n s one small)
      (ap (λ k. (k, pack t 0)) (omega arith))

next_level :
    (b : Quota) (now last tokens : ℕ) → Sane b → last ≤ now → milli ≤ level b (suc now) last tokens
unfolding level
next_level b now last tokens s p =
    let c = s.capacity_low in
    let r = s.rate_low in
    let h : (suc now - last) * b.refill_milli_per_sec
        ≡ (now - last) * b.refill_milli_per_sec + b.refill_milli_per_sec =
      let e : suc now - last ≡ (now - last) + 1 = omega arith in rw e (omega arith) in
    omega arith

rate_ne_zero : (b : Quota) → Sane b → (b.refill_milli_per_sec == 0) ≡ false
rate_ne_zero b s = let r = s.rate_low in ground arith

div_ceil_small : (a d : ℕ) → a ≤ d → 0 < d → max (div_ceil a d) 1 ≡ 1
div_ceil_small a d p q = elim (ℕ_discrete a d) [
  | yes e ↦ rw (e, mod_self d, div_self q) (omega arith)
  | no n ↦
      let l : a < d = omega arith in
      elim (ℕ_discrete a 0) [
        | yes z ↦ rw (mod-eq_of_lt l, z, div-eq_of_lt q) (omega arith)
        | no m ↦
            let w : (a == 0) ≡ false = ground arith in
            rw (mod-eq_of_lt l, div-eq_of_lt l, w) (omega arith)
      ]
]

wait_cases :
    (b : Quota) (now last tokens : ℕ)
    → Sane b
    → now < 2 ^ 32
    → last < 2 ^ 32
    → tokens ≤ b.capacity_milli
    → ((time_to_next_token b now (pack last tokens) ≡ 0)
        × (leb milli (level b now last tokens) ≡ true))
      ⊎ (time_to_next_token b now (pack last tokens) ≡ 1)
unfolding time_to_next_token
wait_cases b now last tokens s small old le =
    let r = s.rate_low in
    elim (Bool-cases (leb milli (level b now last tokens))) [
      | inl p ↦ inl (rw (at_level b now last tokens s small old le, p) (refl, refl))
      | inr p ↦ inr (
          rw (at_level b now last tokens s small old le, p, rate_ne_zero b s)
            (div_ceil_small _ _ (omega arith) (omega arith)))
    ]

-- A caller that waits as long as `time_to_next_token` says, at a bucket that no other touches, is
-- granted the call, when the bucket has limits as `new` builds them and at most its capacity of tokens,
-- and the clock is not behind the bucket's and below 2 ^ 32 at the end of the wait.
pub try_consume-time_to_next_token :
    (b : Quota) (now last tokens : ℕ)
    → Sane b
    → last ≤ now
    → tokens ≤ b.capacity_milli
    → now + time_to_next_token b now (pack last tokens) < 2 ^ 32
    → (try_consume b
        (now + time_to_next_token b now (pack last tokens))
        (pack last tokens)).0.granted
      ≡ true
unfolding report
try_consume-time_to_next_token b now last tokens s p le fits =
    let small : now < 2 ^ 32 = omega arith in
    elim (wait_cases b now last tokens s small (omega arith) le) [
      | inl (z, enough) ↦
          let e : now + time_to_next_token b now (pack last tokens) ≡ now = omega arith in
          rw e (granted_at now small enough)
      | inr one ↦
          let e : now + time_to_next_token b now (pack last tokens) ≡ suc now = omega arith in
          let fits' : suc now < 2 ^ 32 = omega arith in
          rw e (granted_at (suc now) fits' (le→leb _ _ (next_level b now last tokens s p)))
    ]
  where
    granted_at :
        (at : ℕ)
        → at < 2 ^ 32
        → leb milli (level b at last tokens) ≡ true
        → (try_consume b at (pack last tokens)).0.granted ≡ true
    granted_at at h enough =
        ap (λ x. x.0.granted) (try_consume-report b at last tokens s h (omega arith) le) ∙ enough
