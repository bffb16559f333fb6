-- ===== src/Limiter/Level.antt =====
-- src/rate_limit.rs, `AtomicTokenBucket`: the packed word as a level of tokens at a time, and
-- `try_consume` as the step of a plain token bucket on levels.
use proof_stell_contract.Base.{
  ℕ, ◌+◌, ◌-◌, ◌*◌, ◌/◌, ◌%◌, ◌^◌, ◌==◌, ltb, leb, min, if◌then◌else◌, ◌<◌, ◌≤◌, ◌≡◌, ◌&&◌, refl,
  ap, ◌∙◌, arith, Bool-cases, ℕ_discrete, inl, inr, false, List,
}
use proof_stell_contract.Base.Words.{u32_max}
use proof_stell_contract.Limiter.Bucket.{
  milli, pack, unpack, Quota, new, refilled, next_word, outcome, idle, idle_outcome, try_consume,
  ConsumeOutcome,
}

-- Both halves of a packed word come back.
pub unpack-pack :
    (secs tokens : ℕ) → secs < 2 ^ 32 → tokens < 2 ^ 32 → unpack (pack secs tokens) ≡ (secs, tokens)
unpack-pack secs tokens p q =
    let a : (pack secs tokens / 2 ^ 32) % 2 ^ 32 ≡ secs = omega arith in
    let b : pack secs tokens % 2 ^ 32 ≡ tokens = omega arith in rw (a, b) refl

-- What `new` builds.
pub record Sane (b : Quota) : Type 0 where
  pub capacity_low : milli ≤ b.capacity_milli
  pub capacity_high : b.capacity_milli ≤ u32_max
  pub rate_low : milli ≤ b.refill_milli_per_sec
  pub rate_high : b.refill_milli_per_sec ≤ u32_max

pub new-Sane :
    (burst per_second jitter : ℕ) (issuer : List ℕ) (now : ℕ)
    → Sane (new burst per_second jitter issuer now).0
unfolding new
new-Sane burst per_second jitter issuer now = record {
  capacity_low = omega arith;
  capacity_high = omega arith;
  rate_low = omega arith;
  rate_high = omega arith;
}

-- The tokens of a plain bucket at `now`.
unfoldable pub level : Quota → ℕ → ℕ → ℕ → ℕ
level b now last tokens = min (tokens + (now - last) * b.refill_milli_per_sec) b.capacity_milli

mul_small : (a b : ℕ) → a ≤ u32_max → b ≤ u32_max → a * b ≤ u32_max * u32_max
mul_small a b p q = grind arith

-- On 32-bit clocks nothing saturates or wraps in a refill.
pub refilled-level :
    (b : Quota) (now last tokens : ℕ)
    → Sane b
    → now < 2 ^ 32
    → tokens ≤ b.capacity_milli
    → refilled b tokens last now ≡ level b now last tokens
unfolding refilled level
refilled-level b now last tokens s small le =
    let h = mul_small (now - last) b.refill_milli_per_sec (omega arith) s.rate_high in
    let c = s.capacity_high in omega arith

-- The tokens that a call leaves, and what it reports.
unfoldable pub left : Quota → ℕ → ℕ → ℕ → ℕ
left b now last tokens = let t = level b now last tokens in if leb milli t then t - milli else t

unfoldable pub report : Quota → ℕ → ℕ → ℕ → ConsumeOutcome
report b now last tokens =
    let t = level b now last tokens in
    record { granted = leb milli t; refilled_milli = t - tokens; reset = (tokens == 0) && ltb 0 t }

level-le-capacity : (b : Quota) (now last tokens : ℕ) → level b now last tokens ≤ b.capacity_milli
unfolding level
level-le-capacity b now last tokens = omega arith

sub_self : (n : ℕ) → n - n ≡ 0
sub_self n = omega arith

not_both : (n : ℕ) → (n == 0) && ltb 0 n ≡ false
not_both n = ground arith

no_store-same :
    (o : ConsumeOutcome) (cur nxt : ℕ)
    → (o.granted ≡ false → cur ≡ nxt → o ≡ idle_outcome)
    → ◌≡◌ {A = ConsumeOutcome × ℕ}
        (if (if o.granted then false else cur == nxt) then (idle_outcome, cur) else (o, nxt))
        (o, nxt)
no_store-same o cur nxt h = elim (Bool-cases o.granted) [
  | inl p ↦ rw p refl
  | inr p ↦ elim (ℕ_discrete cur nxt) [
    | yes q ↦ rw (h p q, q) (ground arith)
    | no n ↦ rw p (ground arith)
  ]
]

module _ (b : Quota) (now last tokens : ℕ) (s : Sane b) (small : now < 2 ^ 32) (old : last < 2 ^ 32)
    (le : tokens ≤ b.capacity_milli) where
  halves : unpack (pack last tokens) ≡ (last, tokens)
  halves = let c = s.capacity_high in unpack-pack last tokens old (omega arith)

  pub at_level :
      refilled b (unpack (pack last tokens)).1 (unpack (pack last tokens)).0 now
      ≡ level b now last tokens
  at_level = ap (λ x. refilled b x.1 x.0 now) halves ∙ refilled-level b now last tokens s small le

  now_fits : now % 2 ^ 32 ≡ now
  now_fits = omega arith

  outcome-report : outcome b now (pack last tokens) ≡ report b now last tokens
  unfolding outcome report
  outcome-report = rw (at_level, ap (λ x. x.1) halves) refl

  next_word-left : next_word b now (pack last tokens) ≡ pack now (left b now last tokens)
  unfolding next_word left
  next_word-left = rw (at_level, now_fits) (ground arith)

  still :
      now ≡ last
      → level b now last tokens ≡ tokens
      → leb milli (level b now last tokens) ≡ false
      → report b now last tokens ≡ idle_outcome
  unfolding report
  still p q r = rw (r, q, sub_self tokens, not_both tokens) refl

  word_now :
      (report b now last tokens).granted ≡ false
      → pack last tokens ≡ pack now (left b now last tokens)
      → report b now last tokens ≡ idle_outcome
  unfolding left report
  word_now r p =
      let h : left b now last tokens ≡ level b now last tokens = rw r refl in
      let c = s.capacity_high in
      let d = level-le-capacity b now last tokens in still (omega arith) (omega arith) r

  -- A call of `try_consume` that no other one interleaves with takes and reports what the plain bucket
  -- does, when the bucket is one that `new` builds, holds at most its capacity, and both times are
  -- below 2 ^ 32: nothing saturates, wraps or is cut off.
  pub try_consume-report :
      try_consume b now (pack last tokens)
      ≡ (report b now last tokens, pack now (left b now last tokens))
  unfolding try_consume idle
  try_consume-report =
      rw (outcome-report, next_word-left)
        (no_store-same (report b now last tokens) (pack last tokens) _ word_now)
