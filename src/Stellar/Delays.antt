-- ===== src/Stellar/Delays.antt =====
-- src/stellar.rs, `retry_delay`: how long a retry waits.
use Prim.Native.Nat.{ℕ, ◌+◌, ◌*◌, ◌/◌, ◌^◌, max}
use proof_stell_contract.Base.{◌≤◌, ◌≡◌, refl, subst, arith, inl, inr, leb, min, Bool-cases}
use proof_stell_contract.Stellar.Errors.{RetryJitter, RetryPolicy}
use proof_stell_contract.Stellar.Client.{Horizon, duration_max, capped_delay}
use proof_stell_contract.Stellar.Verify.{
  retry_delay, jittered, jittered_delay_full, jittered_delay_equal, jittered_delay_decorrelated,
}
use proof_stell_contract.Base.Words.{as_u64, saturating_mul_u64}

-- The delay without its jitter doubles with each attempt, up to the configured maximum: the overflow
-- of the product is hidden by the cap.
pub capped_delay-doubles :
    (retry : RetryPolicy) (attempt : ℕ)
    → retry.max_delay ≤ duration_max
    → capped_delay retry attempt ≡ min (retry.base_delay * 2 ^ min attempt 31) retry.max_delay
unfolding capped_delay
capped_delay-doubles retry attempt l =
    elim (Bool-cases (leb (retry.base_delay * 2 ^ min attempt 31) duration_max)) [
      | inl p ↦ rw p refl
      | inr p ↦ rw p (ground arith)
    ]

capped_delay-le : (retry : RetryPolicy) (attempt : ℕ) → capped_delay retry attempt ≤ retry.max_delay
unfolding capped_delay
capped_delay-le retry attempt = omega arith

module _ (h : Horizon) where
  full-le : (d : ℕ) (w : h.World) → d ≤ 2 ^ 50 → jittered_delay_full h d w ≤ d
  unfolding jittered_delay_full
  full-le d w small =
      let f = h.floats in
      let l = h.subsec_nanos_lt w in
      let fraction =
        f.div_le (h.subsec_nanos w) 1000000000 (omega arith) (omega arith) (omega arith) in
      let le = f.round_le _ _ (f.mul_le (f.mul (f.as_secs_f64 d) (f.lit 1000)) _ fraction) in
      subst (λ n. jittered_delay_full h d w ≤ n) (f.round_millis d small) le

  equal-half : (d : ℕ) → d ≤ 2 ^ 50 → 2 * jittered_delay_equal h d ≤ d + 1
  unfolding jittered_delay_equal
  equal-half d small =
      let f = h.floats in
      let same = f.round_millis d small in
      let half = f.round_half (f.mul (f.as_secs_f64 d) (f.lit 1000)) (omega arith) in omega arith

  decorrelated-le :
      (d : ℕ) (w : h.World) → d ≤ 2 ^ 50 → 4 * (jittered_delay_decorrelated h d w).0 ≤ 3 * d
  unfolding jittered_delay_decorrelated
  decorrelated-le d w small =
      let l = h.gen_range_lt (max (saturating_mul_u64 (as_u64 d) 3 / 4) 1) w (omega arith) in
      omega arith

  -- How much of a delay each jitter may leave.
  unfoldable pub Jittered : RetryJitter → ℕ → ℕ → Type 0
  Jittered RetryJitter.no_jitter d left = left ≡ d
  Jittered RetryJitter.full d left = left ≤ d
  Jittered RetryJitter.equal d left = 2 * left ≤ d + 1
  Jittered RetryJitter.decorrelated d left = 4 * left ≤ 3 * d

  jittered-Jittered :
      (jitter : RetryJitter) (d : ℕ) (w : h.World)
      → d ≤ 2 ^ 50
      → Jittered jitter d (jittered h jitter d w).0 × ((jittered h jitter d w).0 ≤ d)
  unfolding jittered Jittered
  jittered-Jittered RetryJitter.no_jitter d w small = (refl, omega arith)
  jittered-Jittered RetryJitter.full d w small = let l = full-le d w small in (l, l)
  jittered-Jittered RetryJitter.equal d w small = let l = equal-half d small in (l, omega arith)
  jittered-Jittered RetryJitter.decorrelated d w small =
      let l = decorrelated-le d w small in (l, omega arith)

  -- No retry waits longer than the configured maximum, where that is at most 2 ^ 50 milliseconds. Without
  -- a jitter it waits the capped delay, with a full one at most that, with an equal one half of it,
  -- rounded up at most, and with a decorrelated one at most three quarters.
  pub retry_delay-le :
      (retry : RetryPolicy) (attempt : ℕ) (w : h.World)
      → retry.max_delay ≤ 2 ^ 50
      → ((retry_delay h retry attempt w).0 ≤ retry.max_delay)
        × Jittered retry.jitter (capped_delay retry attempt) (retry_delay h retry attempt w).0
  unfolding retry_delay
  retry_delay-le retry attempt w small =
      let cap = capped_delay-le retry attempt in
      let (fits, below) =
        jittered-Jittered retry.jitter (capped_delay retry attempt) w (omega arith) in
      (omega (arith, below, cap), fits)
