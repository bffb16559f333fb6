-- ===== src/Stellar/Floats.antt =====
-- The type `f64` of the language, as src/stellar.rs uses it for its jitters.
use proof_stell_contract.Base.{ℕ, ◌+◌, ◌*◌, ◌^◌, ◌<◌, ◌≤◌, ◌≡◌}

-- The finite floats that are not negative, with their order. `lit` is an integer below 2 ^ 53,
-- `as_secs_f64` is that of a duration in milliseconds, and `round` is `round() as u64`. The laws are
-- those of IEEE 754: a factor of at most 1 makes no product larger, nor a quotient of integers larger
-- than 1 where the dividend is not the larger one; rounding to an integer keeps the order; seconds
-- made to milliseconds again round to the number that they were made of, as long as their error is
-- below a half; and halving is exact.
pub record Floats : Type 1 where
  pub F64 : Type 0
  pub leq : F64 → F64 → Type 0
  pub lit : ℕ → F64
  pub as_secs_f64 : ℕ → F64
  pub mul : F64 → F64 → F64
  pub div : F64 → F64 → F64
  pub round : F64 → ℕ
  pub mul_le : (x y : F64) → leq y (lit 1) → leq (mul x y) x
  pub div_le : (n m : ℕ) → n ≤ m → 0 < m → m ≤ 2 ^ 53 → leq (div (lit n) (lit m)) (lit 1)
  pub round_le : (x y : F64) → leq x y → round x ≤ round y
  pub round_millis : (d : ℕ) → d ≤ 2 ^ 50 → round (mul (as_secs_f64 d) (lit 1000)) ≡ d
  pub round_half : (x : F64) → round x ≤ 2 ^ 50 → 2 * round (div x (lit 2)) ≤ round x + 1
