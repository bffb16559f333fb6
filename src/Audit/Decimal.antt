-- ===== src/Audit/Decimal.antt =====
-- Decimal numerals as the bytes of their digits, as `format!` prints an unsigned integer, and texts that
-- are joined with colons.
use native.Mathlib.Numerals.{unary_clauses}
use proof_stell_contract.Base.{
  ℕ, zero, suc, ◌+◌, ◌-◌, ◌*◌, ◌/◌, ◌%◌, ◌^◌, ◌<◌, ◌≡◌, ◌≢◌, refl, sym, ap, ◌∙◌, arith, ltb,
  if◌then◌else◌, if_both, dec_lt, true, false, List, [], ◌∷◌, ◌++◌,
}

-- The digits of a number with at most as many digits as the fuel, before those in `behind`.
unfoldable pub show_before : ℕ → ℕ → List ℕ → List ℕ
show_before zero n behind = behind
show_before (suc fuel) n behind =
    let digit = b'0' + n % 10 in
    let more = show_before fuel (n / 10) (digit ∷ behind) in
    if ltb n 10 then digit ∷ behind else more

-- A `u64` has at most 20 digits.
abbrev pub show : ℕ → List ℕ
show n = show_before 20 n []

unfoldable pub value_from : ℕ → List ℕ → ℕ
value_from v [] = v
value_from v (c ∷ cs) = value_from (v * 10 + (c - b'0')) cs

div-lt : (n fuel : ℕ) → n < 10 ^ suc fuel → n / 10 < 10 ^ fuel
div-lt n fuel h = let h' = simp unary_clauses at h in omega arith

value_from-show_before :
    (fuel n : ℕ) (behind : List ℕ)
    → n < 10 ^ fuel
    → value_from 0 (show_before fuel n behind) ≡ value_from n behind
unfolding show_before value_from
value_from-show_before zero n behind h = let e : n ≡ 0 = omega arith in rw e refl
value_from-show_before (suc fuel) n behind h =
    let d : n / 10 * 10 + (b'0' + n % 10 - b'0') ≡ n = omega arith in
    elim (dec_lt n 10) [
      | yes l ↦
          let s : 0 * 10 + (b'0' + n % 10 - b'0') ≡ n = omega arith in
          let q : ltb n 10 ≡ true = ground arith in rw q (ap (λ v. value_from v behind) s)
      | no l ↦
          let q : ltb n 10 ≡ false = ground arith in
          rw q (
            value_from-show_before fuel (n / 10) _ (div-lt n fuel h)
            ∙ ap (λ v. value_from v behind) d)
    ]

pub show-injective : (n m : ℕ) → n < 2 ^ 64 → m < 2 ^ 64 → show n ≡ show m → n ≡ m
unfolding value_from
show-injective n m h k p =
    sym (value_from-show_before 20 n [] (omega arith))
    ∙ ap (value_from 0) p
    ∙ value_from-show_before 20 m [] (omega arith)

abbrev pub colon : ℕ
colon = b':'

unfoldable pub NoColon : List ℕ → Type 0
NoColon [] = Unit
NoColon (c ∷ cs) = (c ≢ colon) × NoColon cs

show_before-NoColon :
    (fuel n : ℕ) (behind : List ℕ) → NoColon behind → NoColon (show_before fuel n behind)
unfolding show_before NoColon
show_before-NoColon zero n behind h = h
show_before-NoColon (suc fuel) n behind h =
    if_both NoColon (ltb n 10) _ _ (digit n, h) (show_before-NoColon fuel (n / 10) _ (digit n, h))
  where
    digit : (n : ℕ) → b'0' + n % 10 ≢ colon
    digit n p = omega arith

pub show-NoColon : (n : ℕ) → NoColon (show n)
unfolding NoColon
show-NoColon n = show_before-NoColon 20 n [] tt

pub split_at_colon :
    (a b x y : List ℕ)
    → NoColon a
    → NoColon b
    → a ++ (colon ∷ x) ≡ b ++ (colon ∷ y)
    → (a ≡ b) × (x ≡ y)
unfolding NoColon
split_at_colon [] [] x y h k p = (refl, cc p)
split_at_colon [] (c ∷ cs) x y h (n, k) p = absurd (n (sym (cc p)))
split_at_colon (c ∷ cs) [] x y (n, h) k p = absurd (n (cc p))
split_at_colon (c ∷ cs) (e ∷ es) x y (n, h) (m, k) p =
    let (q, r) = split_at_colon cs es x y h k (cc p) in (cc (p, q), r)
