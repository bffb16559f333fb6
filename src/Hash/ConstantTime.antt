-- ===== src/Hash/ConstantTime.antt =====
-- src/hash_validator.rs: validation in constant time, against the scan.
use proof_stell_contract.Base.{
  ℕ, suc, ◌+◌, ◌≡◌, ◌≢◌, refl, sym, ap, ◌∙◌, arith, inl, inr, ◌==◌, true, false, not, Bool-cases,
  ℕ_discrete, if◌then◌else◌, some, [], ◌∷◌, length, All,
}
use proof_stell_contract.Hash.Tools.{Text, ValidationError, ok, err, Subtle, is_hex}
use proof_stell_contract.Hash.Validator.{
  normalize, as_u8, mask, position, index, validate_with_length_constant_time, scan,
  validate_with_length, all_hex,
}
use proof_stell_contract.Hash.Ascii.{IsAscii, chars-Ascii, normalize-Ascii}

mask_zero : (bytes : Text) → mask 0 bytes ≡ 0
unfolding mask
mask_zero [] = refl
mask_zero (b ∷ bytes) = elim (Bool-cases (is_hex b)) [
  | inl p ↦ rw p (mask_zero bytes)
  | inr p ↦ rw p (mask_zero bytes)
]

mask_one : (bytes : Text) → mask 1 bytes ≡ as_u8 (all_hex bytes)
unfolding mask all_hex
mask_one [] = refl
mask_one (b ∷ bytes) = elim (Bool-cases (is_hex b)) [
  | inl p ↦ rw p (mask_one bytes)
  | inr p ↦ rw p (mask_zero bytes)
]

mask_start : (b : ℕ) (bytes : Text) → mask 0xFF (b ∷ bytes) ≡ as_u8 (all_hex (b ∷ bytes))
unfolding mask all_hex
mask_start b bytes = elim (Bool-cases (is_hex b)) [
  | inl p ↦ rw p (mask_one bytes)
  | inr p ↦ rw p (mask_zero bytes)
]

pub scan-all_hex : (k : ℕ) (bytes : Text) → all_hex bytes ≡ true → scan k bytes ≡ ok tt
unfolding scan all_hex
scan-all_hex k [] h = refl
scan-all_hex k (b ∷ bytes) h = ground (arith, scan-all_hex (suc k) bytes)

-- The scan names the first byte that is not a digit, the one that `position` finds.
abbrev Names : ℕ → Text → Type 0
Names k bytes =
    (i c : ℕ) × (position (λ b. not (is_hex b)) bytes ≡ some i)
    × (index bytes i ≡ ok c)
    × (scan k bytes ≡ err (ValidationError.invalid_character (k + i) c))

scan-Names : (k : ℕ) (bytes : Text) → all_hex bytes ≡ false → Names k bytes
unfolding scan all_hex position index
scan-Names k [] h = cc
scan-Names k (b ∷ bytes) h = elim (Bool-cases (is_hex b)) [
  | inr p ↦
      (0, b, rw p, refl, rw p (ap (λ n. err (ValidationError.invalid_character n b)) (omega arith)))
  | inl p ↦
      let (i, c, at, found, named) = scan-Names (suc k) bytes (ground arith) in
      (suc i, c, ground arith, found, ground arith)
]

module _ (subtle : Subtle) where
  usize_eq_same : (a b : ℕ) → a ≡ b → subtle.usize_eq a b ≡ true
  usize_eq_same a b p = (subtle.usize_eq_iff a b).1 p

  usize_eq_other : (a b : ℕ) → a ≢ b → subtle.usize_eq a b ≡ false
  usize_eq_other a b n = elim (Bool-cases (subtle.usize_eq a b)) [
    | inl p ↦ absurd (n ((subtle.usize_eq_iff a b).0 p))
    | inr p ↦ p
  ]

  choice-mask : (b : ℕ) (bytes : Text) → subtle.choice (mask 0xFF (b ∷ bytes)) ≡ all_hex (b ∷ bytes)
  choice-mask b bytes = elim (Bool-cases (all_hex (b ∷ bytes))) [
    | inl p ↦ ap subtle.choice (mask_start b bytes ∙ ap as_u8 p) ∙ subtle.choice_one ∙ sym p
    | inr p ↦ ap subtle.choice (mask_start b bytes ∙ ap as_u8 p) ∙ subtle.choice_zero ∙ sym p
  ]

  pub constant_time-empty :
      (n : ℕ) → validate_with_length_constant_time subtle [] n ≡ err ValidationError.empty_hash
  unfolding validate_with_length_constant_time
  constant_time-empty n = rw (usize_eq_same 0 0 refl)

  pub constant_time-length :
      (b : ℕ) (bytes : Text) (n : ℕ)
      → n ≢ suc (length bytes)
      → validate_with_length_constant_time subtle (b ∷ bytes) n
        ≡ err (ValidationError.wrong_length n (suc (length bytes)))
  unfolding validate_with_length_constant_time
  constant_time-length b bytes n ne =
      rw (usize_eq_other 0 (suc (length bytes)) (λ p. absurd (omega arith)))
        (rw (usize_eq_other n (suc (length bytes)) ne))

  pub constant_time-scan :
      (b : ℕ) (bytes : Text)
      → validate_with_length_constant_time subtle (b ∷ bytes) (suc (length bytes))
        ≡ scan 0 (b ∷ bytes)
  unfolding validate_with_length_constant_time
  constant_time-scan b bytes =
      rw (usize_eq_other 0 (suc (length bytes)) (λ p. absurd (omega arith))) (
        rw (usize_eq_same (suc (length bytes)) (suc (length bytes)) refl) (
          rw (choice-mask b bytes) (elim (Bool-cases (all_hex (b ∷ bytes))) [
            | inl p ↦ rw p (sym (scan-all_hex 0 (b ∷ bytes) p))
            | inr p ↦
                let (i, c, at, found, named) = scan-Names 0 (b ∷ bytes) p in
                rw p (rw at (rw found (ground arith)))
          ])))

  agrees :
      (text : Text) (n : ℕ)
      → (if length text == 0
          then err ValidationError.empty_hash
          else if not (length text == n)
          then err (ValidationError.wrong_length n (length text))
          else scan 0 text)
        ≡ validate_with_length_constant_time subtle text n
  agrees [] n = sym (constant_time-empty n)
  agrees (b ∷ bytes) n = elim (ℕ_discrete n (suc (length bytes))) [
    | yes p ↦ rw p (ground (arith, constant_time-scan b bytes))
    | no ne ↦ ground (arith, constant_time-length b bytes n ne)
  ]

  -- The validation by a scan is the one in constant time of the normalized text, for every ASCII text
  -- and every length: they accept the same, and they give the same error with the same position.
  pub validate_with_length-constant_time :
      (hash : Text) (n : ℕ)
      → All IsAscii hash
      → validate_with_length hash n ≡ validate_with_length_constant_time subtle (normalize hash) n
  unfolding validate_with_length
  validate_with_length-constant_time hash n ascii =
      rw (chars-Ascii (normalize hash) (normalize-Ascii hash ascii)) (agrees (normalize hash) n)
