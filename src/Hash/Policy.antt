-- ===== src/Hash/Policy.antt =====
-- src/hash_validator.rs: which texts are accepted, and the errors of the others.
use proof_stell_contract.Base.{
  ℕ, ◌≤◌, ◌≡◌, ◌≢◌, ◌⊎◌, ◌↔◌, refl, sym, ap, ◌∙◌, arith, inl, inr, true, false, Bool-cases,
  ℕ_discrete, [], ◌∷◌, length, All,
}
use proof_stell_contract.Hash.Tools.{Text, ValidationError, ok, err, Subtle, is_hex}
use proof_stell_contract.Hash.Validator.{
  all_hex, validate_for_contract, validate_sha256_constant_time, is_canonical_shape,
}
use proof_stell_contract.Hash.ConstantTime.{scan-all_hex, constant_time-scan}
use proof_stell_contract.Hash.Canonical.{CanonicalHash, new}

-- A digit `0` to `9`, or a letter `a` to `f`.
abbrev pub IsHex : ℕ → Type 0
IsHex c = ((48 ≤ c) × (c ≤ 57)) ⊎ ((97 ≤ c) × (c ≤ 102))

-- The hexadecimal form of a SHA-256 hash.
abbrev pub Canonical : Text → Type 0
Canonical text = (length text ≡ 64) × All IsHex text

is_hex-IsHex : (c : ℕ) → is_hex c ≡ true → IsHex c
is_hex-IsHex c h = ground arith

IsHex-is_hex : (c : ℕ) → IsHex c → is_hex c ≡ true
IsHex-is_hex c h = ground arith

pub all_hex-All : (text : Text) → all_hex text ≡ true → All IsHex text
unfolding all_hex
all_hex-All [] h = tt
all_hex-All (c ∷ cs) h = (is_hex-IsHex c (ground arith), all_hex-All cs (ground arith))

pub All-all_hex : (text : Text) → All IsHex text → all_hex text ≡ true
unfolding all_hex
All-all_hex [] h = refl
All-all_hex (c ∷ cs) (h, hs) = ground (arith, IsHex-is_hex c h, All-all_hex cs hs)

pub Canonical-shape : (text : Text) → Canonical text → is_canonical_shape text ≡ true
unfolding is_canonical_shape
Canonical-shape text (n, h) = ground (arith, All-all_hex text h)

shape-Canonical : (text : Text) → is_canonical_shape text ≡ true → Canonical text
unfolding is_canonical_shape
shape-Canonical text h = (ground arith, all_hex-All text (ground arith))

¬Canonical-shape : (text : Text) → ¬ Canonical text → is_canonical_shape text ≡ false
¬Canonical-shape text n = elim (Bool-cases (is_canonical_shape text)) [
  | inl p ↦ absurd (n (shape-Canonical text p))
  | inr p ↦ p
]

-- Why a text is refused.
abbrev pub Reason : Text → ValidationError → Type 0
Reason text ValidationError.empty_hash = length text ≡ 0
Reason text ValidationError.unsupported_algorithm = length text ≡ 128
Reason text ValidationError.not_canonical = (length text ≡ 64) × ¬ (All IsHex text)
Reason text (ValidationError.wrong_length expected actual) =
    (expected ≡ 64) × (actual ≡ length text) × (actual ≢ 0) × (actual ≢ 64) × (actual ≢ 128)
Reason text _ = ⊥

module _ (subtle : Subtle) where
  Canonical-constant_time :
      (text : Text) → Canonical text → validate_sha256_constant_time subtle text ≡ ok tt
  unfolding validate_sha256_constant_time
  Canonical-constant_time [] (n, h) = absurd (omega arith)
  Canonical-constant_time (b ∷ bytes) (n, h) = ground (
    arith,
    constant_time-scan subtle b bytes,
    scan-all_hex 0 (b ∷ bytes),
    All-all_hex (b ∷ bytes) h,
  )

  contract-Canonical : (text : Text) → Canonical text → validate_for_contract subtle text ≡ ok text
  unfolding validate_for_contract
  contract-Canonical text h = ground (arith, Canonical-shape text h, Canonical-constant_time text h)

  contract-Canonical_of :
      (text result : Text)
      → validate_for_contract subtle text ≡ ok result
      → (result ≡ text) × Canonical text
  unfolding validate_for_contract
  contract-Canonical_of text result p = elim (Bool-cases (is_canonical_shape text)) [
    | inl q ↦ let h = shape-Canonical text q in (ground (arith, contract-Canonical text h), h)
    | inr q ↦ absurd (ground arith)
  ]

  -- A text is accepted for the contract, and returned as it is, exactly when it has 64 characters
  -- that are all digits or letters `a` to `f`.
  pub validate_for_contract-accepts_iff :
      (text result : Text)
      → (validate_for_contract subtle text ≡ ok result) ↔ ((result ≡ text) × Canonical text)
  validate_for_contract-accepts_iff text result =
      (contract-Canonical_of text result, λ (p, h). contract-Canonical text h ∙ ap ok (sym p))

  -- Any other text is refused with an error that says why: it is empty, it has the length of a
  -- SHA-512 hash, it has the right length and a character that is no digit, or it has a length that
  -- is none of 0, 64 and 128, which the error names.
  pub validate_for_contract-rejects :
      (text : Text)
      → ¬ Canonical text
      → (e : ValidationError) × (validate_for_contract subtle text ≡ err e) × Reason text e
  unfolding validate_for_contract
  validate_for_contract-rejects text n =
      let other = ¬Canonical-shape text n in
      elim (ℕ_discrete (length text) 0) [
        | yes p ↦ (ValidationError.empty_hash, ground arith, p)
        | no p ↦ elim (ℕ_discrete (length text) 128) [
          | yes q ↦ (ValidationError.unsupported_algorithm, ground arith, q)
          | no q ↦ elim (ℕ_discrete (length text) 64) [
            | yes r ↦ (ValidationError.not_canonical, ground arith, (r, λ h. n (r, h)))
            | no r ↦
                (ValidationError.wrong_length 64 (length text), ground arith, (refl, refl, p, r, q))
          ]
        ]
      ]

  -- The canonical form is constructed from exactly the texts that the contract accepts.
  pub new-validate_for_contract :
      (text : Text) (c : CanonicalHash)
      → (new subtle text ≡ ok c) ↔ (validate_for_contract subtle text ≡ ok c.inner)
  unfolding new validate_for_contract
  new-validate_for_contract text c = (λ p. ground arith, λ p. ground arith)
