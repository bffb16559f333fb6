-- ===== src/Hash/Bytes.antt =====
-- src/hash_validator.rs: the decoding of a hash to 32 bytes, and back.
use proof_stell_contract.Base.{
  ℕ, zero, suc, ◌+◌, ◌-◌, ◌*◌, ◌/◌, ◌%◌, ◌≤◌, ◌<◌, ◌≡◌, ◌≢◌, refl, sym, ap, ◌∙◌, arith, inl, inr,
  true, Option-cases, dec_le, List, [], ◌∷◌, length, All, map, some,
}
use proof_stell_contract.Hash.Tools.{
  Text, Outcome, Outcome-cases, ok, err, panic, is_hex, trim_start, trim_end, to_lowercase, shorten,
}
use proof_stell_contract.Hash.Validator.{
  normalize, all_hex, validate_with_length, hex_nibble, decode, hex_to_bytes32, store,
}
use proof_stell_contract.Hash.ConstantTime.{scan-all_hex}
use proof_stell_contract.Hash.Ascii.{chars-all_hex}
use proof_stell_contract.Hash.Canonical.{digit, Hex}
use proof_stell_contract.Hash.Policy.{Canonical, All-all_hex, all_hex-All}

pub hex_nibble-digit : (n : ℕ) → n < 16 → hex_nibble (digit n) ≡ some n
unfolding hex_nibble
hex_nibble-digit n h = ground arith

pub hex_nibble-inverts :
    (c n : ℕ) → hex_nibble c ≡ some n → (n < 16) × (digit n ≡ c) × (is_hex c ≡ true)
unfolding hex_nibble
hex_nibble-inverts c n h = (ground arith, ground arith, ground arith)

hex_nibble-total : (c : ℕ) → is_hex c ≡ true → (n : ℕ) × (hex_nibble c ≡ some n)
unfolding hex_nibble
hex_nibble-total c h = elim (dec_le c 57) [
  | yes p ↦ (c - 48, ground arith)
  | no p ↦ (c - 97 + 10, ground arith)
]

-- What the loop has decoded, from the chunk `i` on.
abbrev Decoded : ℕ → Text → ℕ → Type 0
Decoded i text n =
    (bytes : List ℕ) × (decode i text ≡ ok bytes)
    × (length bytes ≡ n)
    × All (λ b. b < 256) bytes
    × ((hex : Hex) → hex.encode bytes ≡ text)

pub decode-chunk :
    (i c d hi lo : ℕ) (text : Text) (bytes : List ℕ)
    → i < 32
    → hex_nibble c ≡ some hi
    → hex_nibble d ≡ some lo
    → decode (suc i) text ≡ ok bytes
    → decode i (c ∷ d ∷ text) ≡ ok ((hi * 16 + lo) ∷ bytes)
unfolding decode
decode-chunk i c d hi lo text bytes fits p q r = ground (arith, p, q, r)

encode-chunk :
    (hex : Hex) (hi lo : ℕ) (bytes : List ℕ)
    → hi < 16
    → lo < 16
    → hex.encode ((hi * 16 + lo) ∷ bytes) ≡ digit hi ∷ digit lo ∷ hex.encode bytes
encode-chunk hex hi lo bytes h l =
    hex.encode_byte (hi * 16 + lo) bytes (omega arith)
    ∙ (λ i. digit (high i) ∷ digit (low i) ∷ hex.encode bytes)
  where
    high : (hi * 16 + lo) / 16 ≡ hi
    high = omega arith

    low : (hi * 16 + lo) % 16 ≡ lo
    low = omega arith

Decoded-chunk :
    (i c d hi lo : ℕ) (text : Text) (n : ℕ)
    → i < 32
    → hex_nibble c ≡ some hi
    → hex_nibble d ≡ some lo
    → Decoded (suc i) text n
    → Decoded i (c ∷ d ∷ text) (suc n)
Decoded-chunk i c d hi lo text n fits p q (bytes, r, l, small, back) =
    let (hi_small, hi_digit, _) = hex_nibble-inverts c hi p in
    let (lo_small, lo_digit, _) = hex_nibble-inverts d lo q in
    (
      (hi * 16 + lo) ∷ bytes,
      decode-chunk i c d hi lo text bytes fits p q r,
      omega arith,
      (omega arith, small),
      λ hex.
          encode-chunk hex hi lo bytes hi_small lo_small
          ∙ (λ j. hi_digit j ∷ lo_digit j ∷ back hex j),
    )

decode-total :
    (n i : ℕ) (text : Text)
    → length text ≡ n * 2
    → i + n ≤ 32
    → all_hex text ≡ true
    → Decoded i text n
unfolding decode all_hex
decode-total zero i [] l fits h = ([], refl, omega arith, tt, λ hex. hex.encode_nil)
decode-total (suc n) i [] l fits h = absurd (omega arith)
decode-total n i (c ∷ []) l fits h = absurd (omega arith)
decode-total zero i (c ∷ d ∷ text) l fits h = absurd (omega arith)
decode-total (suc n) i (c ∷ d ∷ text) l fits h =
    let (hi, p) = hex_nibble-total c (ground arith) in
    let (lo, q) = hex_nibble-total d (ground arith) in
    Decoded-chunk i c d hi lo text n (omega arith) p q
      (decode-total n (suc i) text (omega arith) (omega arith) (ground arith))

no_store :
    (i byte : ℕ) (bytes : List ℕ) (rest : Outcome (List ℕ))
    → ((a : List ℕ) → rest ≢ ok a)
    → store i byte rest ≢ ok bytes
no_store i byte bytes (ok rest) n h = n rest refl
no_store i byte bytes (err e) n h = ground arith
no_store i byte bytes panic n h = ground arith

decode-inverts :
    (i c d : ℕ) (text : Text) (bytes : List ℕ)
    → decode i (c ∷ d ∷ text) ≡ ok bytes
    → (hi : ℕ) × (lo : ℕ) × (rest : List ℕ) × (hex_nibble c ≡ some hi)
      × (hex_nibble d ≡ some lo)
      × (decode (suc i) text ≡ ok rest)
unfolding decode
decode-inverts i c d text bytes h = elim (Option-cases (hex_nibble c)) [
  | inl p ↦ absurd (ground arith)
  | inr (hi, p) ↦ elim (Option-cases (hex_nibble d)) [
    | inl q ↦ absurd (ground arith)
    | inr (lo, q) ↦ elim (Outcome-cases (decode (suc i) text)) [
      | inl (rest, r) ↦ (hi, lo, rest, p, q, r)
      | inr n ↦ absurd (no_store i (hi * 16 + lo) bytes (decode (suc i) text) n (ground arith))
    ]
  ]
]

-- The converse of the loop: what is decoded is made of digits.
decode-all_hex :
    (i : ℕ) (text : Text) (bytes : List ℕ) → decode i text ≡ ok bytes → all_hex text ≡ true
unfolding decode all_hex
decode-all_hex i [] bytes h = refl
decode-all_hex i (c ∷ []) bytes h = elim (Option-cases (hex_nibble c)) [
  | inl p ↦ absurd (ground arith)
  | inr (hi, p) ↦ absurd (ground arith)
]
decode-all_hex i (c ∷ d ∷ text) bytes h =
    let (hi, lo, rest, p, q, r) = decode-inverts i c d text bytes h in
    ground (
      arith,
      hex_nibble-inverts c hi p,
      hex_nibble-inverts d lo q,
      decode-all_hex (suc i) text rest r,
    )

-- A text of digits is its own normal form.
trim_start-all_hex : (text : Text) → all_hex text ≡ true → trim_start text ≡ text
unfolding trim_start all_hex
trim_start-all_hex [] h = refl
trim_start-all_hex (c ∷ cs) h = ground arith

trim_end-all_hex : (text : Text) → all_hex text ≡ true → trim_end text ≡ text
unfolding trim_end all_hex
trim_end-all_hex [] h = refl
trim_end-all_hex (c ∷ []) h = ground arith
trim_end-all_hex (c ∷ d ∷ ds) h = ap (shorten c) (trim_end-all_hex (d ∷ ds) (ground arith))

lowercase-all_hex : (text : Text) → all_hex text ≡ true → map to_lowercase text ≡ text
unfolding all_hex
lowercase-all_hex [] h = refl
lowercase-all_hex (c ∷ cs) h = ground (arith, lowercase-all_hex cs)

pub normalize-all_hex : (text : Text) → all_hex text ≡ true → normalize text ≡ text
unfolding normalize
normalize-all_hex text h =
    rw (trim_start-all_hex text h) (rw (trim_end-all_hex text h) (lowercase-all_hex text h))

pub validate-Canonical : (text : Text) → Canonical text → validate_with_length text 64 ≡ ok tt
unfolding validate_with_length
validate-Canonical text (n, a) =
    let h = All-all_hex text a in
    ground (arith, normalize-all_hex text h, chars-all_hex text h, scan-all_hex 0 text h)

pub validate-length :
    (text : Text) → validate_with_length text 64 ≡ ok tt → length (normalize text) ≡ 64
unfolding validate_with_length
validate-length text h = ground arith

-- A canonical hash is decoded, to 32 bytes that encode to it again.
pub hex_to_bytes32-Canonical :
    (text : Text)
    → Canonical text
    → (bytes : List ℕ) × (hex_to_bytes32 text ≡ ok bytes)
      × (length bytes ≡ 32)
      × All (λ b. b < 256) bytes
      × ((hex : Hex) → hex.encode bytes ≡ text)
unfolding hex_to_bytes32
hex_to_bytes32-Canonical text (n, a) =
    let (bytes, p, l, small, back) =
      decode-total 32 0 text (omega arith) (omega arith) (All-all_hex text a) in
    (bytes, rw (validate-Canonical text (n, a)) p, l, small, back)

pub Canonical-hex_to_bytes32 :
    (text : Text) (bytes : List ℕ) → hex_to_bytes32 text ≡ ok bytes → Canonical text
unfolding hex_to_bytes32
Canonical-hex_to_bytes32 text bytes h =
    let valid : validate_with_length text 64 ≡ ok tt = ground arith in
    let digits = decode-all_hex 0 text bytes (ground arith) in
    (
      ap length (sym (normalize-all_hex text digits)) ∙ validate-length text valid,
      all_hex-All text digits,
    )
