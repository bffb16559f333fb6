-- ===== src/Hash/NoPanic.antt =====
-- src/hash_validator.rs: the decoding stays inside its arrays, on any text.
use proof_stell_contract.Base.{
  ℕ, suc, ◌+◌, ◌*◌, ◌≤◌, ◌<◌, ◌≡◌, ◌≢◌, All, ◌-◌, ◌⊎◌, refl, sym, ap, ◌∙◌, arith, inl, inr, Bool,
  true, false, Option-cases, ℕ_discrete, List, [], ◌∷◌, length, if◌then◌else◌, map,
}
use proof_stell_contract.Hash.Tools.{
  Text, ValidationError, Outcome, ok, err, panic, ◌>>◌, is_hex, trim_start, trim_end, to_lowercase,
  shorten,
}
use proof_stell_contract.Hash.Validator.{
  normalize, scan, chars, all_hex, validate_with_length, hex_nibble, store, decode, hex_to_bytes32,
}
use proof_stell_contract.Hash.Policy.{Canonical}
use proof_stell_contract.Hash.Bytes.{
  normalize-all_hex, validate-length, hex_to_bytes32-Canonical, Canonical-hex_to_bytes32,
  hex_nibble-inverts,
}

-- How many digits a text starts with.
abbrev hexes : Text → ℕ
hexes [] = 0
hexes (c ∷ cs) = if is_hex c then suc (hexes cs) else 0

hexes-trim_start : (text : Text) → hexes text ≤ hexes (trim_start text)
unfolding trim_start
hexes-trim_start [] = omega arith
hexes-trim_start (c ∷ cs) = ground arith

hexes-shorten :
    (c : ℕ) (cs rest : Text) → hexes cs ≤ length rest → hexes (c ∷ cs) ≤ length (shorten c rest)
hexes-shorten c cs [] h = ground arith
hexes-shorten c cs (d ∷ ds) h = ground arith

hexes-trim_end : (text : Text) → hexes text ≤ length (trim_end text)
unfolding trim_end
hexes-trim_end [] = omega arith
hexes-trim_end (c ∷ cs) = hexes-shorten c cs (trim_end cs) (hexes-trim_end cs)

length-map : (f : ℕ → ℕ) (text : Text) → length (map f text) ≡ length text
length-map f [] = refl
length-map f (c ∷ cs) = ap suc (length-map f cs)

hexes-normalize : (text : Text) → hexes text ≤ length (normalize text)
unfolding normalize
hexes-normalize text = omega (
  arith,
  hexes-trim_start text,
  hexes-trim_end (trim_start text),
  length-map to_lowercase (trim_end (trim_start text)),
)

abbrev odd : Text → Bool
odd [] = false
odd (c ∷ []) = true
odd (c ∷ d ∷ text) = odd text

odd-length : (text : Text) (n : ℕ) → odd text ≡ true → length text ≢ n * 2
odd-length [] n h p = cc h
odd-length (c ∷ []) n h p = absurd (omega arith)
odd-length (c ∷ d ∷ text) n h p = odd-length text (n - 1) h (omega arith)

store_panics :
    (i byte : ℕ) (rest : Outcome (List ℕ)) → i < 32 → store i byte rest ≡ panic → rest ≡ panic
store_panics i byte (ok bytes) le h = absurd (ground arith)
store_panics i byte (err e) le h = absurd (ground arith)
store_panics i byte panic le h = refl

-- The loop leaves its arrays only past 66 digits, or at the end of an odd number of digits.
decode-panics :
    (i : ℕ) (text : Text)
    → i ≤ 32
    → decode i text ≡ panic
    → (66 ≤ i * 2 + hexes text) ⊎ ((all_hex text ≡ true) × (odd text ≡ true))
unfolding decode all_hex
decode-panics i [] le h = absurd (ground arith)
decode-panics i (c ∷ []) le h = elim (Option-cases (hex_nibble c)) [
  | inl p ↦ absurd (ground arith)
  | inr (hi, p) ↦ inr (ground (arith, hex_nibble-inverts c hi p), refl)
]
decode-panics i (c ∷ d ∷ text) le h = elim (Option-cases (hex_nibble c)) [
  | inl p ↦ absurd (ground arith)
  | inr (hi, p) ↦ elim (Option-cases (hex_nibble d)) [
    | inl q ↦ absurd (ground arith)
    | inr (lo, q) ↦
        let (_, _, is_c) = hex_nibble-inverts c hi p in
        let (_, _, is_d) = hex_nibble-inverts d lo q in
        elim (ℕ_discrete i 32) [
          | yes e ↦ inl (ground arith)
          | no n ↦
              elim (decode-panics (suc i) text (omega arith) (
                store_panics i (hi * 16 + lo) (decode (suc i) text) (omega arith) (ground arith))) [
                  | inl l ↦ inl (ground arith)
                  | inr (a, o) ↦ inr (ground arith, o)
                ]
        ]
  ]
]

scan-ne-panic : (k : ℕ) (text : Text) → scan k text ≢ panic
unfolding scan
scan-ne-panic k [] h = cc h
scan-ne-panic k (c ∷ cs) h = ground (arith, scan-ne-panic (suc k) cs)

validate-ne-panic : (text : Text) (n : ℕ) → validate_with_length text n ≢ panic
unfolding validate_with_length
validate-ne-panic text n h = ground (arith, scan-ne-panic 0 (chars (normalize text)))

>>-panics :
    (m : Outcome (Unit {0})) (k : Outcome (List ℕ))
    → m ≢ panic
    → (m >> k) ≡ panic
    → (m ≡ ok tt) × (k ≡ panic)
>>-panics (ok _) k n h = (refl, h)
>>-panics (err e) k n h = cc h
>>-panics panic k n h = absurd (n refl)

hex_to_bytes32-ne-panic : (text : Text) → hex_to_bytes32 text ≢ panic
unfolding hex_to_bytes32
hex_to_bytes32-ne-panic text h =
    let (valid, panics) =
      >>-panics (validate_with_length text 64) (decode 0 text) (validate-ne-panic text 64) h in
    let l = validate-length text valid in
    elim (decode-panics 0 text (omega arith) panics) [
      | inl p ↦ absurd (omega (arith, hexes-normalize text))
      | inr (a, o) ↦ odd-length text 32 o (ap length (sym (normalize-all_hex text a)) ∙ l)
    ]

-- The decoding of any text ends without an index out of range: a canonical hash gives 32 bytes,
-- each below 256, and any other text an error.
pub hex_to_bytes32-total :
    (text : Text)
    → (Canonical text
        × ((bytes : List ℕ) × (hex_to_bytes32 text ≡ ok bytes)
            × (length bytes ≡ 32)
            × All (λ b. b < 256) bytes))
      ⊎ (¬ Canonical text × ((e : ValidationError) × (hex_to_bytes32 text ≡ err e)))
hex_to_bytes32-total text = verdict (hex_to_bytes32 text) refl
  where
    verdict :
        (o : Outcome (List ℕ))
        → hex_to_bytes32 text ≡ o
        → (Canonical text
            × ((bytes : List ℕ) × (hex_to_bytes32 text ≡ ok bytes)
                × (length bytes ≡ 32)
                × All (λ b. b < 256) bytes))
          ⊎ (¬ Canonical text × ((e : ValidationError) × (hex_to_bytes32 text ≡ err e)))
    verdict (ok bytes) p =
        let canonical = Canonical-hex_to_bytes32 text bytes p in
        let (bytes', q, l, small, _) = hex_to_bytes32-Canonical text canonical in
        inl (canonical, (bytes', q, l, small))
    verdict (err e) p = inr (
      λ canonical. let (bytes, q, _, _, _) = hex_to_bytes32-Canonical text canonical in cc (p, q),
      (e, p),
    )
    verdict panic p = absurd (hex_to_bytes32-ne-panic text p)
