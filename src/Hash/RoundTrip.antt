-- ===== src/Hash/RoundTrip.antt =====
-- src/hash_validator.rs: a canonical hash as text and as bytes.
use proof_stell_contract.Base.{
  ℕ, suc, ◌+◌, ◌*◌, ◌/◌, ◌%◌, ◌≤◌, ◌<◌, ◌≡◌, refl, sym, ap, subst, ◌∙◌, arith, inl, inr, dec_lt,
  List, [], ◌∷◌, length, All,
}
use proof_stell_contract.Hash.Tools.{Text, ok, Subtle}
use proof_stell_contract.Hash.Validator.{decode, hex_to_bytes32}
use proof_stell_contract.Hash.Canonical.{
  CanonicalHash, new, digit, Hex, from_bytes, to_bytes, validate_stellar_memo, to_stellar_memo_hash,
}
use proof_stell_contract.Hash.Policy.{
  IsHex, Canonical, validate_for_contract-accepts_iff, new-validate_for_contract,
}
use proof_stell_contract.Hash.Bytes.{
  decode-chunk, hex_nibble-digit, validate-Canonical, hex_to_bytes32-Canonical,
}

abbrev Bytes : List ℕ → Type 0
Bytes = All (λ b. b < 256)

digit-IsHex : (n : ℕ) → n < 16 → IsHex (digit n)
digit-IsHex n h = elim (dec_lt n 10) [
  | yes p ↦ inl (ground arith, ground arith)
  | no p ↦ inr (ground arith, ground arith)
]

decode-nil : (i : ℕ) → decode i [] ≡ ok []
unfolding decode
decode-nil i = refl

module _ (hex : Hex) where
  encode-IsHex : (bytes : List ℕ) → Bytes bytes → All IsHex (hex.encode bytes)
  encode-IsHex [] h = rw hex.encode_nil tt
  encode-IsHex (b ∷ bytes) (h, hs) = rw (hex.encode_byte b bytes h) (
    digit-IsHex (b / 16) (omega arith),
    (digit-IsHex (b % 16) (omega arith), encode-IsHex bytes hs),
  )

  length-encode : (bytes : List ℕ) → Bytes bytes → length (hex.encode bytes) ≡ length bytes * 2
  length-encode [] h = rw hex.encode_nil (omega arith)
  length-encode (b ∷ bytes) (h, hs) =
      rw (hex.encode_byte b bytes h) (omega (arith, length-encode bytes hs))

  decode-encode :
      (i : ℕ) (bytes : List ℕ)
      → i + length bytes ≤ 32
      → Bytes bytes
      → decode i (hex.encode bytes) ≡ ok bytes
  decode-encode i [] fits h = rw hex.encode_nil (decode-nil i)
  decode-encode i (b ∷ bytes) fits (h, hs) = rw (hex.encode_byte b bytes h) (
      decode-chunk i (digit (b / 16)) (digit (b % 16)) (b / 16) (b % 16) (hex.encode bytes) bytes
        (omega arith) (hex_nibble-digit (b / 16) (omega arith))
        (hex_nibble-digit (b % 16) (omega arith)) (decode-encode (suc i) bytes (omega arith) hs)
      ∙ ap (λ n. ok (n ∷ bytes)) (omega arith))

  decodes :
      (bytes : List ℕ)
      → Canonical (hex.encode bytes)
      → decode 0 (hex.encode bytes) ≡ ok bytes
      → hex_to_bytes32 (hex.encode bytes) ≡ ok bytes
  unfolding hex_to_bytes32
  decodes bytes canonical p = rw (validate-Canonical (hex.encode bytes) canonical) p

  -- Any 32 bytes make a canonical hash, and the bytes that it is decoded to are the same.
  pub to_bytes-from_bytes :
      (bytes : List ℕ)
      → length bytes ≡ 32
      → All (λ b. b < 256) bytes
      → Canonical (from_bytes hex bytes).inner × (to_bytes (from_bytes hex bytes) ≡ ok bytes)
  unfolding from_bytes to_bytes
  to_bytes-from_bytes bytes l h =
      let canonical : Canonical (hex.encode bytes) =
        (omega (arith, length-encode bytes h), encode-IsHex bytes h) in
      (canonical, decodes bytes canonical (decode-encode 0 bytes (omega arith) h))

  memo-Canonical : (c : CanonicalHash) → Canonical c.inner → validate_stellar_memo c ≡ ok tt
  unfolding validate_stellar_memo
  memo-Canonical c (n, _) = ground arith

  -- A hash that was accepted is decoded to 32 bytes, fits the memo of a Stellar transaction with the
  -- same bytes, and is the hash made of them.
  pub from_bytes-to_bytes :
      (subtle : Subtle) (text : Text) (c : CanonicalHash)
      → new subtle text ≡ ok c
      → (bytes : List ℕ) × (to_bytes c ≡ ok bytes)
        × (to_stellar_memo_hash c ≡ ok bytes)
        × (length bytes ≡ 32)
        × (from_bytes hex bytes ≡ c)
  unfolding from_bytes to_bytes to_stellar_memo_hash
  from_bytes-to_bytes subtle text c p =
      let accepted = (new-validate_for_contract subtle text c).0 p in
      let (same, canonical) = (validate_for_contract-accepts_iff subtle text c.inner).0 accepted in
      let canonical' : Canonical c.inner = subst Canonical (sym same) canonical in
      let (bytes, decoded, l, _, back) = hex_to_bytes32-Canonical c.inner canonical' in
      (
        bytes,
        decoded,
        rw (memo-Canonical c canonical') decoded,
        l,
        λ i. record { inner = back hex i },
      )
