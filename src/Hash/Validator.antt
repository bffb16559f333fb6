-- ===== src/Hash/Validator.antt =====
-- src/hash_validator.rs, `HashValidator`: validation in constant time and by a scan, the policy for
-- the contract, and the decoding to bytes.
use Prim.Native.Nat.{bit_and}
use proof_stell_contract.Base.{
  ℕ, zero, suc, ◌+◌, ◌-◌, ◌*◌, ◌==◌, leb, if◌then◌else◌, Bool, true, false, not, ◌&&◌, Option, none,
  some, unwrap_or, List, [], ◌∷◌, map, length, ltb,
}
use proof_stell_contract.Hash.Tools.{
  Text, ValidationError, Outcome, ok, err, panic, ◌>>=◌, ◌>>◌, HashAlgorithm, hex_length, Subtle,
  is_hex, trim_start, trim_end, to_lowercase,
}

unfoldable pub normalize : Text → Text
unfolding trim_start trim_end
normalize hash = map to_lowercase (trim_end (trim_start hash))

abbrev pub as_u8 : Bool → ℕ
as_u8 true = 1
as_u8 false = 0

-- `all_valid`, after the loop over the bytes.
unfoldable pub mask : ℕ → Text → ℕ
mask all_valid [] = all_valid
mask all_valid (b ∷ bytes) = mask (bit_and all_valid (bit_and (as_u8 (is_hex b)) 1)) bytes

abbrev pub next : Option ℕ → Option ℕ
next none = none
next (some i) = some (suc i)

unfoldable pub position : (ℕ → Bool) → Text → Option ℕ
position p [] = none
position p (b ∷ bytes) = let rest = next (position p bytes) in if p b then some 0 else rest

-- `bytes[i]`
unfoldable pub index : Text → ℕ → Outcome ℕ
index [] i = panic
index (b ∷ bytes) zero = ok b
index (b ∷ bytes) (suc i) = index bytes i

abbrev pub invalid_at : Text → ℕ → Outcome (Unit {0})
invalid_at bytes i = index bytes i >>= λ c. err (ValidationError.invalid_character i c)

unfoldable pub validate_with_length_constant_time : Subtle → Text → ℕ → Outcome (Unit {0})
unfolding mask position index
validate_with_length_constant_time subtle hash expected_len =
    let is_empty = subtle.usize_eq 0 (length hash) in
    let wrong_len = not (subtle.usize_eq expected_len (length hash)) in
    let bad_chars = not (subtle.choice (mask 0xFF hash)) in
    if is_empty
    then err ValidationError.empty_hash
    else if wrong_len
    then err (ValidationError.wrong_length expected_len (length hash))
    else if bad_chars
    then invalid_at hash (unwrap_or (position (λ b. not (is_hex b)) hash) 0)
    else ok tt

unfoldable pub validate_sha256_constant_time : Subtle → Text → Outcome (Unit {0})
unfolding validate_with_length_constant_time
validate_sha256_constant_time subtle hash = validate_with_length_constant_time subtle hash 64

-- The first byte of a character, without the bits that tell its length, and the bytes that follow one.
abbrev pub lead : ℕ → ℕ
lead b =
    if ltb b 128 then b else if ltb b 224 then b - 192 else if ltb b 240 then b - 224 else b - 240

abbrev pub is_continuation : ℕ → Bool
is_continuation b = leb 128 b && ltb b 192

-- What is read of one character, and the bytes behind.
unfoldable pub gather : ℕ → Text → List ℕ
gather ch [] = ch ∷ []
gather ch (b ∷ bytes) =
    let rest = gather (if is_continuation b then ch * 64 + (b - 128) else lead b) bytes in
    if is_continuation b then rest else ch ∷ rest

-- `chars()`, the characters of a text in UTF-8.
unfoldable pub chars : Text → List ℕ
unfolding gather
chars [] = []
chars (b ∷ bytes) = gather (lead b) bytes

-- The loop over the characters, from the position `idx`.
unfoldable pub scan : ℕ → List ℕ → Outcome (Unit {0})
scan idx [] = ok tt
scan idx (ch ∷ chs) =
    let rest = scan (suc idx) chs in
    if is_hex ch then rest else err (ValidationError.invalid_character idx ch)

unfoldable pub validate_with_length : Text → ℕ → Outcome (Unit {0})
unfolding normalize scan chars
validate_with_length hash expected_len =
    let normalized = normalize hash in
    let actual_len = length normalized in
    if actual_len == 0
    then err ValidationError.empty_hash
    else if not (actual_len == expected_len)
    then err (ValidationError.wrong_length expected_len actual_len)
    else scan 0 (chars normalized)

unfoldable pub validate_sha512_constant_time : Subtle → Text → Outcome (Unit {0})
unfolding validate_with_length_constant_time
validate_sha512_constant_time subtle hash = validate_with_length_constant_time subtle hash 128

unfoldable pub validate_sha256 : Text → Outcome (Unit {0})
unfolding validate_with_length
validate_sha256 hash = validate_with_length hash 64

unfoldable pub validate_sha512 : Text → Outcome (Unit {0})
unfolding validate_with_length
validate_sha512 hash = validate_with_length hash 128

-- `bytes().all(…)`
unfoldable pub all_hex : Text → Bool
all_hex [] = true
all_hex (b ∷ bytes) = is_hex b && all_hex bytes

unfoldable pub is_canonical_shape_with_len : Text → ℕ → Bool
unfolding all_hex
is_canonical_shape_with_len hash len = if not (length hash == len) then false else all_hex hash

unfoldable pub is_canonical_shape : Text → Bool
unfolding is_canonical_shape_with_len
is_canonical_shape hash = is_canonical_shape_with_len hash (hex_length HashAlgorithm.sha256)

unfoldable pub is_canonical : Text → HashAlgorithm → Bool
unfolding is_canonical_shape_with_len
is_canonical hash algorithm = is_canonical_shape_with_len hash (hex_length algorithm)

unfoldable pub validate_for_contract : Subtle → Text → Outcome Text
unfolding is_canonical_shape validate_sha256_constant_time
validate_for_contract subtle hash =
    if length hash == 0
    then err ValidationError.empty_hash
    else if not (is_canonical_shape hash)
    then if length hash == hex_length HashAlgorithm.sha512
      then err ValidationError.unsupported_algorithm
      else if length hash == hex_length HashAlgorithm.sha256
      then err ValidationError.not_canonical
      else err (ValidationError.wrong_length (hex_length HashAlgorithm.sha256) (length hash))
    else do validate_sha256_constant_time subtle hash; ok hash

unfoldable pub detect_algorithm : Text → Option HashAlgorithm
detect_algorithm hash =
    if length hash == 64
    then some HashAlgorithm.sha256
    else if length hash == 128
    then some HashAlgorithm.sha512
    else none

unfoldable pub hex_nibble : ℕ → Option ℕ
hex_nibble b =
    if leb b'0' b && leb b b'9'
    then some (b - b'0')
    else if leb b'a' b && leb b b'f'
    then some (b - b'a' + 10)
    else none

abbrev pub nibble_at : ℕ → ℕ → Outcome ℕ
nibble_at i c = elim (hex_nibble c) [
  | none ↦ err (ValidationError.invalid_character i c)
  | some n ↦ ok n
]

-- `bytes[i] = byte` in the array of 32 bytes, before the later chunks.
abbrev pub store : ℕ → ℕ → Outcome (List ℕ) → Outcome (List ℕ)
store i byte rest = if ltb i 32 then (rest >>= λ bytes. ok (byte ∷ bytes)) else panic

-- The loop over the chunks, from the chunk `i`: the bytes that it stores from there on.
unfoldable pub decode : ℕ → Text → Outcome (List ℕ)
unfolding hex_nibble
decode i [] = ok []
decode i (c ∷ []) = nibble_at (i * 2) c >>= λ _. panic
decode i (c ∷ d ∷ chunks) =
    let rest = decode (suc i) chunks in
    nibble_at (i * 2) c >>= λ hi. nibble_at (i * 2 + 1) d >>= λ lo. store i (hi * 16 + lo) rest

unfoldable pub hex_to_bytes32 : Text → Outcome (List ℕ)
unfolding validate_with_length decode
hex_to_bytes32 hex = do validate_with_length hex 64; decode 0 hex
