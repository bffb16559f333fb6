-- ===== src/Hash/Canonical.antt =====
-- src/hash_validator.rs, `CanonicalHash`: a hash in canonical form, and its forms as bytes.
use proof_stell_contract.Base.{
  ℕ, ◌+◌, ◌/◌, ◌%◌, ◌<◌, ◌≡◌, ◌==◌, ltb, if◌then◌else◌, not, Option, none, some, List, [], ◌∷◌,
  length,
}
use proof_stell_contract.Hash.Tools.{
  Text, ValidationError, Outcome, ok, err, ◌>>=◌, ◌>>◌, HashAlgorithm, hex_length, Subtle,
}
use proof_stell_contract.Hash.Validator.{
  all_hex, is_canonical_shape, validate_sha256_constant_time, detect_algorithm, hex_to_bytes32,
}

pub record CanonicalHash : Type 0 where
  pub inner : Text

unfoldable pub new : Subtle → Text → Outcome CanonicalHash
unfolding all_hex is_canonical_shape validate_sha256_constant_time
new subtle hash =
    if length hash == 0
    then err ValidationError.empty_hash
    else if not (is_canonical_shape hash)
    then if all_hex hash
      then err (ValidationError.wrong_length (hex_length HashAlgorithm.sha256) (length hash))
      else err ValidationError.not_canonical
    else do validate_sha256_constant_time subtle hash; ok (record { inner = hash })

unfoldable pub enforce_canonical : Subtle → Text → Outcome CanonicalHash
unfolding new
enforce_canonical subtle hash = new subtle hash

-- The lowercase digit of a number below 16.
abbrev pub digit : ℕ → ℕ
digit n = if ltb n 10 then n + 48 else n + 87

-- The crate `hex`: two lowercase digits for each byte, the high one first.
pub record Hex : Type 0 where
  pub encode : List ℕ → Text
  pub encode_nil : encode [] ≡ []
  pub encode_byte :
      (b : ℕ) (bytes : List ℕ)
      → b < 256
      → encode (b ∷ bytes) ≡ digit (b / 16) ∷ digit (b % 16) ∷ encode bytes

unfoldable pub from_bytes : Hex → List ℕ → CanonicalHash
from_bytes hex bytes = record { inner = hex.encode bytes }

unfoldable pub to_bytes : CanonicalHash → Outcome (List ℕ)
unfolding hex_to_bytes32
to_bytes hash = hex_to_bytes32 hash.inner

abbrev pub fits_memo : Option HashAlgorithm → Outcome (Unit {0})
fits_memo (some HashAlgorithm.sha256) = ok tt
fits_memo (some HashAlgorithm.sha512) = err ValidationError.invalid_stellar_memo_format
fits_memo none = err ValidationError.invalid_stellar_memo_format

unfoldable pub validate_stellar_memo : CanonicalHash → Outcome (Unit {0})
unfolding detect_algorithm
validate_stellar_memo hash = fits_memo (detect_algorithm hash.inner)

unfoldable pub to_stellar_memo_hash : CanonicalHash → Outcome (List ℕ)
unfolding validate_stellar_memo to_bytes
to_stellar_memo_hash hash = do validate_stellar_memo hash; to_bytes hash

-- `base64` is the encoder of the crate of that name.
unfoldable pub to_stellar_memo_base64 : (List ℕ → Text) → CanonicalHash → Outcome Text
unfolding to_stellar_memo_hash
to_stellar_memo_base64 base64 hash = do bytes ← to_stellar_memo_hash hash; ok (base64 bytes)
