-- ===== src/Hash/Tests.antt =====
-- The hash validator at concrete inputs. The crates' functions are those of the library.
use proof_stell_contract.Base.{
  ℕ, zero, suc, ◌+◌, ◌/◌, ◌%◌, ◌<◌, ◌≡◌, ◌⊎◌, ◌↔◌, refl, arith, ◌==◌, true, false, holds,
  if◌then◌else◌, List, [], ◌∷◌, length, ℕ_discrete, list_eq, All,
}
use proof_stell_contract.Hash.Tools.{Text, ValidationError, ok, err, Subtle}
use proof_stell_contract.Hash.Validator.{
  normalize, all_hex, validate_with_length, validate_with_length_constant_time,
  validate_for_contract, hex_to_bytes32,
}
use proof_stell_contract.Hash.ConstantTime.{validate_with_length-constant_time}
use proof_stell_contract.Hash.Canonical
use proof_stell_contract.Hash.Canonical.{
  CanonicalHash, digit, Hex, from_bytes, to_bytes, to_stellar_memo_hash,
}
use proof_stell_contract.Hash.Registry.{empty_registry, contains, register, len}
use proof_stell_contract.Hash.Policy.{
  Canonical, all_hex-All, validate_for_contract-accepts_iff, new-validate_for_contract,
}
use proof_stell_contract.Hash.NoPanic.{hex_to_bytes32-total}
use proof_stell_contract.Hash.RoundTrip.{to_bytes-from_bytes, from_bytes-to_bytes}
use proof_stell_contract.Hash.Once.{member, with_text, register-Set}

abbrev repeat : ℕ → ℕ → List ℕ
repeat zero c = []
repeat (suc n) c = c ∷ repeat n c

pub ==-sound : (a b : ℕ) → (a == b) ≡ true → a ≡ b
==-sound a b p = ground arith

pub ==-complete : (a b : ℕ) → a ≡ b → (a == b) ≡ true
==-complete a b p = ground arith

pub holds_iff : (a b : Text) → (holds (list_eq ℕ_discrete a b) ≡ true) ↔ (a ≡ b)
holds_iff a b = (λ p. ground arith, λ p. ground arith)

abbrev pub plain : Subtle
plain = record {
  usize_eq = λ a b. a == b;
  slice_eq = λ a b. holds (list_eq ℕ_discrete a b);
  choice = λ b. if b == 0 then false else true;
  usize_eq_iff = λ a b. (==-sound a b, ==-complete a b);
  slice_eq_iff = holds_iff;
  choice_zero = refl;
  choice_one = refl;
}

abbrev encode : List ℕ → Text
encode [] = []
encode (b ∷ bytes) = digit (b / 16) ∷ digit (b % 16) ∷ encode bytes

abbrev lower : Hex
lower = record { encode = encode; encode_nil = refl; encode_byte = λ b bytes l. refl }

abbrev pub sample : Text
sample = repeat 64 b'a'

pub sample-Canonical : Canonical sample
unfolding all_hex
sample-Canonical = (refl, all_hex-All sample refl)

validate_with_length-constant_time_example :
    validate_with_length (32 ∷ b'A' ∷ []) 64
    ≡ validate_with_length_constant_time plain (normalize (32 ∷ b'A' ∷ [])) 64
validate_with_length-constant_time_example =
    validate_with_length-constant_time plain (32 ∷ b'A' ∷ []) 64 (omega arith, (omega arith, tt))

-- Behind ASCII they differ: the scan reports the character `é`, the other its first byte.
abbrev accented : Text
accented = 195 ∷ 169 ∷ repeat 62 b'a'

scan_accented : validate_with_length accented 64 ≡ err (ValidationError.invalid_character 0 233)
unfolding validate_with_length
scan_accented = refl

constant_time_accented :
    validate_with_length_constant_time plain accented 64
    ≡ err (ValidationError.invalid_character 0 195)
unfolding validate_with_length_constant_time
constant_time_accented = refl

validate_for_contract-accepts_iff_example :
    (validate_for_contract plain sample ≡ ok sample) ↔ ((sample ≡ sample) × Canonical sample)
validate_for_contract-accepts_iff_example = validate_for_contract-accepts_iff plain sample sample

not-Canonical : ¬ Canonical (b'a' ∷ [])
not-Canonical h = absurd (omega arith)

abbrev pub canonical : CanonicalHash
canonical = record { inner = sample }

pub new-sample : Canonical.new plain sample ≡ ok canonical
new-sample =
    (new-validate_for_contract plain sample canonical).1
      ((validate_for_contract-accepts_iff plain sample sample).1 (refl, sample-Canonical))

abbrev zeros : List ℕ
zeros = repeat 32 0

zeros-small : All (λ b. b < 256) zeros
zeros-small = omega arith

to_bytes-from_bytes_example :
    Canonical (from_bytes lower zeros).inner × (to_bytes (from_bytes lower zeros) ≡ ok zeros)
to_bytes-from_bytes_example = to_bytes-from_bytes lower zeros refl zeros-small

from_bytes-to_bytes_example :
    (bytes : List ℕ) × (to_bytes canonical ≡ ok bytes)
    × (to_stellar_memo_hash canonical ≡ ok bytes)
    × (length bytes ≡ 32)
    × (from_bytes lower bytes ≡ canonical)
from_bytes-to_bytes_example = from_bytes-to_bytes lower plain sample canonical new-sample

-- Whitespace before a valid hash passes the validation, and is met by the decoding.
hex_to_bytes32-total_example :
    (Canonical (32 ∷ sample)
      × ((bytes : List ℕ) × (hex_to_bytes32 (32 ∷ sample) ≡ ok bytes)
          × (length bytes ≡ 32)
          × All (λ b. b < 256) bytes))
    ⊎ (¬ Canonical (32 ∷ sample) × ((e : ValidationError) × (hex_to_bytes32 (32 ∷ sample) ≡ err e)))
hex_to_bytes32-total_example = hex_to_bytes32-total (32 ∷ sample)

padded : hex_to_bytes32 (32 ∷ sample) ≡ err (ValidationError.invalid_character 0 32)
unfolding hex_to_bytes32
padded = refl

register-Set_example :
    ((text : Text)
      → member (register plain 5 canonical empty_registry).1 text
        ≡ with_text sample (member empty_registry) text)
    × ((register plain 5 canonical empty_registry).0
        ≡ (if member empty_registry sample then err ValidationError.already_registered else ok tt))
    × (contains plain canonical (register plain 5 canonical empty_registry).1 ≡ true)
    × (len (register plain 5 canonical empty_registry).1
        ≡ (if member empty_registry sample then len empty_registry else len empty_registry + 1))
register-Set_example = register-Set plain 5 canonical empty_registry
