-- ===== src/Hash/Tools.antt =====
-- src/hash_validator.rs: the errors, the algorithms, and the crates that the file calls. A text is
-- the list of its bytes, and stands for an ASCII text where its characters are read.
use proof_stell_contract.Base.{
  ℕ, ◌+◌, ◌≡◌, ◌≢◌, ◌⊎◌, ◌↔◌, inl, inr, refl, leb, Bool, true, false, ◌&&◌, ◌||◌, if◌then◌else◌,
  List, [], ◌∷◌,
}

abbrev pub Text : Type 0
Text = List ℕ

pub data ValidationError : Type 0 where
  wrong_length : ℕ → ℕ → ValidationError
  invalid_character : ℕ → ℕ → ValidationError
  empty_hash : ValidationError
  unsupported_algorithm : ValidationError
  not_canonical : ValidationError
  invalid_stellar_memo_format : ValidationError
  already_registered : ValidationError

-- `panic` is an index out of range.
pub data Outcome {ℓ} (A : Type ℓ) : Type ℓ where
  ok : A → Outcome A
  err : ValidationError → Outcome A
  panic : Outcome A

-- `?` after a fallible call: an error or a panic ends the function.
infixl 5 ◌>>=◌ ◌>>◌
abbrev pub ◌>>=◌ {ℓ κ} : {A : Type ℓ} {B : Type κ} → Outcome A → (A → Outcome B) → Outcome B
panic >>= next = panic
err error >>= next = err error
ok value >>= next = next value

abbrev pub ◌>>◌ {ℓ} : {B : Type ℓ} → Outcome (Unit {0}) → Outcome B → Outcome B
checked >> next = checked >>= λ _. next

pub Outcome-cases {ℓ} : {A : Type ℓ} (m : Outcome A) → ((a : A) × (m ≡ ok a)) ⊎ ((a : A) → m ≢ ok a)
Outcome-cases (ok a) = inl (a, refl)
Outcome-cases (err e) = inr (λ a p. cc p)
Outcome-cases panic = inr (λ a p. cc p)

-- What returns has gone past every `?`.
pub >>=-returns {ℓ κ} :
    {A : Type ℓ} {B : Type κ} (step : Outcome A) (next : A → Outcome B) (result : B)
    → (step >>= next) ≡ ok result
    → (value : A) × (step ≡ ok value) × (next value ≡ ok result)
>>=-returns panic next result p = cc p
>>=-returns (err error) next result p = cc p
>>=-returns (ok value) next result p = (value, refl, p)

pub data HashAlgorithm : Type 0 where
  sha256 : HashAlgorithm
  sha512 : HashAlgorithm

abbrev pub hex_length : HashAlgorithm → ℕ
hex_length HashAlgorithm.sha256 = 64
hex_length HashAlgorithm.sha512 = 128

abbrev pub byte_length : HashAlgorithm → ℕ
byte_length HashAlgorithm.sha256 = 32
byte_length HashAlgorithm.sha512 = 64

-- The crate `subtle`: `ct_eq` of numbers and of slices, and the Boolean of `Choice::from` of a byte,
-- which is documented for 0 and 1 and of which nothing else is assumed.
pub record Subtle : Type 0 where
  pub usize_eq : ℕ → ℕ → Bool
  pub slice_eq : Text → Text → Bool
  pub choice : ℕ → Bool
  pub usize_eq_iff : (a b : ℕ) → (usize_eq a b ≡ true) ↔ (a ≡ b)
  pub slice_eq_iff : (a b : Text) → (slice_eq a b ≡ true) ↔ (a ≡ b)
  pub choice_zero : choice 0 ≡ false
  pub choice_one : choice 1 ≡ true

-- `b'0'..=b'9' | b'a'..=b'f'`
abbrev pub is_hex : ℕ → Bool
is_hex b = (leb b'0' b && leb b b'9') || (leb b'a' b && leb b b'f')

-- `char::is_whitespace` of an ASCII character.
abbrev pub is_whitespace : ℕ → Bool
is_whitespace c = (leb 9 c && leb c 13) || (leb 32 c && leb c 32)

unfoldable pub trim_start : Text → Text
trim_start [] = []
trim_start (c ∷ cs) = let rest = trim_start cs in if is_whitespace c then rest else c ∷ cs

abbrev pub shorten : ℕ → Text → Text
shorten c [] = if is_whitespace c then [] else c ∷ []
shorten c (d ∷ ds) = c ∷ d ∷ ds

unfoldable pub trim_end : Text → Text
trim_end [] = []
trim_end (c ∷ cs) = shorten c (trim_end cs)

abbrev pub to_lowercase : ℕ → ℕ
to_lowercase c = if leb b'A' c && leb c b'Z' then c + 32 else c
