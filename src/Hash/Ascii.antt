-- ===== src/Hash/Ascii.antt =====
-- src/hash_validator.rs: an ASCII text has its bytes for characters.
use proof_stell_contract.Base.{ℕ, ◌<◌, ◌≡◌, refl, arith, true, All, [], ◌∷◌, map, if_both}
use proof_stell_contract.Hash.Tools.{
  Text, is_whitespace, trim_start, trim_end, shorten, to_lowercase,
}
use proof_stell_contract.Hash.Validator.{normalize, gather, chars, all_hex}

abbrev pub IsAscii : ℕ → Type 0
IsAscii b = b < 128

gather-Ascii : (ch : ℕ) (bytes : Text) → All IsAscii bytes → gather ch bytes ≡ ch ∷ bytes
unfolding gather
gather-Ascii ch [] h = refl
gather-Ascii ch (b ∷ bytes) (small, h) = ground (arith, gather-Ascii b bytes h)

pub chars-Ascii : (text : Text) → All IsAscii text → chars text ≡ text
unfolding chars
chars-Ascii [] h = refl
chars-Ascii (b ∷ bytes) (small, h) = ground (arith, gather-Ascii b bytes h)

all_hex-Ascii : (text : Text) → all_hex text ≡ true → All IsAscii text
unfolding all_hex
all_hex-Ascii [] h = tt
all_hex-Ascii (b ∷ bytes) h = (ground arith, all_hex-Ascii bytes (ground arith))

pub chars-all_hex : (text : Text) → all_hex text ≡ true → chars text ≡ text
chars-all_hex text h = chars-Ascii text (all_hex-Ascii text h)

trim_start-Ascii : (text : Text) → All IsAscii text → All IsAscii (trim_start text)
unfolding trim_start
trim_start-Ascii [] h = tt
trim_start-Ascii (b ∷ bytes) (small, h) =
    if_both (All IsAscii) (is_whitespace b) _ _ (trim_start-Ascii bytes h) (small, h)

shorten-Ascii : (c : ℕ) (text : Text) → IsAscii c → All IsAscii text → All IsAscii (shorten c text)
shorten-Ascii c [] small h = if_both (All IsAscii) (is_whitespace c) _ _ tt (small, tt)
shorten-Ascii c (d ∷ ds) small h = (small, h)

trim_end-Ascii : (text : Text) → All IsAscii text → All IsAscii (trim_end text)
unfolding trim_end
trim_end-Ascii [] h = tt
trim_end-Ascii (b ∷ bytes) (small, h) = shorten-Ascii b _ small (trim_end-Ascii bytes h)

lowercase-Ascii : (text : Text) → All IsAscii text → All IsAscii (map to_lowercase text)
lowercase-Ascii [] h = tt
lowercase-Ascii (b ∷ bytes) (small, h) = (ground arith, lowercase-Ascii bytes h)

pub normalize-Ascii : (text : Text) → All IsAscii text → All IsAscii (normalize text)
unfolding normalize
normalize-Ascii text h = lowercase-Ascii _ (trim_end-Ascii _ (trim_start-Ascii text h))
