-- ===== src/Config/Parse.antt =====
-- src/config.rs: how one variable is read. A reading has the value that is used and the messages
-- that it adds.
use proof_stell_contract.Base.{
  ℕ, ◌+◌, ◌-◌, ◌*◌, ◌==◌, ltb, leb, if◌then◌else◌, Bool, true, false, ◌&&◌, ◌||◌, Option, none,
  some, unwrap_or, holds, List, [], ◌∷◌, ◌++◌, map, ℕ_discrete, list_eq,
}
use proof_stell_contract.Hash.Tools.{Text, to_lowercase, trim_start, trim_end}
use proof_stell_contract.Config.Variables.{Variable, Complaint, bytes, Environment}

abbrev pub max_timeout_ms : ℕ
max_timeout_ms = 300000

abbrev pub Reading : Type 0 → Type 0
Reading A = A × List Complaint

abbrev pub get_env_or_default : Environment → Variable → Text → Text
get_env_or_default env key default = unwrap_or (env.var key) default

abbrev pub same : Text → Text → Bool
same a b = holds (list_eq ℕ_discrete a b)

-- `str::parse` to an unsigned type with the largest value `bound`.
unfoldable pub parse_digits : ℕ → ℕ → Text → Option ℕ
parse_digits bound value [] = some value
parse_digits bound value (c ∷ cs) =
    let value' = value * 10 + (c - b'0') in
    let rest = parse_digits bound value' cs in
    if leb b'0' c && leb c b'9' && leb value' bound then rest else none

-- A sign alone is no number.
abbrev pub parse_unsigned : ℕ → Text → Option ℕ
parse_unsigned bound [] = none
parse_unsigned bound (c ∷ cs) = parse_digits bound 0 (c ∷ cs)

unfoldable pub parse : ℕ → Text → Option ℕ
unfolding parse_digits
parse bound [] = none
parse bound (c ∷ cs) = if c == b'+' then parse_unsigned bound cs else parse_unsigned bound (c ∷ cs)

-- Any number.
abbrev pub take_any : Variable → ℕ → Text → Option ℕ → Reading ℕ
take_any key default raw (some v) = (v, [])
take_any key default raw none = (default, Complaint.not_a_number key raw ∷ [])

-- A number above 0.
abbrev pub take_positive : Variable → ℕ → Text → Option ℕ → Reading ℕ
take_positive key default raw (some v) =
    if ltb 0 v then (v, []) else (default, Complaint.not_positive key ∷ [])
take_positive key default raw none = (default, Complaint.not_a_number key raw ∷ [])

-- A number above 0 and up to the longest delay.
abbrev pub take_bounded : Variable → ℕ → Text → Option ℕ → Reading ℕ
take_bounded key default raw (some v) =
    if ltb 0 v && leb v max_timeout_ms
    then (v, [])
    else if ltb 0 v
    then (default, Complaint.above_maximum key v ∷ [])
    else (default, Complaint.not_positive key ∷ [])
take_bounded key default raw none = (default, Complaint.not_a_number key raw ∷ [])

-- The same, where both failures have one message.
abbrev pub take_limited : Variable → ℕ → Text → Option ℕ → Reading ℕ
take_limited key default raw (some v) =
    if ltb 0 v && leb v max_timeout_ms then (v, []) else (default, Complaint.not_positive key ∷ [])
take_limited key default raw none = (default, Complaint.not_a_number key raw ∷ [])

-- A number of an unsigned type with the largest value `bound`, taken as one of the ways above.
abbrev pub read : (Variable → ℕ → Text → Option ℕ → Reading ℕ) → ℕ → Variable → ℕ → Text → Reading ℕ
read take bound key default raw = take key default raw (parse bound raw)

abbrev pub one_of : Text → List Text → Bool
one_of text [] = false
one_of text (t ∷ ts) = same text t || one_of text ts

abbrev pub lowercase : Text → Text
lowercase = map to_lowercase

unfoldable pub take_boolean : Variable → Text → Reading Bool
take_boolean key raw =
    if one_of (lowercase raw) (bytes "1" ∷ bytes "true" ∷ bytes "yes" ∷ bytes "y" ∷ [])
    then (true, [])
    else if one_of (lowercase raw) (bytes "0" ∷ bytes "false" ∷ bytes "no" ∷ bytes "n" ∷ [])
    then (false, [])
    else (true, Complaint.not_a_boolean key (lowercase raw) ∷ [])

abbrev pub has_scheme : List Text → Option Text → Bool
has_scheme schemes none = false
has_scheme schemes (some scheme) = one_of scheme schemes

-- `ValidatedUrl::parse` and `ValidatedRedisUrl::parse`
unfoldable pub is_url : Environment → Text → Bool
is_url env input = has_scheme (bytes "http" ∷ bytes "https" ∷ []) (env.scheme input)

unfoldable pub is_redis_url : Environment → Text → Bool
is_redis_url env input = has_scheme (bytes "redis" ∷ bytes "rediss" ∷ []) (env.scheme input)

-- A message unless the test holds.
abbrev pub unless : Bool → Complaint → List Complaint
unless true complaint = []
unless false complaint = complaint ∷ []

abbrev pub flatten : List (List Complaint) → List Complaint
flatten [] = []
flatten (part ∷ parts) = part ++ flatten parts

unfoldable pub trim : Text → Text
unfolding trim_start trim_end
trim text = trim_end (trim_start text)

abbrev pub grow : ℕ → List Text → List Text
grow c [] = (c ∷ []) ∷ []
grow c (part ∷ parts) = (c ∷ part) ∷ parts

-- `split(',')`
unfoldable pub split_commas : Text → List Text
split_commas [] = [] ∷ []
split_commas (c ∷ cs) =
    let parts = split_commas cs in if c == b',' then [] ∷ parts else grow c parts

abbrev pub is_empty : Text → Bool
is_empty [] = true
is_empty (c ∷ cs) = false

unfoldable pub drop_empty : List Text → List Text
drop_empty [] = []
drop_empty (t ∷ ts) = let rest = drop_empty ts in if is_empty t then rest else t ∷ rest
