-- ===== src/Hash/Registry.antt =====
-- src/hash_validator.rs, `HashRegistry`: the hashes that were registered. The map is an association
-- list, and the clock an argument.
use proof_stell_contract.Base.{
  ℕ, Bool, true, false, ℕ_discrete, list_eq, if◌then◌else◌, List, [], ◌∷◌, length, ◌==◌,
}
use proof_stell_contract.Base.Assoc.{insert}
use proof_stell_contract.Hash.Tools.{Text, ValidationError, Outcome, ok, err, HashAlgorithm, Subtle}
use proof_stell_contract.Hash.Canonical.{CanonicalHash}

pub record HashEntry : Type 0 where
  pub timestamp : ℕ
  pub algorithm : HashAlgorithm

pub record HashRegistry : Type 0 where
  pub inner : List (Text × HashEntry)

unfoldable pub text_eq : Discrete Text
text_eq = list_eq ℕ_discrete

abbrev pub empty_registry : HashRegistry
empty_registry = record { inner = [] }

-- The loop over all entries: `seen` before them.
unfoldable pub scan : Subtle → Text → Bool → List (Text × HashEntry) → Bool
scan subtle hash seen [] = seen
scan subtle hash seen ((key, _) ∷ entries) =
    scan subtle hash (if subtle.slice_eq key hash then true else seen) entries

unfoldable pub contains : Subtle → CanonicalHash → HashRegistry → Bool
unfolding scan
contains subtle hash r = scan subtle hash.inner false r.inner

-- `register` has two accesses to the map that other callers may come between: the scan, and this
-- insertion.
unfoldable pub add : ℕ → CanonicalHash → HashRegistry → HashRegistry
add now hash r = record {
  inner =
      insert text_eq hash.inner (record { timestamp = now; algorithm = HashAlgorithm.sha256 })
        r.inner;
}

unfoldable pub register :
    Subtle → ℕ → CanonicalHash → HashRegistry → Outcome (Unit {0}) × HashRegistry
unfolding contains add
register subtle now hash r =
    if contains subtle hash r
    then (err ValidationError.already_registered, r)
    else (ok tt, add now hash r)

unfoldable pub len : HashRegistry → ℕ
len r = length r.inner

unfoldable pub is_empty : HashRegistry → Bool
is_empty r = length r.inner == 0

unfoldable pub clear : HashRegistry → HashRegistry
clear r = record { inner = [] }
