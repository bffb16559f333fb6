-- ===== src/Config/Ranges.antt =====
-- src/config.rs: what each way of reading a number lets through.
use proof_stell_contract.Base.{
  ℕ, ◌+◌, ◌-◌, ◌*◌, ◌≤◌, ◌<◌, ◌≡◌, refl, sym, ap, ◌∙◌, arith, inl, inr, leb, ltb, ◌==◌, ◌&&◌,
  if◌then◌else◌, Bool, true, false, Option, none, some, Bool-cases, List, [], ◌∷◌, ◌++◌, All,
}
use proof_stell_contract.Hash.Tools.{Text}
use proof_stell_contract.Config.Variables.{Variable, Complaint}
use proof_stell_contract.Config.Parse.{
  max_timeout_ms, parse_digits, parse_unsigned, parse, take_any, take_positive, take_bounded,
  take_limited, read, flatten, unless,
}

parse_digits-le :
    (bound value : ℕ) (raw : Text) (v : ℕ)
    → value ≤ bound
    → parse_digits bound value raw ≡ some v
    → v ≤ bound
unfolding parse_digits
parse_digits-le bound value [] v l p = ground arith
parse_digits-le bound value (c ∷ cs) v l p =
    ground (arith, parse_digits-le bound (value * 10 + (c - b'0')) cs v)

parse_unsigned-le : (bound : ℕ) (raw : Text) (v : ℕ) → parse_unsigned bound raw ≡ some v → v ≤ bound
parse_unsigned-le bound [] v p = absurd (ground arith)
parse_unsigned-le bound (c ∷ cs) v p = parse_digits-le bound 0 (c ∷ cs) v (omega arith) p

-- A number that is parsed fits its type.
pub parse-le : (bound : ℕ) (raw : Text) (v : ℕ) → parse bound raw ≡ some v → v ≤ bound
unfolding parse
parse-le bound [] v p = absurd (ground arith)
parse-le bound (c ∷ cs) v p = elim (Bool-cases (c == b'+')) [
  | inl q ↦
      parse_unsigned-le bound cs v
        (sym (ap (λ b. if b then parse_unsigned bound cs else parse_unsigned bound (c ∷ cs)) q) ∙ p)
  | inr q ↦
      parse_unsigned-le bound (c ∷ cs) v
        (sym (ap (λ b. if b then parse_unsigned bound cs else parse_unsigned bound (c ∷ cs)) q) ∙ p)
]

module _ (key : Variable) (default : ℕ) (raw : Text) where
  pub taken-positive :
      (o : Option ℕ)
      → (take_positive key default raw o).1 ≡ []
      → (0 < (take_positive key default raw o).0) × (o ≡ some (take_positive key default raw o).0)
  taken-positive none p = absurd (ground arith)
  taken-positive (some v) p = elim (Bool-cases (ltb 0 v)) [
    | inl q ↦ rw q (ground arith, refl)
    | inr q ↦ absurd (ground arith)
  ]

  taken-bounded :
      (o : Option ℕ)
      → (take_bounded key default raw o).1 ≡ []
      → (0 < (take_bounded key default raw o).0)
        × ((take_bounded key default raw o).0 ≤ max_timeout_ms)
  taken-bounded none p = absurd (ground arith)
  taken-bounded (some v) p = elim (Bool-cases (ltb 0 v && leb v max_timeout_ms)) [
    | inl q ↦ rw q (ground arith, ground arith)
    | inr q ↦ absurd (ground arith)
  ]

  taken-limited :
      (o : Option ℕ)
      → (take_limited key default raw o).1 ≡ []
      → (0 < (take_limited key default raw o).0)
        × ((take_limited key default raw o).0 ≤ max_timeout_ms)
  taken-limited none p = absurd (ground arith)
  taken-limited (some v) p = elim (Bool-cases (ltb 0 v && leb v max_timeout_ms)) [
    | inl q ↦ rw q (ground arith, ground arith)
    | inr q ↦ absurd (ground arith)
  ]

  taken-any :
      (o : Option ℕ) → (take_any key default raw o).1 ≡ [] → o ≡ some (take_any key default raw o).0
  taken-any none p = absurd (ground arith)
  taken-any (some v) p = refl

  pub positive-range :
      (bound : ℕ)
      → (read take_positive bound key default raw).1 ≡ []
      → (0 < (read take_positive bound key default raw).0)
        × ((read take_positive bound key default raw).0 ≤ bound)
  positive-range bound p =
      let (l, q) = taken-positive (parse bound raw) p in (l, parse-le bound raw _ q)

  pub any-le :
      (bound : ℕ)
      → (read take_any bound key default raw).1 ≡ []
      → (read take_any bound key default raw).0 ≤ bound
  any-le bound p = parse-le bound raw _ (taken-any (parse bound raw) p)

  pub bounded-range :
      (bound : ℕ)
      → (read take_bounded bound key default raw).1 ≡ []
      → (0 < (read take_bounded bound key default raw).0)
        × ((read take_bounded bound key default raw).0 ≤ max_timeout_ms)
  bounded-range bound p = taken-bounded (parse bound raw) p

  pub limited-range :
      (bound : ℕ)
      → (read take_limited bound key default raw).1 ≡ []
      → (0 < (read take_limited bound key default raw).0)
        × ((read take_limited bound key default raw).0 ≤ max_timeout_ms)
  limited-range bound p = taken-limited (parse bound raw) p

pub nil-append : (xs ys : List Complaint) → xs ++ ys ≡ [] → (xs ≡ []) × (ys ≡ [])
nil-append [] ys p = (refl, p)
nil-append (x ∷ xs) ys p = cc p

pub flatten-nil :
    (parts : List (List Complaint)) → flatten parts ≡ [] → All (λ part. part ≡ []) parts
flatten-nil [] p = tt
flatten-nil (part ∷ parts) p =
    let (q, r) = nil-append part (flatten parts) p in (q, flatten-nil parts r)

pub unless-nil : (b : Bool) (c : Complaint) → unless b c ≡ [] → b ≡ true
unless-nil true c p = refl
unless-nil false c p = cc p
