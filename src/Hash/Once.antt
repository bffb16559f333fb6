-- ===== src/Hash/Once.antt =====
-- src/hash_validator.rs, `HashRegistry`: each hash is registered once.
use proof_stell_contract.Base.{
  ℕ, ◌+◌, ◌≡◌, refl, sym, ap, ◌∙◌, arith, inl, inr, Bool, true, false, Bool-cases, if◌then◌else◌,
  none, is_some, List, [], ◌∷◌,
}
use proof_stell_contract.Base.Assoc.{
  find, insert, find-insert_self, find-insert_ne, find-hit, find-miss, remove-absent,
}
use proof_stell_contract.Hash.Tools.{Text, ValidationError, ok, err, HashAlgorithm, Subtle}
use proof_stell_contract.Hash.Canonical.{CanonicalHash}
use proof_stell_contract.Hash.Registry.{
  HashEntry, HashRegistry, text_eq, scan, contains, add, register, len,
}

-- The specification: the set of the registered texts.
abbrev pub member : HashRegistry → Text → Bool
member r text = is_some (find text_eq text r.inner)

abbrev pub Set : Type 0
Set = Text → Bool

abbrev pub with_text : Text → Set → Set
with_text text s = λ t. elim (text_eq t text) [ yes _ ↦ true | no _ ↦ s t ]

find-nil : (text : Text) → find {V = HashEntry} text_eq text [] ≡ none
unfolding find
find-nil text = refl

abbrev entry : ℕ → HashEntry
entry now = record { timestamp = now; algorithm = HashAlgorithm.sha256 }

module _ (subtle : Subtle) where
  scan-seen : (text : Text) (m : List (Text × HashEntry)) → scan subtle text true m ≡ true
  unfolding scan
  scan-seen text [] = refl
  scan-seen text ((key, _) ∷ m) = ground (arith, scan-seen text m)

  scan-find :
      (text : Text) (m : List (Text × HashEntry))
      → scan subtle text false m ≡ is_some (find text_eq text m)
  unfolding scan
  scan-find text [] = ap is_some (sym (find-nil text))
  scan-find text ((key, e) ∷ m) = elim (Bool-cases (subtle.slice_eq key text)) [
    | inl p ↦ rw p (
        scan-seen text m
        ∙ ap is_some
            (sym (find-hit text_eq text key e m (sym ((subtle.slice_eq_iff key text).0 p)))))
    | inr p ↦ rw p (
        scan-find text m
        ∙ ap is_some (
            sym (
              find-miss text_eq text key e m
                (λ q. cc (p, (subtle.slice_eq_iff key text).1 (sym q))))))
  ]

  pub contains-member :
      (c : CanonicalHash) (r : HashRegistry) → contains subtle c r ≡ member r c.inner
  unfolding contains
  contains-member c r = scan-find c.inner r.inner

  add-member :
      (now : ℕ) (c : CanonicalHash) (r : HashRegistry) (text : Text)
      → member (add now c r) text ≡ with_text c.inner (member r) text
  unfolding add
  add-member now c r text = elim (text_eq text c.inner) [
    | yes p ↦ ground (arith, find-insert_self text_eq c.inner (entry now) r.inner)
    | no n ↦ ground (arith, find-insert_ne text_eq text c.inner (entry now) r.inner n)
  ]

  len-add :
      (now : ℕ) (c : CanonicalHash) (r : HashRegistry)
      → member r c.inner ≡ false
      → len (add now c r) ≡ len r + 1
  unfolding len add insert
  len-add now c r p =
      let absent : find text_eq c.inner r.inner ≡ none = ground arith in
      rw (remove-absent text_eq c.inner r.inner absent) (omega arith)

  with_text-old : (text : Text) (s : Set) (t : Text) → s text ≡ true → s t ≡ with_text text s t
  with_text-old text s t p = ground arith

  with_text_self : (text : Text) (s : Set) → with_text text s text ≡ true
  with_text_self text s = ground arith

  -- Registering a hash adds its text to the set of the registered ones and keeps all others, whether
  -- it was there or not; it is refused, as registered already, exactly when it was there; it is
  -- found afterwards; and the registry grows by one entry exactly when it was not there.
  pub register-Set :
      (now : ℕ) (c : CanonicalHash) (r : HashRegistry)
      → ((text : Text)
          → member (register subtle now c r).1 text ≡ with_text c.inner (member r) text)
        × ((register subtle now c r).0
            ≡ (if member r c.inner then err ValidationError.already_registered else ok tt))
        × (contains subtle c (register subtle now c r).1 ≡ true)
        × (len (register subtle now c r).1 ≡ (if member r c.inner then len r else len r + 1))
  unfolding register
  register-Set now c r = elim (Bool-cases (member r c.inner)) [
    | inl p ↦
        let seen = contains-member c r ∙ p in
        rw seen (rw p (λ text. with_text-old c.inner (member r) text p, refl, seen, refl))
    | inr p ↦
        let new = contains-member c r ∙ p in
        rw new (
          rw p (
            add-member now c r,
            refl,
            contains-member c (add now c r)
                ∙ add-member now c r c.inner
                ∙ with_text_self c.inner (member r),
            len-add now c r p,
          ))
  ]
