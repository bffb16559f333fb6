-- ===== src/Cache/Recency.antt =====
-- src/cache.rs, `InMemoryCache`: a map and a queue of its keys in the order of their last use. A queue
-- is listed from its back: the least recently used key is the first.
use proof_stell_contract.Base.{
  ℕ, suc, ◌+◌, ◌≤◌, ◌≡◌, ◌≢◌, refl, sym, ap, subst, ◌∙◌, arith, if◌then◌else◌, if_true, if_false,
  holds, is_some, Bool, true, false, ◌||◌, none, List, [], ◌∷◌, ◌++◌, length, length-append,
}
use proof_stell_contract.Base.Assoc.{
  find, insert, remove, Unique, find-hit, find-miss, remove-hit, remove-miss, find-remove_self,
  find-remove_ne, find-insert_self, find-insert_ne, remove-Unique, insert-Unique,
}

module _ {ℓ} {K : Type ℓ} (eq : Discrete K) where
  abbrev pub member : K → List K → Bool
  member k [] = false
  member k (j ∷ q) = holds (eq k j) || member k q

  -- `retain(|k| k != key)`
  unfoldable pub retain : K → List K → List K
  retain k [] = []
  retain k (j ∷ q) = let rest = retain k q in if holds (eq k j) then rest else j ∷ rest

  -- To the front: the most recently used key.
  abbrev pub to_front : K → List K → List K
  to_front k q = retain k q ++ k ∷ []

  abbrev pub Distinct : List K → Type 0
  Distinct [] = Unit
  Distinct (k ∷ q) = (member k q ≡ false) × Distinct q

  holds_yes : (k j : K) → k ≡ j → holds (eq k j) ≡ true
  holds_yes k j p = ground arith

  holds_no : (k j : K) → k ≢ j → holds (eq k j) ≡ false
  holds_no k j n = ground arith

  member-retain_self : (k : K) (q : List K) → member k (retain k q) ≡ false
  unfolding retain
  member-retain_self k [] = refl
  member-retain_self k (j ∷ q) = ground (arith, member-retain_self k q)

  member-retain_ne : (j k : K) (q : List K) → j ≢ k → member j (retain k q) ≡ member j q
  unfolding retain
  member-retain_ne j k [] n = refl
  member-retain_ne j k (i ∷ q) n = ground (arith, member-retain_ne j k q n)

  retain_absent : (k : K) (q : List K) → member k q ≡ false → retain k q ≡ q
  unfolding retain
  retain_absent k [] h = refl
  retain_absent k (j ∷ q) h = ground (arith, retain_absent k q)

  Distinct-retain : (k : K) (q : List K) → Distinct q → Distinct (retain k q)
  unfolding retain
  Distinct-retain k [] d = tt
  Distinct-retain k (j ∷ q) (fresh, d) = elim (eq k j) [
    | yes p ↦ subst Distinct (sym (if_true _ _ (holds_yes k j p))) (Distinct-retain k q d)
    | no n ↦
        subst Distinct (sym (if_false _ _ (holds_no k j n)))
          (member-retain_ne j k q (λ p. n (sym p)) ∙ fresh, Distinct-retain k q d)
  ]

  length-retain :
      (k : K) (q : List K)
      → Distinct q
      → length (retain k q) + (if member k q then 1 else 0) ≡ length q
  unfolding retain
  length-retain k [] d = refl
  length-retain k (j ∷ q) (fresh, d) = elim (eq k j) [
    | yes p ↦
        let m : member k q ≡ false = subst (λ x. member x q ≡ false) (sym p) fresh in
        rw (holds_yes k j p, retain_absent k q m) (omega arith)
    | no n ↦ rw (holds_no k j n) (omega (arith, length-retain k q d))
  ]

  member-append : (j k : K) (q : List K) → member j (q ++ k ∷ []) ≡ (member j q || holds (eq j k))
  member-append j k [] = ground arith
  member-append j k (i ∷ q) = ground (arith, member-append j k q)

  Distinct-append : (k : K) (q : List K) → Distinct q → member k q ≡ false → Distinct (q ++ k ∷ [])
  Distinct-append k [] d h = (refl, tt)
  Distinct-append k (j ∷ q) (fresh, d) h =
      (member-append j k q ∙ apart, Distinct-append k q d (ground arith))
    where
      apart : (member j q || holds (eq j k)) ≡ false
      apart = ground arith

  front_self : (k : K) (q : List K) → member k (to_front k q) ≡ true
  front_self k q = ground (arith, member-append k k (retain k q))

  front_ne : (j k : K) (q : List K) → j ≢ k → member j (to_front k q) ≡ member j q
  front_ne j k q n = ground (arith, member-append j k (retain k q), member-retain_ne j k q n)

  pub ends_apart : (j k : K) (q : List K) → member j (q ++ k ∷ []) ≡ false → k ≢ j
  ends_apart j k q h = λ p. ground (arith, member-append j k q)

  pub retain-head : (k : K) (q : List K) → member k q ≡ false → retain k (k ∷ q) ≡ q
  unfolding retain
  retain-head k q h = rw (holds_yes k k refl) (retain_absent k q h)

  length-front : (k : K) (q : List K) → length (to_front k q) ≡ suc (length (retain k q))
  length-front k q = omega (arith, length-append (retain k q) (k ∷ []))

module _ {ℓ} {K V : Type ℓ} (eq : Discrete K) where
  remove_absent : (k : K) (m : List (K × V)) → find eq k m ≡ none → remove eq k m ≡ m
  unfolding find remove
  remove_absent k [] h = refl
  remove_absent k ((j, v) ∷ m) h = ground (arith, remove_absent k m)

  length-remove :
      (k : K) (m : List (K × V))
      → Unique eq m
      → length (remove eq k m) + (if is_some (find eq k m) then 1 else 0) ≡ length m
  unfolding find remove Unique
  length-remove k [] u = refl
  length-remove k ((j, v) ∷ m) (fresh, u) = elim (eq k j) [
    | yes p ↦
        let gone : find eq k m ≡ none = subst (λ x. find eq x m ≡ none) (sym p) fresh in
        rw (remove-hit eq k j v m p, find-hit eq k j v m p, remove_absent k m gone) (omega arith)
    | no n ↦
        rw (remove-miss eq k j v m n, find-miss eq k j v m n) (omega (arith, length-remove k m u))
  ]

  pub length-remove-le :
      (k : K) (m : List (K × V)) → Unique eq m → length (remove eq k m) ≤ length m
  length-remove-le k m u = let h = length-remove k m u in omega arith

  -- The queue holds the keys of the map, each once.
  pub record Tracks (q : List K) (m : List (K × V)) : Type ℓ where
    pub distinct : Distinct eq q
    pub unique : Unique eq m
    pub same_length : length m ≡ length q
    pub same_keys : (k : K) → member eq k q ≡ is_some (find eq k m)

  lengths :
      (k : K) (q : List K) (m : List (K × V))
      → Tracks q m
      → length (remove eq k m) ≡ length (retain eq k q)
  lengths k q m t =
      let a = length-retain eq k q t.distinct in
      let b = length-remove k m t.unique in
      let c = t.same_length in
      let d : ◌≡◌ {A = ℕ} (if member eq k q then 1 else 0)
          (if is_some (find eq k m) then 1 else 0) =
        ap (λ b. if b then 1 else 0) (t.same_keys k) in
      omega arith

  kept :
      (k : K) (q : List K) (m : List (K × V))
      → Tracks q m
      → member eq k q ≡ true
      → suc (length (retain eq k q)) ≡ length q
  kept k q m t h =
      let a : length (retain eq k q) + (if true then 1 else 0) ≡ length q =
        subst (λ b. length (retain eq k q) + (if b then 1 else 0) ≡ length q) h
          (length-retain eq k q t.distinct) in
      omega arith

  length-insert :
      (k : K) (v : V) (m : List (K × V)) → length (insert eq k v m) ≡ suc (length (remove eq k m))
  unfolding insert
  length-insert k v m = refl

  pub Tracks-insert :
      (k : K) (v : V) (q : List K) (m : List (K × V))
      → Tracks q m
      → Tracks (to_front eq k q) (insert eq k v m)
  Tracks-insert k v q m t = record {
    distinct =
        Distinct-append eq k _ (Distinct-retain eq k q t.distinct) (member-retain_self eq k q);
    unique = insert-Unique eq k v m t.unique;
    same_length = omega (arith, length-front eq k q, lengths k q m t, length-insert k v m);
    same_keys = λ j. elim (eq j k) [
      | yes p ↦ rw p (front_self eq k q ∙ ap is_some (sym (find-insert_self eq k v m)))
      | no n ↦ front_ne eq j k q n ∙ t.same_keys j ∙ ap is_some (sym (find-insert_ne eq j k v m n))
    ];
  }

  pub Tracks-remove :
      (k : K) (q : List K) (m : List (K × V)) → Tracks q m → Tracks (retain eq k q) (remove eq k m)
  Tracks-remove k q m t = record {
    distinct = Distinct-retain eq k q t.distinct;
    unique = remove-Unique eq k m t.unique;
    same_length = lengths k q m t;
    same_keys = λ j. elim (eq j k) [
      | yes p ↦ rw p (member-retain_self eq k q ∙ ap is_some (sym (find-remove_self eq k m)))
      | no n ↦
          member-retain_ne eq j k q n ∙ t.same_keys j ∙ ap is_some (sym (find-remove_ne eq j k m n))
    ];
  }

  pub Tracks-touch :
      (k : K) (q : List K) (m : List (K × V))
      → Tracks q m
      → member eq k q ≡ true
      → Tracks (to_front eq k q) m
  Tracks-touch k q m t h = record {
    distinct =
        Distinct-append eq k _ (Distinct-retain eq k q t.distinct) (member-retain_self eq k q);
    unique = t.unique;
    same_length = omega (arith, length-front eq k q, kept k q m t h, t.same_length);
    same_keys = λ j. elim (eq j k) [
      | yes p ↦ rw p (front_self eq k q ∙ sym h ∙ t.same_keys k)
      | no n ↦ front_ne eq j k q n ∙ t.same_keys j
    ];
  }

  -- The least recently used key leaves both.
  pub Tracks-pop :
      (k : K) (q : List K) (m : List (K × V)) → Tracks (k ∷ q) m → Tracks q (remove eq k m)
  Tracks-pop k q m t =
      subst (λ x. Tracks x (remove eq k m)) (popped t.distinct) (Tracks-remove k (k ∷ q) m t)
    where
      popped : Distinct eq (k ∷ q) → retain eq k (k ∷ q) ≡ q
      popped (fresh, d) = retain-head eq k q fresh
