-- ===== src/Base/Assoc.antt =====
-- Association lists for the hash maps: `get`, `insert` and `remove`, with at most one entry for a key.
use mathlib.Core.List.{List, [], ◌∷◌}
use mathlib.Core.Logic.{◌≢◌, ◌⊎◌, inl, inr}
use mathlib.Core.Option.{Option, none, some, some-injective}
use mathlib.Core.Path.{◌≡◌, refl, ◌∙◌, sym, ap, subst}
use native.Mathlib.Omega.{arith}

module _ {ℓ κ} {K : Type ℓ} {V : Type κ} (eq : Discrete K) where
  unfoldable pub find : K → List (K × V) → Option V
  find k [] = none
  find k ((j, v) ∷ m) = elim (eq k j) [ yes _ ↦ some v | no _ ↦ find k m ]

  unfoldable pub remove : K → List (K × V) → List (K × V)
  remove k [] = []
  remove k ((j, v) ∷ m) =
      let rest = remove k m in elim (eq k j) [ yes _ ↦ rest | no _ ↦ (j, v) ∷ rest ]

  -- The entry of `k` is the first of the list, whether it is new or not.
  unfoldable pub insert : K → V → List (K × V) → List (K × V)
  insert k v m = (k, v) ∷ remove k m

  pub find-remove_self : (k : K) (m : List (K × V)) → find k (remove k m) ≡ none
  unfolding find remove
  find-remove_self k [] = refl
  find-remove_self k ((j, v) ∷ m) = ground (arith, find-remove_self k m)

  pub find-remove_ne : (k j : K) (m : List (K × V)) → k ≢ j → find k (remove j m) ≡ find k m
  unfolding find remove
  find-remove_ne k j [] n = refl
  find-remove_ne k j ((i, v) ∷ m) n = ground (arith, find-remove_ne k j m n)

  pub find-insert_self : (k : K) (v : V) (m : List (K × V)) → find k (insert k v m) ≡ some v
  unfolding find insert
  find-insert_self k v m = ground arith

  pub find-insert_ne :
      (k j : K) (v : V) (m : List (K × V)) → k ≢ j → find k (insert j v m) ≡ find k m
  unfolding find insert
  find-insert_ne k j v m n = ground (arith, find-remove_ne k j m n)

  pub find-insert_cases :
      (k j : K) (v w : V) (m : List (K × V))
      → find k (insert j v m) ≡ some w
      → ((k ≡ j) × (v ≡ w)) ⊎ ((k ≢ j) × (find k m ≡ some w))
  find-insert_cases k j v w m p = elim (eq k j) [
    | yes q ↦ inl (
      q,
      some-injective v w
          (sym (find-insert_self j v m) ∙ ap (λ x. find x (insert j v m)) (sym q) ∙ p),
    )
    | no n ↦ inr (n, sym (find-insert_ne k j v m n) ∙ p)
  ]

  pub find-hit : (k j : K) (v : V) (m : List (K × V)) → k ≡ j → find k ((j, v) ∷ m) ≡ some v
  unfolding find
  find-hit k j v m p = ground arith

  pub find-miss : (k j : K) (v : V) (m : List (K × V)) → k ≢ j → find k ((j, v) ∷ m) ≡ find k m
  unfolding find
  find-miss k j v m p = ground arith

  remove-nil : (k : K) → remove k [] ≡ []
  unfolding remove
  remove-nil k = refl

  pub remove-hit : (k j : K) (v : V) (m : List (K × V)) → k ≡ j → remove k ((j, v) ∷ m) ≡ remove k m
  unfolding remove
  remove-hit k j v m p = ground arith

  pub remove-miss :
      (k j : K) (v : V) (m : List (K × V)) → k ≢ j → remove k ((j, v) ∷ m) ≡ (j, v) ∷ remove k m
  unfolding remove
  remove-miss k j v m p = ground arith

  pub remove-absent : (k : K) (m : List (K × V)) → find k m ≡ none → remove k m ≡ m
  unfolding find remove
  remove-absent k [] p = refl
  remove-absent k ((j, v) ∷ m) p = ground (arith, remove-absent k m)

  -- No key has two entries.
  unfoldable pub Unique : List (K × V) → Type κ
  Unique [] = Unit
  Unique ((k, _) ∷ m) = (find k m ≡ none) × Unique m

  pub remove-Unique : (k : K) (m : List (K × V)) → Unique m → Unique (remove k m)
  unfolding Unique
  remove-Unique k [] u = subst Unique (sym (remove-nil k)) tt
  remove-Unique k ((j, v) ∷ m) (fresh, u) = elim (eq k j) [
    | yes p ↦ subst Unique (sym (remove-hit k j v m p)) (remove-Unique k m u)
    | no n ↦
        subst Unique (sym (remove-miss k j v m n))
          (find-remove_ne j k m (λ p. n (sym p)) ∙ fresh, remove-Unique k m u)
  ]

  pub insert-Unique : (k : K) (v : V) (m : List (K × V)) → Unique m → Unique (insert k v m)
  unfolding Unique insert
  insert-Unique k v m u = (find-remove_self k m, remove-Unique k m u)
