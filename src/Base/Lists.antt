-- ===== src/Base/Lists.antt =====
-- Lists measured by native numbers, and a predicate on all elements.
use Prim.Native.Nat.{ℕ, suc, ◌+◌}
use mathlib.Core.List.{List, [], ◌∷◌, ◌++◌}
use mathlib.Core.Path.{◌≡◌, refl}
use native.Mathlib.Omega.{arith}

module _ {ℓ} {A : Type ℓ} where
  abbrev pub length : List A → ℕ
  length [] = 0
  length (x ∷ xs) = suc (length xs)

  pub length-append : (xs ys : List A) → length (xs ++ ys) ≡ length xs + length ys
  length-append [] ys = omega arith
  length-append (x ∷ xs) ys = omega (arith, length-append xs ys)

abbrev pub All {ℓ κ} : {A : Type ℓ} → (A → Type κ) → List A → Type κ
All P [] = Unit
All P (x ∷ xs) = P x × All P xs

-- Equality of lists, as it is computed.
both {ℓ} :
    {A : Type ℓ} {x y : A} {xs ys : List A}
    → Dec (x ≡ y)
    → Dec (xs ≡ ys)
    → Dec (◌≡◌ {A = List A} (x ∷ xs) (y ∷ ys))
both (yes p) (yes q) = yes (λ i. p i ∷ q i)
both (yes _) (no n) = no (λ e. n (cc e))
both (no n) _ = no (λ e. n (cc e))

unfoldable pub list_eq {ℓ} : {A : Type ℓ} → Discrete A → Discrete (List A)
unfolding both
list_eq d [] [] = yes refl
list_eq d [] (y ∷ ys) = no (λ e. cc e)
list_eq d (x ∷ xs) [] = no (λ e. cc e)
list_eq d (x ∷ xs) (y ∷ ys) = both (d x y) (list_eq d xs ys)
