-- ===== src/Base/Lists.antt =====
-- Lists measured, indexed and searched with native numbers.
use Prim.Native.Nat.{ℕ, zero, suc, ◌+◌, ◌-◌, ◌≤◌, ◌<◌}
use mathlib.Core.Path.{◌≡◌, refl}
use mathlib.Core.Logic.{◌≢◌, ite}
use mathlib.Core.List.{List, [], ◌∷◌, ◌++◌}
use mathlib.Core.Option.{Option, none, some}
use native.Mathlib.Decide.{ℕ_discrete}
use native.Mathlib.Omega.{arith}

module _ {ℓ} {A : Type ℓ} where
  abbrev pub length : List A → ℕ
  length [] = 0
  length (x ∷ xs) = suc (length xs)

  abbrev pub get_elem? : List A → ℕ → Option A
  get_elem? [] i = none
  get_elem? (x ∷ xs) zero = some x
  get_elem? (x ∷ xs) (suc i) = get_elem? xs i

  abbrev pub take : ℕ → List A → List A
  take zero xs = []
  take (suc n) [] = []
  take (suc n) (x ∷ xs) = x ∷ take n xs

  abbrev pub drop : ℕ → List A → List A
  drop zero xs = xs
  drop (suc n) [] = []
  drop (suc n) (x ∷ xs) = drop n xs

  abbrev pub replicate : ℕ → A → List A
  replicate zero a = []
  replicate (suc n) a = a ∷ replicate n a

  pub length-append : (xs ys : List A) → length (xs ++ ys) ≡ length xs + length ys
  length-append [] ys = omega arith
  length-append (x ∷ xs) ys = omega (arith, length-append xs ys)

  pub get_elem?-lt : (xs : List A) (i : ℕ) → i < length xs → (a : A) × (get_elem? xs i ≡ some a)
  get_elem?-lt [] i h = elim h [ ]
  get_elem?-lt (x ∷ xs) zero h = (x, refl)
  get_elem?-lt (x ∷ xs) (suc i) h = get_elem?-lt xs i (omega arith)

  -- the last element, `l[len(l)-1]`
  unfoldable pub last? : List A → Option A
  last? [] = none
  last? (x ∷ []) = some x
  last? (x ∷ y ∷ xs) = last? (y ∷ xs)

  pub last?-some : (x : A) (xs : List A) → (a : A) × (last? (x ∷ xs) ≡ some a)
  unfolding last?
  last?-some x [] = (x, refl)
  last?-some x (y ∷ xs) = last?-some y xs

module _ {A : Type 0} (dec : Discrete A) where
  -- how often an element occurs
  unfoldable pub count : A → List A → ℕ
  count a [] = 0
  count a (x ∷ xs) = ite (dec x a) 1 0 + count a xs

  -- the list without the first occurrence of the element
  unfoldable pub remove_first : A → List A → List A
  remove_first a [] = []
  remove_first a (x ∷ xs) = ite (dec x a) xs (x ∷ remove_first a xs)

  count-remove_first_self : (a : A) (xs : List A) → count a (remove_first a xs) ≡ count a xs - 1
  unfolding count remove_first
  count-remove_first_self a [] = omega arith
  count-remove_first_self a (x ∷ xs) = ground (arith, count-remove_first_self a xs)

  count-remove_first_ne : (a b : A) (xs : List A) → a ≢ b → count b (remove_first a xs) ≡ count b xs
  unfolding count remove_first
  count-remove_first_ne a b [] h = refl
  count-remove_first_ne a b (x ∷ xs) h = ground (arith, count-remove_first_ne a b xs)

  pub length-remove_first :
      (a : A) (xs : List A) → 0 < count a xs → length (remove_first a xs) + 1 ≡ length xs
  unfolding count remove_first
  length-remove_first a [] h = elim h [ ]
  length-remove_first a (x ∷ xs) h = ground (arith, length-remove_first a xs)

  remove_first_absent : (a : A) (xs : List A) → count a xs ≡ 0 → remove_first a xs ≡ xs
  unfolding count remove_first
  remove_first_absent a [] h = refl
  remove_first_absent a (x ∷ xs) h = ground (arith, remove_first_absent a xs)

  pub count-append : (a : A) (xs ys : List A) → count a (xs ++ ys) ≡ count a xs + count a ys
  unfolding count
  count-append a [] ys = omega arith
  count-append a (x ∷ xs) ys = omega (arith, count-append a xs ys)

  pub count-last? : (a : A) (xs : List A) → last? xs ≡ some a → 0 < count a xs
  unfolding count last?
  count-last? a [] h = cc
  count-last? a (x ∷ []) h = ground arith
  count-last? a (x ∷ y ∷ xs) h = omega (arith, count-last? a (y ∷ xs) h)

  pub count-remove_first :
      (a b : A) (xs : List A)
      → count b (remove_first a xs) ≡ ite (dec a b) (count b xs - 1) (count b xs)
  unfolding count remove_first
  count-remove_first a b [] = ground arith
  count-remove_first a b (x ∷ xs) = ground (arith, count-remove_first a b xs)

  -- Two lists that hold an element or lack it alike keep equal lengths when it is removed.
  pub length-remove_first_alike :
      (a : A) (xs ys : List A)
      → count a xs ≡ count a ys
      → length xs ≡ length ys
      → length (remove_first a xs) ≡ length (remove_first a ys)
  length-remove_first_alike a xs ys same sizes = elim (ℕ_discrete (count a xs) 0) [
    | yes p ↦ rw (remove_first_absent a xs p, remove_first_absent a ys (omega arith)) sizes
    | no p ↦
        omega
          (arith, length-remove_first a xs (omega arith), length-remove_first a ys (omega arith))
  ]

  length-remove_first-le : (a : A) (xs : List A) → length (remove_first a xs) ≤ length xs
  unfolding remove_first
  length-remove_first-le a [] = omega arith
  length-remove_first-le a (x ∷ xs) = ground (arith, length-remove_first-le a xs)
