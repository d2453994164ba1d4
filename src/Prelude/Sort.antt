-- ===== src/Prelude/Sort.antt =====
-- A stable sort by a total test, and its laws: `sorted`, `ORDER BY`.
use Prim.Native.Nat.{suc}
use mathlib.Core.Path.{◌≡◌, refl}
use mathlib.Core.Logic.{◌⊎◌, ◌↔◌}
use mathlib.Core.Bool.{Bool, true}
use mathlib.Core.List.{List, [], ◌∷◌}
use native.Mathlib.Omega.{arith}
use haru_quant_cbot.Prelude.Tests.{if◌then◌else◌}
use haru_quant_cbot.Prelude.Lists.{In, length}

module _ {A : Type 0} (le : A → A → Bool) where
  unfoldable pub place : A → List A → List A
  place x [] = x ∷ []
  place x (y ∷ ys) = if le x y then x ∷ y ∷ ys else y ∷ place x ys

  unfoldable pub sort : List A → List A
  unfolding place
  sort [] = []
  sort (x ∷ xs) = place x (sort xs)

  -- Each element is at most the next.
  abbrev pub IsSorted : List A → Type 0
  IsSorted [] = Unit
  IsSorted (x ∷ []) = Unit
  IsSorted (x ∷ y ∷ ys) = (le x y ≡ true) × IsSorted (y ∷ ys)

  In-place : (a x : A) (ys : List A) → In a (place x ys) → (a ≡ x) ⊎ In a ys
  unfolding place
  In-place a x [] i = i
  In-place a x (y ∷ ys) i = ground (arith, In-place a x ys)

  place-In : (a x : A) (ys : List A) → (a ≡ x) ⊎ In a ys → In a (place x ys)
  unfolding place
  place-In a x [] i = i
  place-In a x (y ∷ ys) i = ground (arith, place-In a x ys)

  In-sort : (a : A) (xs : List A) → In a (sort xs) → In a xs
  unfolding sort
  In-sort a [] i = i
  In-sort a (x ∷ xs) i = ground (arith, In-place a x (sort xs), In-sort a xs)

  sort-In : (a : A) (xs : List A) → In a xs → In a (sort xs)
  unfolding sort
  sort-In a [] i = i
  sort-In a (x ∷ xs) i = ground (arith, place-In a x (sort xs), sort-In a xs)

  -- The sort keeps the elements.
  pub In-sort_iff : (a : A) (xs : List A) → In a (sort xs) ↔ In a xs
  In-sort_iff a xs = (In-sort a xs, sort-In a xs)

  length-place : (x : A) (ys : List A) → length (place x ys) ≡ suc (length ys)
  unfolding place
  length-place x [] = refl
  length-place x (y ∷ ys) = ground (arith, length-place x ys)

  pub length-sort : (xs : List A) → length (sort xs) ≡ length xs
  unfolding sort
  length-sort [] = refl
  length-sort (x ∷ xs) = ground (arith, length-place x (sort xs), length-sort xs)

  module _ (total : (a b : A) → (le a b ≡ true) ⊎ (le b a ≡ true)) where
    place-IsSorted : (x : A) (ys : List A) → IsSorted ys → IsSorted (place x ys)
    unfolding place
    place-IsSorted x [] s = tt
    place-IsSorted x (y ∷ []) s = ground (arith, total x y)
    place-IsSorted x (y ∷ z ∷ zs) s =
        ground (arith, total x y, total x z, place-IsSorted x (z ∷ zs) s.1)

    -- By a total test the result is in order.
    pub sort-IsSorted : (xs : List A) → IsSorted (sort xs)
    unfolding sort
    sort-IsSorted [] = tt
    sort-IsSorted (x ∷ xs) = place-IsSorted x (sort xs) (sort-IsSorted xs)
