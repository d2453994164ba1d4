-- ===== src/Prelude/Lists.antt =====
-- Lists measured by native numbers, and the loops over lists that the components share.
use Prim.Native.Nat.{ℕ, zero, suc, ◌-◌, ◌+◌, ◌≤◌}
use mathlib.Core.Path.{◌≡◌, refl, ap, sym, subst}
use mathlib.Core.Logic.{◌⊎◌, ◌↔◌, inl, inr}
use mathlib.Core.Bool.{Bool, true, false, ◌||◌}
use mathlib.Core.List.{List, [], ◌∷◌, ◌++◌, map}
use native.Mathlib.Omega.{arith}
use haru_quant_cbot.Prelude.Tests.{if◌then◌else◌, Bool-cases, ltb}

module _ {ℓ} {A : Type ℓ} where
  abbrev pub length : List A → ℕ
  length [] = 0
  length (x ∷ xs) = suc (length xs)

  pub length-append : (xs ys : List A) → length (xs ++ ys) ≡ length xs + length ys
  length-append [] ys = omega arith
  length-append (x ∷ xs) ys = omega (arith, length-append xs ys)

  -- `[x for x in xs if p(x)]`
  abbrev pub keep : (A → Bool) → List A → List A
  keep p [] = []
  keep p (x ∷ xs) = if p x then x ∷ keep p xs else keep p xs

  -- `sum(1 for x in xs if p(x))`
  abbrev pub count_if : (A → Bool) → List A → ℕ
  count_if p [] = 0
  count_if p (x ∷ xs) = (if p x then 1 else 0) + count_if p xs

  -- `any(p(x) for x in xs)`
  abbrev pub any_of : (A → Bool) → List A → Bool
  any_of p [] = false
  any_of p (x ∷ xs) = p x || any_of p xs

  pub length-keep : (p : A → Bool) (xs : List A) → length (keep p xs) ≡ count_if p xs
  length-keep p [] = refl
  length-keep p (x ∷ xs) = ground (arith, length-keep p xs)

  pub count_if-le : (p : A → Bool) (xs : List A) → count_if p xs ≤ length xs
  count_if-le p [] = omega arith
  count_if-le p (x ∷ xs) = ground (arith, count_if-le p xs)

  -- A predicate at each element.
  abbrev pub All {κ} : (A → Type κ) → List A → Type κ
  All P [] = Unit
  All P (x ∷ xs) = P x × All P xs

  pub All-append {κ} : (P : A → Type κ) (xs ys : List A) → All P xs → All P ys → All P (xs ++ ys)
  All-append P [] ys h k = k
  All-append P (x ∷ xs) ys h k = (h.0, All-append P xs ys h.1 k)

pub length-map {ℓ κ} :
    {A : Type ℓ} {B : Type κ} (f : A → B) (xs : List A) → length (map f xs) ≡ length xs
length-map f [] = refl
length-map f (x ∷ xs) = ap suc (length-map f xs)

-- Membership as a type that computes, with the place of the element.
abbrev pub In : {A : Type 0} → A → List A → Type 0
In a [] = ⊥
In a (x ∷ xs) = (a ≡ x) ⊎ In a xs

any_of-find :
    {A : Type 0} (p : A → Bool) (xs : List A)
    → any_of p xs ≡ true
    → (x : A) × In x xs × (p x ≡ true)
any_of-find p [] h = cc
any_of-find p (x ∷ xs) h = elim (Bool-cases (p x)) [
  | inl e ↦ (x, inl refl, e)
  | inr e ↦ let (y, i, q) = any_of-find p xs (ground arith) in (y, inr i, q)
]

any_of-In :
    {A : Type 0} (p : A → Bool) (xs : List A) {y : A} → In y xs → p y ≡ true → any_of p xs ≡ true
any_of-In p [] i q = absurd i
any_of-In p (x ∷ xs) (inl e) q = ground arith
any_of-In p (x ∷ xs) (inr i) q = let rest = any_of-In p xs i q in ground arith

-- `any` holds exactly if some element passes the test.
pub any_of_iff :
    {A : Type 0} (p : A → Bool) (xs : List A)
    → (any_of p xs ≡ true) ↔ ((x : A) × In x xs × (p x ≡ true))
any_of_iff p xs = (any_of-find p xs, λ h. any_of-In p xs h.1 h.2)

pub any_of-map :
    {A B : Type 0} (p : B → Bool) (f : A → B) (xs : List A)
    → any_of p (map f xs) ≡ any_of (λ x. p (f x)) xs
any_of-map p f [] = refl
any_of-map p f (x ∷ xs) = ground (arith, any_of-map p f xs)

keep-In :
    {A : Type 0} (p : A → Bool) (y : A) (xs : List A) → In y (keep p xs) → In y xs × (p y ≡ true)
keep-In p y [] i = absurd i
keep-In p y (x ∷ xs) i = ground (arith, keep-In p y xs)

In-keep :
    {A : Type 0} (p : A → Bool) (y : A) (xs : List A) → In y xs → p y ≡ true → In y (keep p xs)
In-keep p y [] i q = absurd i
In-keep p y (x ∷ xs) i q = ground (arith, In-keep p y xs)

-- A filter keeps exactly the elements that pass.
pub In-keep_iff :
    {A : Type 0} (p : A → Bool) (y : A) (xs : List A) → In y (keep p xs) ↔ (In y xs × (p y ≡ true))
In-keep_iff p y xs = (keep-In p y xs, λ h. In-keep p y xs h.0 h.1)

pub count_if-pos : {A : Type 0} (p : A → Bool) (xs : List A) → ltb 0 (count_if p xs) ≡ any_of p xs
count_if-pos p [] = refl
count_if-pos p (x ∷ xs) = ground (arith, count_if-pos p xs)

module _ {ℓ} {A : Type ℓ} where
  abbrev pub take : ℕ → List A → List A
  take zero xs = []
  take (suc n) [] = []
  take (suc n) (x ∷ xs) = x ∷ take n xs

  abbrev pub drop : ℕ → List A → List A
  drop zero xs = xs
  drop (suc n) [] = []
  drop (suc n) (x ∷ xs) = drop n xs

  pub take-append-drop : (n : ℕ) (xs : List A) → take n xs ++ drop n xs ≡ xs
  take-append-drop zero xs = refl
  take-append-drop (suc n) [] = refl
  take-append-drop (suc n) (x ∷ xs) = ap (◌∷◌ x) (take-append-drop n xs)

  pub length-drop : (n : ℕ) (xs : List A) → length (drop n xs) ≡ length xs - n
  length-drop zero xs = omega arith
  length-drop (suc n) [] = omega arith
  length-drop (suc n) (x ∷ xs) = omega (arith, length-drop n xs)

pub List-cases {ℓ} :
    {A : Type ℓ} (xs : List A) → (xs ≡ []) ⊎ ((x : A) × (rest : List A) × (xs ≡ x ∷ rest))
List-cases [] = inl refl
List-cases (x ∷ xs) = inr (x, xs, refl)

pub In-All : {A : Type 0} (P : A → Type 0) (xs : List A) {x : A} → All P xs → In x xs → P x
In-All P [] h i = absurd i
In-All P (x ∷ xs) h (inl e) = subst P (sym e) h.0
In-All P (x ∷ xs) h (inr i) = In-All P xs h.1 i
