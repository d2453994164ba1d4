-- ===== src/Prelude/Members.antt =====
-- Membership in mapped lists, and in lists without repetition.
use mathlib.Core.Path.{◌≡◌, refl, ap, sym, subst}
use mathlib.Core.Logic.{◌⊎◌, ◌↔◌, inl, inr}
use mathlib.Core.Bool.{Bool, true, false}
use mathlib.Core.List.{List, [], ◌∷◌, ◌++◌, map}
use native.Mathlib.Omega.{arith}
use haru_quant_cbot.Prelude.Tests.{if◌then◌else◌, Bool-cases}
use haru_quant_cbot.Prelude.Lists.{In, any_of, any_of_iff, count_if}

-- `SELECT DISTINCT`: the last of equal elements stays.
abbrev pub distinct : {A : Type 0} → (A → A → Bool) → List A → List A
distinct same [] = []
distinct same (x ∷ xs) = if any_of (same x) xs then distinct same xs else x ∷ distinct same xs

distinct-In :
    {A : Type 0} (same : A → A → Bool) (y : A) (xs : List A) → In y (distinct same xs) → In y xs
distinct-In same y [] i = i
distinct-In same y (x ∷ xs) i = ground (arith, distinct-In same y xs)

In-distinct :
    {A : Type 0} (same : A → A → Bool)
    → ((a b : A) → same a b ≡ true → a ≡ b)
    → (y : A) (xs : List A) → In y xs
    → In y (distinct same xs)
In-distinct same sound y [] i = i
In-distinct same sound y (x ∷ xs) i = elim (Bool-cases (any_of (same x) xs)) [
  | inl again ↦
      let (z, j, eq) = (any_of_iff (same x) xs).0 again in
      let x_in : In x xs = subst (λ w. In w xs) (sym (sound x z eq)) j in
      rw again (In-distinct same sound y xs (moved x_in i))
  | inr new ↦ rw new (keep_head (In-distinct same sound y xs) i)
]
  where
    moved : In x xs → (y ≡ x) ⊎ In y xs → In y xs
    moved x_in (inl e) = subst (λ w. In w xs) (sym e) x_in
    moved x_in (inr j) = j

    keep_head :
        (In y xs → In y (distinct same xs)) → (y ≡ x) ⊎ In y xs → (y ≡ x) ⊎ In y (distinct same xs)
    keep_head rest (inl e) = inl e
    keep_head rest (inr j) = inr (rest j)

-- With a sound test the elements stay.
pub In-distinct_iff :
    {A : Type 0} (same : A → A → Bool)
    → ((a b : A) → same a b ≡ true → a ≡ b)
    → (y : A) (xs : List A) → In y (distinct same xs) ↔ In y xs
In-distinct_iff same sound y xs = (distinct-In same y xs, In-distinct same sound y xs)

In-map-find :
    {A B : Type 0} (f : A → B) (y : B) (xs : List A)
    → In y (map f xs)
    → (x : A) × In x xs × (y ≡ f x)
In-map-find f y [] i = absurd i
In-map-find f y (x ∷ xs) (inl e) = (x, inl refl, e)
In-map-find f y (x ∷ xs) (inr i) = let (z, j, e) = In-map-find f y xs i in (z, inr j, e)

In-map-In : {A B : Type 0} (f : A → B) (x : A) (xs : List A) → In x xs → In (f x) (map f xs)
In-map-In f x [] i = absurd i
In-map-In f x (z ∷ xs) (inl e) = inl (ap f e)
In-map-In f x (z ∷ xs) (inr i) = inr (In-map-In f x xs i)

pub In-map_iff :
    {A B : Type 0} (f : A → B) (y : B) (xs : List A)
    → In y (map f xs) ↔ ((x : A) × In x xs × (y ≡ f x))
In-map_iff f y xs =
    (In-map-find f y xs, λ h. subst (λ w. In w (map f xs)) (sym h.2) (In-map-In f h.0 xs h.1))

count-zero-none :
    {A : Type 0} (p : A → Bool) (xs : List A) → count_if p xs ≡ 0 → (x : A) → In x xs → p x ≡ false
count-zero-none p [] h y i = absurd i
count-zero-none p (x ∷ xs) h y i = ground (arith, count-zero-none p xs (ground arith) y)

none-count-zero :
    {A : Type 0} (p : A → Bool) (xs : List A)
    → ((x : A) → In x xs → p x ≡ false)
    → count_if p xs ≡ 0
none-count-zero p [] h = refl
none-count-zero p (x ∷ xs) h =
    ground (arith, h x (inl refl), none-count-zero p xs (λ y i. h y (inr i)))

-- A count is zero exactly if no element passes.
pub count_if-zero_iff :
    {A : Type 0} (p : A → Bool) (xs : List A)
    → (count_if p xs ≡ 0) ↔ ((x : A) → In x xs → p x ≡ false)
count_if-zero_iff p xs = (count-zero-none p xs, none-count-zero p xs)

-- An element of two lists put together is in one of them.
pub In-append_iff : {A : Type 0} (a : A) (xs ys : List A) → In a (xs ++ ys) ↔ (In a xs ⊎ In a ys)
In-append_iff a [] ys = (λ i. inr i, λ h. elim h [ inl i ↦ absurd i | inr i ↦ i ])
In-append_iff a (x ∷ xs) ys = ground (arith, In-append_iff a xs ys)
