-- ===== src/Prelude/Counts.antt =====
-- How often the elements of a list stand in it: lists with the same elements in any order, and lists
-- that are split into groups.
use mathlib.Core.Path.{subst}
use haru_quant_cbot.Prelude.Sort.{sort, place}
use haru_quant_cbot.Prelude.{
  ◌∙◌, length, sym, Bool-cases, any_of, inr, distinct, inl, ◌+◌, refl, ◌↔◌, true, ◌++◌, map, arith,
  ◌&&◌, if◌then◌else◌, keep, count_if, ◌∷◌, ℕ, [], In, ◌≡◌, List, Bool,
}

-- Each test counts alike in both lists, so they hold the same elements equally often.
abbrev pub SameElements : {A : Type 0} → List A → List A → Type 0
SameElements {A} xs ys = (p : A → Bool) → count_if p xs ≡ count_if p ys

count_if-true : {A : Type 0} (xs : List A) → count_if (λ x. true) xs ≡ length xs
count_if-true [] = refl
count_if-true (x ∷ xs) = ground (arith, count_if-true xs)

pub same_length : {A : Type 0} (xs ys : List A) → SameElements xs ys → length xs ≡ length ys
same_length xs ys h = sym (count_if-true xs) ∙ (h (λ x. true) ∙ count_if-true ys)

pub count_if-append :
    {A : Type 0} (p : A → Bool) (xs ys : List A)
    → count_if p (xs ++ ys) ≡ count_if p xs + count_if p ys
count_if-append p [] ys = omega arith
count_if-append p (x ∷ xs) ys = ground (arith, count_if-append p xs ys)

pub count_if-map :
    {A B : Type 0} (p : B → Bool) (f : A → B) (xs : List A)
    → count_if p (map f xs) ≡ count_if (λ x. p (f x)) xs
count_if-map p f [] = refl
count_if-map p f (x ∷ xs) = ground (arith, count_if-map p f xs)

pub count_if-keep :
    {A : Type 0} (p q : A → Bool) (xs : List A)
    → count_if p (keep q xs) ≡ count_if (λ x. q x && p x) xs
count_if-keep p q [] = refl
count_if-keep p q (x ∷ xs) = ground (arith, count_if-keep p q xs)

pub count_if-same :
    {A : Type 0} (p q : A → Bool) (xs : List A)
    → ((x : A) → In x xs → p x ≡ q x)
    → count_if p xs ≡ count_if q xs
count_if-same p q [] h = refl
count_if-same p q (x ∷ xs) h =
    ground (arith, h x (inl refl), count_if-same p q xs (λ y i. h y (inr i)))

count_if-place :
    {A : Type 0} (p : A → Bool) (le : A → A → Bool) (x : A) (xs : List A)
    → count_if p (place le x xs) ≡ count_if p (x ∷ xs)
unfolding place
count_if-place p le x [] = refl
count_if-place p le x (y ∷ xs) = ground (arith, count_if-place p le x xs)

pub sort-SameElements :
    {A : Type 0} (le : A → A → Bool) (xs : List A) → SameElements (sort le xs) xs
unfolding sort
sort-SameElements le [] p = refl
sort-SameElements le (x ∷ xs) p =
    ground (arith, count_if-place p le x (sort le xs), sort-SameElements le xs p)

module _ {A : Type 0} (same : A → A → Bool)
    (same_iff : (a b : A) → (same a b ≡ true) ↔ (a ≡ b)) where
  -- Without repetitions each element stands once.
  pub count_if-distinct :
      (y : A) (xs : List A)
      → count_if (same y) (distinct same xs) ≡ (if any_of (same y) xs then 1 else 0)
  count_if-distinct y [] = refl
  count_if-distinct y (x ∷ xs) = elim (Bool-cases (same y x)) [
    | inl e ↦
        let is : y ≡ x = (same_iff y x).0 e in
        let rest : count_if (same x) (distinct same xs) ≡ (if any_of (same x) xs then 1 else 0) =
          count_if-distinct x xs in
        let own : same x x ≡ true = (same_iff x x).1 refl in
        subst
          (λ z.
            count_if (same z) (distinct same (x ∷ xs))
            ≡ (if any_of (same z) (x ∷ xs) then 1 else 0))
          (sym is) (ground (arith, rest, own))
    | inr e ↦ ground (arith, e, count_if-distinct y xs)
  ]

module _ {A K : Type 0} (at : A → K → Bool) where
  -- The elements of all groups that pass a test.
  abbrev pub count_groups : (A → Bool) → List K → List A → ℕ
  count_groups q [] xs = 0
  count_groups q (k ∷ keys) xs = count_if (λ x. at x k && q x) xs + count_groups q keys xs

  no_groups : (q : A → Bool) (keys : List K) → count_groups q keys [] ≡ 0
  no_groups q [] = refl
  no_groups q (k ∷ keys) = ground (arith, no_groups q keys)

  one_more :
      (q : A → Bool) (x : A) (xs : List A) (keys : List K)
      → count_groups q keys (x ∷ xs)
        ≡ (if q x then count_if (at x) keys else 0) + count_groups q keys xs
  one_more q x xs [] = ground arith
  one_more q x xs (k ∷ keys) = ground (arith, one_more q x xs keys)

  -- Where each element belongs to one group, the groups together have the elements of the list.
  pub count_groups-all :
      (q : A → Bool) (keys : List K) (xs : List A)
      → ((x : A) → In x xs → count_if (at x) keys ≡ 1)
      → count_groups q keys xs ≡ count_if q xs
  count_groups-all q keys [] h = no_groups q keys
  count_groups-all q keys (x ∷ xs) h =
      ground (
        arith,
        one_more q x xs keys,
        h x (inl refl),
        count_groups-all q keys xs (λ y i. h y (inr i)),
      )
