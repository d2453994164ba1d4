-- ===== src/Prelude/Text.antt =====
-- Python's `str` as the list of its code points, with the operations that the source uses.
use Prim.Native.Char.{code}
use Prim.Native.String.{String}
use mathlib.Core.Path.{◌≡◌, refl, ap}
use mathlib.Core.Logic.{◌↔◌, ◌≢◌, ◌⊎◌, inl, inr}
use mathlib.Core.Bool.{Bool, true, false, ◌&&◌, ◌||◌}
use mathlib.Core.List.{List, [], ◌∷◌, ◌++◌}
use Prim.Native.Nat.{ℕ, zero, suc, ◌+◌, ◌/◌, ◌%◌}
use native.Mathlib.Omega.{arith}
use haru_quant_cbot.Prelude.Tests.{ltb, nat_beq, if◌then◌else◌, Bool-cases}
use haru_quant_cbot.Prelude.Equality.{HasEq}

abbrev pub Text : Type 0
Text = List ℕ

-- A literal.
abbrev pub str : String → Text
str String.[] = []
str (String.◌∷◌ c s) = code c ∷ str s

unfoldable pub text_beq : Text → Text → Bool
text_beq [] [] = true
text_beq [] (d ∷ t) = false
text_beq (c ∷ s) [] = false
text_beq (c ∷ s) (d ∷ t) = nat_beq c d && text_beq s t

pub text_beq_iff : (s t : Text) → (text_beq s t ≡ true) ↔ (s ≡ t)
unfolding text_beq
text_beq_iff [] [] = (λ _. refl, λ _. refl)
text_beq_iff [] (d ∷ t) = (λ h. cc, λ h. cc)
text_beq_iff (c ∷ s) [] = (λ h. cc, λ h. cc)
text_beq_iff (c ∷ s) (d ∷ t) = ground (arith, text_beq_iff s t)

-- Literals are told apart by the test.
pub text_ne : (s t : Text) → text_beq s t ≡ false → s ≢ t
text_ne s t h e = let same = (text_beq_iff s t).1 e in ground arith

instance abbrev pub text_eq : HasEq Text
text_eq = record { beq = text_beq; beq_iff = text_beq_iff }

-- `s <= t`, by code points.
unfoldable pub text_leb : Text → Text → Bool
text_leb [] t = true
text_leb (c ∷ s) [] = false
text_leb (c ∷ s) (d ∷ t) = ltb c d || nat_beq c d && text_leb s t

pub text_leb_total : (s t : Text) → (text_leb s t ≡ true) ⊎ (text_leb t s ≡ true)
unfolding text_leb
text_leb_total [] t = inl refl
text_leb_total (c ∷ s) [] = inr refl
text_leb_total (c ∷ s) (d ∷ t) = ground (arith, text_leb_total s t)

-- The digits of a number in front of `rest`; `fuel` bounds their number.
unfoldable pub decimal_from : ℕ → ℕ → Text → Text
decimal_from zero n rest = rest
decimal_from (suc fuel) n rest =
    let more = decimal_from fuel (n / 10) ((b'0' + n % 10) ∷ rest) in
    if ltb n 10 then (b'0' + n) ∷ rest else more

-- `str(n)`; a number has no more digits than n + 1.
unfoldable pub decimal : ℕ → Text
unfolding decimal_from
decimal n = decimal_from (suc n) n []

-- `text.split(separator)`, for a separator of one character.
unfoldable pub split_on : ℕ → Text → List Text
split_on separator [] = [] ∷ []
split_on separator (c ∷ cs) = elim (split_on separator cs) [
  | [] ↦ []
  | part ∷ parts ↦ if nat_beq c separator then [] ∷ part ∷ parts else (c ∷ part) ∷ parts
]

-- `text.startswith(part)`
unfoldable pub starts_with : Text → Text → Bool
starts_with text [] = true
starts_with [] (c ∷ part) = false
starts_with (d ∷ text) (c ∷ part) = nat_beq d c && starts_with text part

-- `part in text`
unfoldable pub contains_text : Text → Text → Bool
unfolding starts_with
contains_text part [] = starts_with [] part
contains_text part (c ∷ text) = starts_with (c ∷ text) part || contains_text part text

-- `text.endswith(part)`
unfoldable pub ends_with : Text → Text → Bool
unfolding text_beq
ends_with [] part = text_beq [] part
ends_with (c ∷ text) part = text_beq (c ∷ text) part || ends_with text part

pub starts_with_iff :
    (text part : Text) → (starts_with text part ≡ true) ↔ ((rest : Text) × (text ≡ part ++ rest))
unfolding starts_with
starts_with_iff text [] = (λ _. (text, refl), λ _. refl)
starts_with_iff [] (c ∷ part) = (λ h. cc, λ h. cc (h.1))
starts_with_iff (d ∷ text) (c ∷ part) = ground (arith, starts_with_iff text part)

contains_text_sound :
    (part text : Text)
    → contains_text part text ≡ true
    → (before : Text) × (after : Text) × (text ≡ before ++ (part ++ after))
unfolding contains_text
contains_text_sound part [] h = let (rest, e) = (starts_with_iff [] part).0 h in ([], rest, e)
contains_text_sound part (c ∷ text) h = elim (Bool-cases (starts_with (c ∷ text) part)) [
  | inl here ↦ let (rest, e) = (starts_with_iff (c ∷ text) part).0 here in ([], rest, e)
  | inr later ↦
      let (before, after, e) = contains_text_sound part text (ground arith) in
      (c ∷ before, after, ap (◌∷◌ c) e)
]

contains_text_here :
    (part text after : Text) → text ≡ part ++ after → contains_text part text ≡ true
unfolding contains_text
contains_text_here part [] after e = (starts_with_iff [] part).1 (after, e)
contains_text_here part (c ∷ text) after e =
    let found = (starts_with_iff (c ∷ text) part).1 (after, e) in ground arith

contains_text_complete :
    (part before after text : Text)
    → text ≡ before ++ (part ++ after)
    → contains_text part text ≡ true
unfolding contains_text
contains_text_complete part [] after text e = contains_text_here part text after e
contains_text_complete part (b ∷ before) after [] e = cc
contains_text_complete part (b ∷ before) after (c ∷ text) e =
    ground (arith, contains_text_complete part before after text)

-- `in` finds exactly the parts of a text.
pub contains_text_iff :
    (part text : Text)
    → (contains_text part text ≡ true)
      ↔ ((before : Text) × (after : Text) × (text ≡ before ++ (part ++ after)))
contains_text_iff part text =
    (contains_text_sound part text, λ h. contains_text_complete part h.0 h.1 text h.2)
