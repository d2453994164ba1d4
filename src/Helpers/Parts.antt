-- ===== src/Helpers/Parts.antt =====
-- The parts of a key, of src/hqt/foundation/utils/helpers.py, for a separator of one character.
use haru_quant_cbot.Prelude.Text.{text_beq, starts_with, Text}
use haru_quant_cbot.Helpers.{split_from}
use haru_quant_cbot.Prelude.{
  if◌then◌else◌, ap, refl, arith, false, ◌++◌, ◌≡◌, [], nat_beq, ◌∷◌, any_of, ℕ,
}

-- A key without the separator.
abbrev pub IsFree : ℕ → Text → Type 0
IsFree s k = any_of (nat_beq s) k ≡ false

pub split_from-key : (s : ℕ) (k : Text) → IsFree s k → split_from (s ∷ []) 0 k ≡ k ∷ []
unfolding split_from starts_with
split_from-key s [] h = refl
split_from-key s (c ∷ k) h = ground (arith, split_from-key s k (ground arith))

pub split_from-joined :
    (s : ℕ) (k q : Text)
    → IsFree s k
    → split_from (s ∷ []) 0 (k ++ s ∷ q) ≡ k ∷ split_from (s ∷ []) 0 q
unfolding split_from starts_with
split_from-joined s [] q h = ground arith
split_from-joined s (c ∷ k) q h = ground (arith, split_from-joined s k q (ground arith))

-- The part of a key before its first separator.
unfoldable pub first_part : ℕ → Text → Text
first_part s [] = []
first_part s (c ∷ k) = let later = first_part s k in if nat_beq s c then [] else c ∷ later

pub first_part-key : (s : ℕ) (k : Text) → IsFree s k → first_part s k ≡ k
unfolding first_part
first_part-key s [] h = refl
first_part-key s (c ∷ k) h = ground (arith, first_part-key s k (ground arith))

pub first_part-joined : (s : ℕ) (k q : Text) → IsFree s k → first_part s (k ++ s ∷ q) ≡ k
unfolding first_part
first_part-joined s [] q h = ground arith
first_part-joined s (c ∷ k) q h = ground (arith, first_part-joined s k q (ground arith))

pub text_beq-joined : (s : ℕ) (k q r : Text) → text_beq (k ++ s ∷ q) (k ++ s ∷ r) ≡ text_beq q r
unfolding text_beq
text_beq-joined s [] q r = ground arith
text_beq-joined s (c ∷ k) q r = ground (arith, text_beq-joined s k q r)

pub joined_assoc : (s : ℕ) (p k q : Text) → (p ++ s ∷ k) ++ s ∷ q ≡ p ++ s ∷ (k ++ s ∷ q)
joined_assoc s [] k q = refl
joined_assoc s (c ∷ p) k q = ap (◌∷◌ c) (joined_assoc s p k q)
