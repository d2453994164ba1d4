-- ===== src/Inputs/Symbols.antt =====
-- The symbols that `validate_symbol` of src/hqt/foundation/utils/validation_utils.py lets through.
use mathlib.Core.Path.{subst}
use haru_quant_cbot.Prelude.Text.{Text}
use haru_quant_cbot.Prelude.{
  nat_beq_iff, refl, ap, nat_beq, inr, sym, ltb, Bool-cases, arith, length, inl, All, ◌≤◌, ◌∷◌,
  false, ◌++◌, keep, not, ok, ◌⊎◌, true, Bool, ◌≡◌, ◌≢◌, any_of, In, ℕ, [],
}
use haru_quant_cbot.Inputs.{validate_symbol, matches_symbol, is_symbol_char, is_separator, is_upper}

-- Capitals and digits.
abbrev pub IsPlain : Text → Type 0
IsPlain t = (c : ℕ) → In c t → is_symbol_char c ≡ true

-- One character at least, all of them capitals and digits but for a newline at the end.
abbrev pub IsSymbolText : Text → Type 0
IsSymbolText t = (body : Text) × (body ≢ []) × IsPlain body × ((t ≡ body) ⊎ (t ≡ body ++ 10 ∷ []))

IsPlain-cons : (c : ℕ) (t : Text) → is_symbol_char c ≡ true → IsPlain t → IsPlain (c ∷ t)
IsPlain-cons c t h k d (inl e) = subst (λ x. is_symbol_char x ≡ true) (sym e) h
IsPlain-cons c t h k d (inr i) = k d i

IsPlain-nil : IsPlain []
IsPlain-nil c i = absurd i

matches_symbol_sound : (t : Text) → matches_symbol t ≡ true → IsSymbolText t
unfolding matches_symbol
matches_symbol_sound [] h = cc
matches_symbol_sound (c ∷ []) h = (c ∷ [], λ e. cc, IsPlain-cons c [] h IsPlain-nil, inl refl)
matches_symbol_sound (c ∷ d ∷ []) h = elim (Bool-cases (is_symbol_char d)) [
  | inl e ↦ (
    c ∷ d ∷ [],
    λ q. cc,
    IsPlain-cons c (d ∷ []) (ground arith) (IsPlain-cons d [] e IsPlain-nil),
    inl refl,
  )
  | inr e ↦
      let newline : d ≡ 10 = ground arith in
      (
        c ∷ [],
        λ q. cc,
        IsPlain-cons c [] (ground arith) IsPlain-nil,
        inr (ap (λ x. c ∷ x ∷ []) newline),
      )
]
matches_symbol_sound (c ∷ d ∷ e ∷ cs) h =
    let (body, some_body, plain, same) = matches_symbol_sound (d ∷ e ∷ cs) (ground arith) in
    (
      c ∷ body,
      λ q. cc,
      IsPlain-cons c body (ground arith) plain,
      elim same [ inl q ↦ inl (ap (◌∷◌ c) q) | inr q ↦ inr (ap (◌∷◌ c) q) ],
    )

each_upper : (t : Text) → any_of (λ c. not (is_upper c)) t ≡ false → All (λ c. is_upper c ≡ true) t
each_upper [] h = tt
each_upper (c ∷ t) h = (ground arith, each_upper t (ground arith))

-- A symbol that is accepted is the text in capitals without its separators, has two to twelve
-- characters, and these are capitals and digits, but for the last, which may be a newline; in strict
-- mode it has exactly six characters, all of them capitals.
pub validate_symbol-accepted :
    (upper : Text → Text) (symbol : Text) (strict : Bool) (accepted : Text)
    → validate_symbol upper symbol strict ≡ ok accepted
    → (accepted ≡ keep (λ c. not (is_separator c)) (upper symbol))
      × (2 ≤ length accepted)
      × (length accepted ≤ 12)
      × IsSymbolText accepted
      × (strict ≡ true → (length accepted ≡ 6) × All (λ c. is_upper c ≡ true) accepted)
unfolding validate_symbol
validate_symbol-accepted upper symbol strict accepted h =
    let normalized = keep (λ c. not (is_separator c)) (upper symbol) in
    let same : accepted ≡ normalized = ground (arith, h) in
    let long : ltb (length normalized) 2 ≡ false = ground (arith, h) in
    let short : ltb 12 (length normalized) ≡ false = ground (arith, h) in
    let matched : matches_symbol normalized ≡ true = ground (arith, h) in
    let strictly : strict ≡ true
        → (nat_beq (length normalized) 6 ≡ true)
          × (any_of (λ c. not (is_upper c)) normalized ≡ false) =
      λ s. ground (arith, h, s) in
    subst
      (λ t.
        (t ≡ normalized)
        × (2 ≤ length t)
        × (length t ≤ 12)
        × IsSymbolText t
        × (strict ≡ true → (length t ≡ 6) × All (λ c. is_upper c ≡ true) t))
      (sym same)
      (
        refl,
        ground arith,
        ground arith,
        matches_symbol_sound normalized matched,
        λ s. (
          (nat_beq_iff (length normalized) 6).0 (strictly s).0,
          each_upper normalized (strictly s).1,
        ),
      )
