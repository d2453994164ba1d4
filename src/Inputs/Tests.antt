-- ===== src/Inputs/Tests.antt =====
-- Symbols, volumes, integers and texts as users write them.
use haru_quant_cbot.Inputs.Volumes.{validate_volume-exact, IsRounded}
use haru_quant_cbot.Inputs.Symbols.{validate_symbol-accepted, IsSymbolText}
use haru_quant_cbot.Partition.{int_digits, int_of}
use haru_quant_cbot.Prelude.Int.{◌-ℤ◌, negsuc, pos}
use haru_quant_cbot.Prelude.{
  ◌<◌, ◌+◌, arith, min, max, All, ◌*◌, none, ℕ, length, false, ◌≤◌, ◌⊎◌, some, refl, [],
  value_error, raise, ok, not, ◌∷◌, keep, ◌++◌, true, ◌≡◌,
}
use haru_quant_cbot.Prelude.Text.{Text, str}
use haru_quant_cbot.Inputs.{
  text, is_upper, is_separator, up, strip_right, strip_left, other_mode, signed_of, integer_of,
  strip_text, matches_symbol, rounded_volume, sanitize_string, nearest, validate_integer,
  validate_volume, validate_symbol,
}

abbrev same : Text → Text
same t = t

accepted_pair : validate_symbol same (str "EUR/USD") true ≡ ok (str "EURUSD")
unfolding validate_symbol matches_symbol
accepted_pair = refl

-- A newline at the end is let through.
accepted_newline : validate_symbol same (str "US30" ++ 10 ∷ []) false ≡ ok (str "US30" ++ 10 ∷ [])
unfolding validate_symbol matches_symbol
accepted_newline = refl

-- The docstring of the function says that this raises.
accepted_crypto : validate_symbol same (str "BTCUSD") true ≡ ok (str "BTCUSD")
unfolding validate_symbol matches_symbol
accepted_crypto = refl

refused_index : validate_symbol same (str "US30") true ≡ raise value_error
unfolding validate_symbol matches_symbol
refused_index = refl

validate_symbol-accepted_example :
    (str "EURUSD" ≡ keep (λ c. not (is_separator c)) (same (str "EUR/USD")))
    × (2 ≤ length (str "EURUSD"))
    × (length (str "EURUSD") ≤ 12)
    × IsSymbolText (str "EURUSD")
    × (true ≡ true → (length (str "EURUSD") ≡ 6) × All (λ c. is_upper c ≡ true) (str "EURUSD"))
validate_symbol-accepted_example =
    validate_symbol-accepted same (str "EUR/USD") true (str "EURUSD") accepted_pair

-- 0.157 lots in steps of 0.01, in units of 0.00000001.
rounded_up :
    validate_volume 1 (pos 15700000) (pos 1000000) (pos 10000000000) (pos 1000000) up ≡ ok 16000000
unfolding validate_volume rounded_volume
rounded_up = refl

-- 0.010000001 lots, in units of 0.000000001: up gives 0.01, below the volume.
rounded_up_below :
    validate_volume 10 (pos 10000001) (pos 10000000) (pos 100000000000) (pos 10000000) up
    ≡ ok 10000000
unfolding validate_volume rounded_volume
rounded_up_below = refl

validate_volume-exact_example :
    let answer =
      validate_volume 1 (pos 15700000) (pos 1000000) (pos 10000000000) (pos 1000000) nearest in
    ((nearest ≡ other_mode) × (answer ≡ raise value_error))
    ⊎ ((nearest ≡ up) × (15700000 + 1000000 < 1) × (answer ≡ ok 1000000))
    ⊎ ((q : ℕ) × IsRounded 1 nearest 15700000 1000000 (q * 1000000)
        × (answer ≡ ok (max 1000000 (min (q * 1000000) 10000000000))))
validate_volume-exact_example =
    validate_volume-exact 1 15700000 1000000 10000000000 1000000 nearest (omega arith) (omega arith)
      (omega arith)

negative_integer : validate_integer (text (str " -12")) none (some (pos 5)) ≡ ok (negsuc 11)
unfolding validate_integer integer_of signed_of int_of int_digits ◌-ℤ◌
negative_integer = refl

shortened_text : sanitize_string (λ p t. t ∷ []) (str " EUR ") (some 2) none true ≡ str "EU"
unfolding sanitize_string strip_text strip_left strip_right
shortened_text = refl
