-- ===== src/Timeframe/Order.antt =====
-- The comparisons of timeframes, and the round trip through their names.
use haru_quant_cbot.Prelude.{◌≡◌, ◌↔◌, refl, true, not, ok, arith}
use haru_quant_cbot.Timeframe.{
  Timeframe, m1, m5, m15, m30, h1, h4, d1, w1, mn1, name, minutes, tf_lt, tf_le, tf_gt, tf_ge,
  parse_timeframe,
}

-- Every timeframe is read back from its name.
pub parse-name : (t : Timeframe) → parse_timeframe (name t) ≡ ok t
unfolding parse_timeframe name
parse-name m1 = refl
parse-name m5 = refl
parse-name m15 = refl
parse-name m30 = refl
parse-name h1 = refl
parse-name h4 = refl
parse-name d1 = refl
parse-name w1 = refl
parse-name mn1 = refl

-- A number for each timeframe, in declaration order, with its inverse at the durations.
rank-minutes : (a b : Timeframe) → minutes a ≡ minutes b → a ≡ b
unfolding minutes
rank-minutes a b h = ground arith

-- The four comparisons are one strict total order on timeframes: `<=` is the negation of `>`, `>=`
-- that of `<`, `>` is `<` turned round, and two timeframes neither of which is less are the same.
pub timeframe-total_order :
    (a b : Timeframe)
    → (tf_le a b ≡ not (tf_gt a b))
      × (tf_ge a b ≡ not (tf_lt a b))
      × (tf_gt a b ≡ tf_lt b a)
      × (((tf_le a b ≡ true) × (tf_le b a ≡ true)) ↔ (a ≡ b))
unfolding tf_lt tf_le tf_gt tf_ge
timeframe-total_order a b = ground (arith, rank-minutes a b)
