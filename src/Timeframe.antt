-- ===== src/Timeframe.antt =====
-- The enum `Timeframe` of src/hqt/data/models/bar.py: names, durations and the four comparisons.
pub mod Order
mod Tests
use haru_quant_cbot.Prelude.{
  ℕ, ◌*◌, ◌≡◌, refl, Bool, Option, none, some, Result, ok, raise, value_error, ltb, leb,
  if◌then◌else◌,
}
use haru_quant_cbot.Prelude.Text.{Text, str, text_beq}

pub data Timeframe : Type 0 where
  m1 m5 m15 m30 h1 h4 d1 w1 mn1 : Timeframe

-- `name`, which is also the value.
unfoldable pub name : Timeframe → Text
name m1 = str "M1"
name m5 = str "M5"
name m15 = str "M15"
name m30 = str "M30"
name h1 = str "H1"
name h4 = str "H4"
name d1 = str "D1"
name w1 = str "W1"
name mn1 = str "MN1"

-- `_TIMEFRAME_MINUTES`
unfoldable pub minutes : Timeframe → ℕ
minutes m1 = 1
minutes m5 = 5
minutes m15 = 15
minutes m30 = 30
minutes h1 = 60
minutes h4 = 240
minutes d1 = 1440
minutes w1 = 10080
minutes mn1 = 43200

unfoldable pub seconds : Timeframe → ℕ
seconds t = minutes t * 60

unfoldable pub tf_lt : Timeframe → Timeframe → Bool
tf_lt a b = ltb (minutes a) (minutes b)

unfoldable pub tf_le : Timeframe → Timeframe → Bool
tf_le a b = leb (minutes a) (minutes b)

unfoldable pub tf_gt : Timeframe → Timeframe → Bool
tf_gt a b = ltb (minutes b) (minutes a)

unfoldable pub tf_ge : Timeframe → Timeframe → Bool
tf_ge a b = leb (minutes b) (minutes a)

-- `Timeframe(text)`, and `Timeframe[text]` up to the exception's class.
unfoldable pub parse_timeframe : Text → Result Timeframe
unfolding text_beq
parse_timeframe t =
    if text_beq t (str "M1")
    then ok m1
    else if text_beq t (str "M5")
    then ok m5
    else if text_beq t (str "M15")
    then ok m15
    else if text_beq t (str "M30")
    then ok m30
    else if text_beq t (str "H1")
    then ok h1
    else if text_beq t (str "H4")
    then ok h4
    else if text_beq t (str "D1")
    then ok d1
    else if text_beq t (str "W1")
    then ok w1
    else if text_beq t (str "MN1")
    then ok mn1
    else raise value_error
