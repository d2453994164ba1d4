-- ===== src/Partition.antt =====
-- The class `PartitionStrategy` of src/hqt/data/storage/manager.py: names of partitions, and the times
-- that a name stands for. A `datetime` is its year, its month and its microsecond in the month.
mod Ranges
mod Tests
use haru_quant_cbot.Timeframe.{minutes, Timeframe}
use haru_quant_cbot.Prelude.Text.{split_on, decimal, str, text_beq, Text}
use haru_quant_cbot.Prelude.{
  not, ◌-◌, length, ◌*◌, none, false, any_of, true, some, value_error, [], raise, ◌%◌, ◌∷◌, ok,
  ◌>>=◌, ◌++◌, ◌||◌, ◌&&◌, ◌+◌, leb, ltb, nat_beq, if◌then◌else◌, Result, ◌/◌, ℕ, ◌≤◌, Bool, List,
  Option,
}

pub record Moment : Type 0 where
  pub year : ℕ
  pub month : ℕ
  pub micros : ℕ

-- The order of `datetime`.
unfoldable pub moment_lt : Moment → Moment → Bool
moment_lt a b =
    ltb a.year b.year
    || (nat_beq a.year b.year
        && (ltb a.month b.month || (nat_beq a.month b.month && ltb a.micros b.micros)))

-- `datetime.min` and `datetime.max`; no month has more than 31 days.
abbrev pub datetime_min : Moment
datetime_min = record { year = 1; month = 1; micros = 0 }

abbrev pub datetime_max : Moment
datetime_max = record { year = 9999; month = 12; micros = 2678399999999 }

abbrev pub IsMoment : Moment → Type 0
IsMoment d =
    (1 ≤ d.year) × (d.year ≤ 9999) × (1 ≤ d.month) × (d.month ≤ 12) × (d.micros ≤ 2678399999999)

-- `datetime(year, month, 1)`
unfoldable pub first_of_month : ℕ → ℕ → Result Moment
first_of_month year month =
    if leb 1 year && leb year 9999 && leb 1 month && leb month 12
    then ok (record { year = year; month = month; micros = 0 })
    else raise value_error

abbrev pub digit : ℕ → ℕ
digit n = b'0' + n % 10

-- `%Y`, which the C library does not pad, and `%m`.
unfoldable pub year_text : ℕ → Text
year_text year =
    if leb 1000 year
    then digit (year / 1000) ∷ digit (year / 100) ∷ digit (year / 10) ∷ digit year ∷ []
    else decimal year

unfoldable pub month_text : ℕ → Text
month_text month = digit (month / 10) ∷ digit month ∷ []

unfoldable pub get_partition : Option Timeframe → Moment → Text
unfolding year_text month_text
get_partition none timestamp = year_text timestamp.year ++ b'-' ∷ month_text timestamp.month
get_partition (some timeframe) timestamp =
    if leb (minutes timeframe) 30
    then year_text timestamp.year
    else if ltb (minutes timeframe) 1440
    then year_text timestamp.year
    else str "all"

abbrev pub is_blank : ℕ → Bool
is_blank c = nat_beq c 32 || (leb 9 c && leb c 13) || (leb 28 c && leb c 31)

abbrev pub is_digit : ℕ → Bool
is_digit c = leb b'0' c && leb c b'9'

-- The digits of `int`, with single underscores between them and blanks after them; `after_digit`
-- tells whether the last character was a digit.
unfoldable pub int_digits : Bool → ℕ → Text → Result ℕ
int_digits true n [] = ok n
int_digits false n [] = raise value_error
int_digits after_digit n (c ∷ cs) =
    let longer = int_digits true (n * 10 + (c - b'0')) cs in
    let later = int_digits false n cs in
    if is_digit c
    then longer
    else if not after_digit
    then raise value_error
    else if nat_beq c b'_'
    then later
    else if not (any_of (λ d. not (is_blank d)) (c ∷ cs))
    then ok n
    else raise value_error

-- `int(text)` on ASCII texts. A number below zero is an error here, as it is in the `datetime` that
-- takes it.
unfoldable pub int_of : Text → Result ℕ
unfolding int_digits
int_of [] = raise value_error
int_of (c ∷ cs) =
    let stripped = int_of cs in
    if is_blank c
    then stripped
    else if nat_beq c b'+'
    then int_digits false 0 cs
    else int_digits false 0 (c ∷ cs)

-- The start of the month after.
unfoldable pub next_month : ℕ → ℕ → Result Moment
unfolding first_of_month
next_month year month =
    if nat_beq month 12 then first_of_month (year + 1) 1 else first_of_month year (month + 1)

-- `year, month = map(int, ...)` and the two ends.
unfoldable pub month_range : List Text → Result (Moment × Moment)
unfolding int_of first_of_month next_month
month_range (a ∷ b ∷ []) = do
  year ← int_of a
  month ← int_of b
  start ← first_of_month year month
  stop ← next_month year month
  ok (start, stop)
month_range parts = raise value_error

unfoldable pub year_range : Text → Result (Moment × Moment)
unfolding int_of first_of_month
year_range partition = do
  year ← int_of partition
  start ← first_of_month year 1
  stop ← first_of_month (year + 1) 1
  ok (start, stop)

unfoldable pub parse_partition_range : Text → Result (Moment × Moment)
unfolding month_range year_range
parse_partition_range partition =
    if text_beq partition (str "all")
    then ok (datetime_min, datetime_max)
    else if any_of (nat_beq b'-') partition && nat_beq (length partition) 7
    then month_range (split_on b'-' partition)
    else if nat_beq (length partition) 4
    then year_range partition
    else raise value_error
