-- ===== src/Partition/Ranges.antt =====
-- The range that a partition's name stands for holds the times that are put there.
use haru_quant_cbot.Timeframe.{minutes, mn1, w1, d1, h4, h1, m30, m15, m5, m1, Timeframe}
use haru_quant_cbot.Prelude.Text.{str, text_beq, Text, split_on}
use haru_quant_cbot.Prelude.{
  inr, nat_beq, if◌then◌else◌, inl, none, Option, refl, ◌++◌, ◌⊎◌, ap, ◌∙◌, false, true, [], arith,
  ok, ◌/◌, ◌∷◌, ◌+◌, ◌*◌, ◌≡◌, List, ◌≤◌, ◌%◌, Bool, ℕ,
}
use haru_quant_cbot.Partition.{
  datetime_min, some, IsMoment, next_month, year_range, month_range, get_partition,
  parse_partition_range, moment_lt, first_of_month, datetime_max, Moment, digit, year_text, int_of,
  int_digits, month_text,
}

int_digits-digit :
    (after_digit : Bool) (n d : ℕ) (cs : Text)
    → int_digits after_digit n (digit d ∷ cs) ≡ int_digits true (n * 10 + d % 10) cs
unfolding int_digits
int_digits-digit after_digit n d cs = ground arith

int_of-digit : (d : ℕ) (cs : Text) → int_of (digit d ∷ cs) ≡ int_digits false 0 (digit d ∷ cs)
unfolding int_of
int_of-digit d cs = ground arith

int_of-two : (a b n : ℕ) → (a % 10) * 10 + b % 10 ≡ n → int_of (digit a ∷ digit b ∷ []) ≡ ok n
unfolding int_digits
int_of-two a b n h =
    int_of-digit a (digit b ∷ [])
    ∙ int_digits-digit false 0 a (digit b ∷ [])
    ∙ int_digits-digit true (0 * 10 + a % 10) b []
    ∙ ap ok (omega (arith, h))

int_of-four :
    (a b c d n : ℕ)
    → ((a % 10 * 10 + b % 10) * 10 + c % 10) * 10 + d % 10 ≡ n
    → int_of (digit a ∷ digit b ∷ digit c ∷ digit d ∷ []) ≡ ok n
unfolding int_digits
int_of-four a b c d n h =
    int_of-digit a (digit b ∷ digit c ∷ digit d ∷ [])
    ∙ int_digits-digit false 0 a (digit b ∷ digit c ∷ digit d ∷ [])
    ∙ int_digits-digit true (0 * 10 + a % 10) b (digit c ∷ digit d ∷ [])
    ∙ int_digits-digit true ((0 * 10 + a % 10) * 10 + b % 10) c (digit d ∷ [])
    ∙ int_digits-digit true (((0 * 10 + a % 10) * 10 + b % 10) * 10 + c % 10) d []
    ∙ ap ok (omega (arith, h))

abbrev four : ℕ → Text
four y = digit (y / 1000) ∷ digit (y / 100) ∷ digit (y / 10) ∷ digit y ∷ []

year_text-four : (y : ℕ) → 1000 ≤ y → year_text y ≡ four y
unfolding year_text
year_text-four y h = ground (arith, h)

int_of-year : (y : ℕ) → y ≤ 9999 → int_of (four y) ≡ ok y
int_of-year y h = int_of-four (y / 1000) (y / 100) (y / 10) y y (omega (arith, h))

int_of-month : (m : ℕ) → m ≤ 12 → int_of (month_text m) ≡ ok m
unfolding month_text
int_of-month m h = int_of-two (m / 10) m m (omega (arith, h))

split_on-digit :
    (d : ℕ) (cs part : Text) (parts : List Text)
    → split_on b'-' cs ≡ part ∷ parts
    → split_on b'-' (digit d ∷ cs) ≡ (digit d ∷ part) ∷ parts
unfolding split_on
split_on-digit d cs part parts h = ground (arith, h)

split_on-two : (m : ℕ) → split_on b'-' (month_text m) ≡ month_text m ∷ []
unfolding month_text split_on
split_on-two m =
    split_on-digit (m / 10) (digit m ∷ []) (digit m ∷ []) [] (split_on-digit m [] [] [] refl)

split_on-dash : (m : ℕ) → split_on b'-' (b'-' ∷ month_text m) ≡ [] ∷ month_text m ∷ []
unfolding split_on
split_on-dash m = ground (arith, split_on-two m)

split_on-month :
    (y m : ℕ) → split_on b'-' (four y ++ b'-' ∷ month_text m) ≡ four y ∷ month_text m ∷ []
split_on-month y m =
    let rest = b'-' ∷ month_text m in
    let more = month_text m ∷ [] in
    split_on-digit (y / 1000) (digit (y / 100) ∷ digit (y / 10) ∷ digit y ∷ rest)
      (digit (y / 100) ∷ digit (y / 10) ∷ digit y ∷ []) more
      (split_on-digit (y / 100) (digit (y / 10) ∷ digit y ∷ rest) (digit (y / 10) ∷ digit y ∷ [])
        more
        (split_on-digit (y / 10) (digit y ∷ rest) (digit y ∷ []) more
          (split_on-digit y rest [] more (split_on-dash m))))

first_of_month-ok :
    (y m : ℕ)
    → 1 ≤ y
    → y ≤ 9999
    → 1 ≤ m
    → m ≤ 12
    → first_of_month y m ≡ ok (record { year = y; month = m; micros = 0 })
unfolding first_of_month
first_of_month-ok y m a b c d = ground (arith, a, b, c, d)

-- The two ends of a range hold a time: the start is not after it, and the stop is after it or is the
-- last time there is.
abbrev pub Holds : Moment → Moment × Moment → Type 0
Holds d (lo, hi) = (moment_lt d lo ≡ false) × ((moment_lt d hi ≡ true) ⊎ (hi ≡ datetime_max))

parse-year : (y : ℕ) → parse_partition_range (four y) ≡ year_range (four y)
unfolding parse_partition_range text_beq
parse-year y = ground arith

parse-month :
    (y m : ℕ)
    → parse_partition_range (four y ++ b'-' ∷ month_text m)
      ≡ month_range (four y ∷ month_text m ∷ [])
unfolding parse_partition_range text_beq month_text
parse-month y m = ground (arith, split_on-month y m)

year_range-ok :
    (y : ℕ)
    → 1000 ≤ y
    → y ≤ 9998
    → year_range (four y)
      ≡ ok (
        record { year = y; month = 1; micros = 0 },
        record { year = y + 1; month = 1; micros = 0 },
      )
unfolding year_range
year_range-ok y low high = ground (
  arith,
  int_of-year y (omega (arith, high)),
  first_of_month-ok y 1 (omega (arith, low)) (omega (arith, high)) (omega arith) (omega arith),
  first_of_month-ok (y + 1) 1 (omega (arith, low)) (omega (arith, high)) (omega arith)
      (omega arith),
)

-- The first moment of the month after.
abbrev following : ℕ → ℕ → Moment
following y m =
    if nat_beq m 12
    then record { year = y + 1; month = 1; micros = 0 }
    else record { year = y; month = m + 1; micros = 0 }

next_month-ok :
    (y m : ℕ) → 1000 ≤ y → y ≤ 9998 → 1 ≤ m → m ≤ 12 → next_month y m ≡ ok (following y m)
unfolding next_month first_of_month
next_month-ok y m low high a b = ground (arith, low, high, a, b)

month_range-ok :
    (y m : ℕ)
    → 1000 ≤ y
    → y ≤ 9998
    → 1 ≤ m
    → m ≤ 12
    → month_range (four y ∷ month_text m ∷ [])
      ≡ ok (record { year = y; month = m; micros = 0 }, following y m)
unfolding month_range
month_range-ok y m low high a b = ground (
  arith,
  int_of-year y (omega (arith, high)),
  int_of-month m b,
  first_of_month-ok y m (omega (arith, low)) (omega (arith, high)) a b,
  next_month-ok y m low high a b,
)

year_range-Holds :
    (d : Moment)
    → IsMoment d
    → 1000 ≤ d.year
    → d.year ≤ 9998
    → (r : Moment × Moment) × (parse_partition_range (year_text d.year) ≡ ok r) × Holds d r
unfolding moment_lt
year_range-Holds d v low high = (
  (
    record { year = d.year; month = 1; micros = 0 },
    record { year = d.year + 1; month = 1; micros = 0 },
  ),
  ap parse_partition_range (year_text-four d.year low)
      ∙ parse-year d.year
      ∙ year_range-ok d.year low high,
  (ground (arith, v), inl (ground arith)),
)

month_range-Holds :
    (d : Moment)
    → IsMoment d
    → 1000 ≤ d.year
    → d.year ≤ 9998
    → (r : Moment × Moment) × (parse_partition_range (year_text d.year ++ b'-' ∷ month_text d.month)
        ≡ ok r)
      × Holds d r
unfolding moment_lt
month_range-Holds d v low high =
    let (_, _, a, b, _) = v in
    (
      (record { year = d.year; month = d.month; micros = 0 }, following d.year d.month),
      ap (λ year. parse_partition_range (year ++ b'-' ∷ month_text d.month))
            (year_text-four d.year low)
          ∙ parse-month d.year d.month
          ∙ month_range-ok d.year d.month low high a b,
      (ground (arith, v), inl (ground (arith, v))),
    )

single :
    (d : Moment)
    → IsMoment d
    → (r : Moment × Moment) × (parse_partition_range (str "all") ≡ ok r) × Holds d r
unfolding parse_partition_range text_beq moment_lt
single d v = ((datetime_min, datetime_max), refl, (ground (arith, v), inr refl))

-- A time between the years 1000 and 9998 lies in the range that the name of its partition parses to,
-- whatever the timeframe, and for ticks too.
pub get_partition-parses :
    (timeframe : Option Timeframe) (d : Moment)
    → IsMoment d
    → 1000 ≤ d.year
    → d.year ≤ 9998
    → (r : Moment × Moment) × (parse_partition_range (get_partition timeframe d) ≡ ok r) × Holds d r
unfolding get_partition minutes
get_partition-parses none d v low high = month_range-Holds d v low high
get_partition-parses (some m1) d v low high = year_range-Holds d v low high
get_partition-parses (some m5) d v low high = year_range-Holds d v low high
get_partition-parses (some m15) d v low high = year_range-Holds d v low high
get_partition-parses (some m30) d v low high = year_range-Holds d v low high
get_partition-parses (some h1) d v low high = year_range-Holds d v low high
get_partition-parses (some h4) d v low high = year_range-Holds d v low high
get_partition-parses (some d1) d v low high = single d v
get_partition-parses (some w1) d v low high = single d v
get_partition-parses (some mn1) d v low high = single d v
