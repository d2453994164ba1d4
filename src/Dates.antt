-- ===== src/Dates.antt =====
-- The functions of src/hqt/foundation/utils/datetime_utils.py. A datetime is its number of microseconds
-- after 1970 or before, in UTC if it has a time zone or is taken to be in UTC; the conversion to the
-- market's time zone, which pytz does, is a parameter.
pub mod Bars
pub mod Days
mod Tests
use haru_quant_cbot.Prelude.Text.{str, Text}
use haru_quant_cbot.Prelude.{
  true, zero, ltb, ◌&&◌, false, ◌||◌, leb, not, nat_beq, suc, ok, if◌then◌else◌, ◌-◌, value_error,
  raise, ◌>>=◌, ◌%◌, ◌*◌, ◌/◌, Bool, ◌+◌, ℕ, Result,
}
use haru_quant_cbot.Prelude.Int.{◌-ℤ◌, ltb_ℤ, ℤ, pos, negsuc}

pub record Datetime : Type 0 where
  pub micros : ℤ
  pub is_aware : Bool

-- The date and the hour of a wall clock; day 0 is a Thursday before all dates in use.
pub record Wall : Type 0 where
  pub day : ℕ
  pub hour : ℕ

abbrev pub weekday : ℕ → ℕ
weekday day = (day + 3) % 7

abbrev pub minute : ℕ
minute = 60000000

-- `utc_hour` of a datetime
abbrev pub utc_hour : ℤ → ℕ
utc_hour (pos n) = n / 3600000000 % 24
utc_hour (negsuc n) = 23 - n / 3600000000 % 24

-- The loop over the dates; `fuel` bounds the number of its rounds.
unfoldable pub count_trading_days : ℕ → ℕ → ℕ → Bool → Bool → ℕ → ℕ → ℕ
count_trading_days zero start_date end_date include_start include_end current_date count = count
count_trading_days (suc fuel) start_date end_date include_start include_end current_date count =
    let skipped =
      count_trading_days fuel start_date end_date include_start include_end (current_date + 1)
        count in
    let counted =
      count_trading_days fuel start_date end_date include_start include_end (current_date + 1)
        (if nat_beq (weekday current_date) 5 then count else count + 1) in
    if not (leb current_date end_date)
    then count
    else if nat_beq current_date start_date && not include_start
    then skipped
    else if nat_beq current_date end_date && not include_end
    then count
    else counted

module _ (market : ℤ → Wall) where
  unfoldable pub is_market_open : Datetime → Bool
  is_market_open dt =
      let time = market dt.micros in
      let day = weekday time.day in
      if nat_beq day 5
      then false
      else if nat_beq day 6
      then leb 17 time.hour
      else if ltb day 4
      then true
      else if nat_beq day 4
      then ltb time.hour 17
      else false

  unfoldable pub get_session_name : Datetime → Text
  unfolding is_market_open
  get_session_name dt =
      let hour = utc_hour dt.micros in
      if not (is_market_open dt)
      then str "closed"
      else if leb 0 hour && ltb hour 7
      then str "asian"
      else if leb 7 hour && ltb hour 12
      then str "european"
      else if leb 12 hour && ltb hour 21
      then str "american"
      else str "asian"

  -- The loop makes a round for each date at most, and one to find that it is over.
  unfoldable pub trading_days_between : Datetime → Datetime → Bool → Bool → Result ℕ
  unfolding count_trading_days
  trading_days_between start_dt end_dt include_start include_end =
      if not start_dt.is_aware || not end_dt.is_aware
      then raise value_error
      else if ltb_ℤ end_dt.micros start_dt.micros
      then raise value_error
      else let start_date = (market start_dt.micros).day in
        let end_date = (market end_dt.micros).day in
        ok (
          count_trading_days (suc (suc end_date - start_date)) start_date end_date include_start
            include_end start_date 0)

-- `mode`
pub data Mode : Type 0 where
  floor ceil : Mode

-- `n + k`, `n * k` and `n // k`
abbrev pub plus : ℤ → ℕ → ℤ
plus (pos n) k = pos (n + k)
plus (negsuc n) k = pos k -ℤ pos (suc n)

abbrev pub scaled : ℤ → ℕ → ℤ
scaled (pos n) k = pos (n * k)
scaled (negsuc n) k = pos 0 -ℤ pos (suc n * k)

abbrev pub floor_div : ℤ → ℕ → ℤ
floor_div (pos n) k = pos (n / k)
floor_div (negsuc n) k = negsuc (n / k)

-- `int((utc_dt - epoch).total_seconds() / 60)`, which cuts towards zero; within a century of 1970 the
-- quotient of floats has the integer part of the exact one.
abbrev pub minutes_of : ℤ → ℤ
minutes_of (pos n) = pos (n / minute)
minutes_of (negsuc n) = pos 0 -ℤ pos (suc n / minute)

unfoldable pub aligned_minutes : Mode → ℤ → ℕ → ℤ
aligned_minutes floor total_minutes minutes = scaled (floor_div total_minutes minutes) minutes
aligned_minutes ceil total_minutes minutes =
    scaled (floor_div (plus total_minutes (minutes - 1)) minutes) minutes

-- For a mode that is one of the two.
unfoldable pub align_to_bar : Datetime → ℤ → Mode → Result Datetime
unfolding aligned_minutes
align_to_bar dt (negsuc n) mode = raise value_error
align_to_bar dt (pos minutes) mode =
    if not dt.is_aware || nat_beq minutes 0
    then raise value_error
    else ok
        (record dt { micros = scaled (aligned_minutes mode (minutes_of dt.micros) minutes) minute })

abbrev pub later_by : ℤ → Datetime → Datetime
later_by (pos minutes) dt = record dt { micros = plus dt.micros (minutes * minute) }
later_by (negsuc n) dt = record dt { micros = dt.micros -ℤ pos (suc n * minute) }

unfoldable pub next_bar_time : Datetime → ℤ → Result Datetime
unfolding align_to_bar
next_bar_time dt minutes = align_to_bar dt minutes floor >>= (λ bar. ok (later_by minutes bar))
