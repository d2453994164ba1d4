-- ===== src/Dates/Days.antt =====
-- The hours of the market and the count of its days, of src/hqt/foundation/utils/datetime_utils.py.
use haru_quant_cbot.Prelude.Int.{ltb_ℤ, ℤ}
use haru_quant_cbot.Prelude.{
  ap, false, inr, ok, inl, Bool-cases, true, ◌-◌, refl, arith, ltb, zero, ◌||◌, ◌&&◌, ◌∷◌, count_if,
  suc, nat_beq, ◌*◌, leb, ◌≡◌, ◌%◌, [], not, Bool, ◌<◌, List, ◌+◌, ℕ,
}
use haru_quant_cbot.Dates.{
  trading_days_between, Datetime, Wall, weekday, is_market_open, count_trading_days,
}

-- The hour of the week, from Sunday at midnight.
abbrev pub week_hour : Wall → ℕ
week_hour time = (weekday time.day + 1) % 7 * 24 + time.hour

-- The dates from one on.
abbrev pub dates : ℕ → ℕ → List ℕ
dates day zero = []
dates day (suc n) = day ∷ dates (day + 1) n

-- The day is no Saturday, and no end that is left out.
abbrev pub is_counted : ℕ → ℕ → Bool → Bool → ℕ → Bool
is_counted start_date end_date include_start include_end day =
    not (nat_beq (weekday day) 5)
    && (not (nat_beq day start_date) || include_start)
    && (not (nat_beq day end_date) || include_end)

module _ (market : ℤ → Wall) where
  -- The market is open exactly from the 17th hour of the week, Sunday at five in the afternoon, up to
  -- the 137th, Friday at five.
  pub is_market_open-week :
      (dt : Datetime)
      → (market dt.micros).hour < 24
      → is_market_open market dt
        ≡ (leb 17 (week_hour (market dt.micros)) && ltb (week_hour (market dt.micros)) 137)
  unfolding is_market_open
  is_market_open-week dt h = ground arith

count_trading_days-dates :
    (n start_date end_date : ℕ) (include_start include_end : Bool) (current_date count : ℕ)
    → current_date + n ≡ suc end_date
    → count_trading_days (suc n) start_date end_date include_start include_end current_date count
      ≡ count
        + count_if (is_counted start_date end_date include_start include_end) (dates current_date n)
unfolding count_trading_days
count_trading_days-dates zero start_date end_date include_start include_end current_date count h =
    ground arith
count_trading_days-dates (suc n) start_date end_date include_start include_end current_date count
      h =
    ground (
      arith,
      count_trading_days-dates n start_date end_date include_start include_end (current_date + 1)
          count (omega arith),
      count_trading_days-dates n start_date end_date include_start include_end (current_date + 1)
          (count + 1) (omega arith),
    )

no_dates :
    (fuel start_date end_date : ℕ) (include_start include_end : Bool) (current_date count : ℕ)
    → end_date < current_date
    → count_trading_days fuel start_date end_date include_start include_end current_date count
      ≡ count
unfolding count_trading_days
no_dates zero start_date end_date include_start include_end current_date count h = refl
no_dates (suc fuel) start_date end_date include_start include_end current_date count h =
    ground arith

all_days :
    (first last : ℕ) (include_start include_end : Bool)
    → count_trading_days (suc (suc last - first)) first last include_start include_end first 0
      ≡ count_if (is_counted first last include_start include_end) (dates first (suc last - first))
all_days first last include_start include_end = elim (Bool-cases (leb first (suc last))) [
  | inl fine ↦ omega (
    arith,
    count_trading_days-dates (suc last - first) first last include_start include_end first 0
        (ground arith),
  )
  | inr beyond ↦
      let none_left : suc last - first ≡ 0 = ground arith in
      rw none_left (no_dates 1 first last include_start include_end first 0 (ground arith))
]

-- For aware datetimes, the first not after the second, the loop ends with the number of the market's
-- dates from the first to the second that are no Saturdays, where each end counts only if it is
-- included.
pub trading_days_between-count :
    (market : ℤ → Wall) (start_dt end_dt : Datetime) (include_start include_end : Bool)
    → start_dt.is_aware ≡ true
    → end_dt.is_aware ≡ true
    → ltb_ℤ end_dt.micros start_dt.micros ≡ false
    → let first = (market start_dt.micros).day in
      let last = (market end_dt.micros).day in
      trading_days_between market start_dt end_dt include_start include_end
      ≡ ok (
          count_if
            (is_counted first last include_start include_end)
            (dates first (suc last - first)))
unfolding trading_days_between
trading_days_between-count market start_dt end_dt include_start include_end aware aware' h =
    let first = (market start_dt.micros).day in
    let last = (market end_dt.micros).day in
    rw (aware, aware', h) (ap (λ n. ok n) (all_days first last include_start include_end))
