-- ===== src/Dates/Tests.antt =====
-- Datetimes of the year 2024 in a market that keeps UTC.
use haru_quant_cbot.Dates.Days.{trading_days_between-count, dates, is_counted}
use haru_quant_cbot.Dates.Bars.{align_to_bar-exact, IsMultiple}
use haru_quant_cbot.Prelude.Int.{negsuc, pos_part, ◌-ℤ◌, ℤ, pos}
use haru_quant_cbot.Prelude.{
  arith, ◌+◌, ◌<◌, ◌≤◌, refl, count_if, ◌%◌, ok, false, ◌/◌, ◌≡◌, true, ◌*◌, ℕ,
}
use haru_quant_cbot.Dates.{
  minute, count_trading_days, aligned_minutes, Datetime, Wall, trading_days_between, align_to_bar,
  floor, ceil,
}

abbrev utc_market : ℤ → Wall
utc_market micros = record {
  day = pos_part micros / 86400000000;
  hour = pos_part micros / 3600000000 % 24;
}

-- Monday and Friday of a week, days 19737 and 19741.
abbrev monday : Datetime
monday = record { micros = pos (19737 * 86400000000); is_aware = true }

abbrev friday : Datetime
friday = record { micros = pos (19741 * 86400000000); is_aware = true }

week_days : trading_days_between utc_market monday friday true true ≡ ok 5
unfolding trading_days_between count_trading_days
week_days = refl

inner_days : trading_days_between utc_market monday friday false false ≡ ok 3
unfolding trading_days_between count_trading_days
inner_days = refl

-- Half a minute after a bar of five minutes began, ceil goes back to its start.
ceil_before :
    align_to_bar (record { micros = pos 330000000; is_aware = true }) (pos 5) ceil
    ≡ ok (record { micros = pos 300000000; is_aware = true })
unfolding align_to_bar aligned_minutes
ceil_before = refl

-- Half past two minutes before 1970, floor at one minute gives the later minute.
floor_before_epoch :
    align_to_bar (record { micros = negsuc 149999999; is_aware = true }) (pos 1) floor
    ≡ ok (record { micros = negsuc 119999999; is_aware = true })
unfolding align_to_bar aligned_minutes ◌-ℤ◌
floor_before_epoch = refl

align_to_bar-exact_example :
    ((down : ℕ) × (align_to_bar monday (pos 5) floor ≡ ok (record monday { micros = pos down }))
      × IsMultiple (5 * minute) down
      × (down ≤ 19737 * 86400000000)
      × (19737 * 86400000000 < down + 5 * minute))
    × ((up : ℕ) × (align_to_bar monday (pos 5) ceil ≡ ok (record monday { micros = pos up }))
        × IsMultiple (5 * minute) up
        × (19737 * 86400000000 < up + minute)
        × (up < 19737 * 86400000000 / minute * minute + 5 * minute))
align_to_bar-exact_example =
    align_to_bar-exact monday (19737 * 86400000000) 5 refl refl (omega arith)

trading_days_between-count_example :
    trading_days_between utc_market monday friday true false
    ≡ ok (count_if (is_counted 19737 19741 true false) (dates 19737 5))
trading_days_between-count_example =
    trading_days_between-count utc_market monday friday true false refl refl refl
