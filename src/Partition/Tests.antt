-- ===== src/Partition/Tests.antt =====
-- Concrete times and names.
use haru_quant_cbot.Partition.Ranges.{get_partition-parses, Holds}
use haru_quant_cbot.Prelude.Text.{text_beq, str}
use haru_quant_cbot.Prelude.{value_error, raise, refl, ok, ◌≡◌, arith, none}
use haru_quant_cbot.Partition.{
  first_of_month, int_digits, month_text, int_of, year_text, year_range, IsMoment, Moment,
  parse_partition_range, get_partition,
}

abbrev moment : Moment
moment = record { year = 2024; month = 12; micros = 86400000000 }

december : get_partition none moment ≡ str "2024-12"
unfolding get_partition year_text month_text
december = refl

-- The end of the last year is no date.
last_year : parse_partition_range (str "9999") ≡ raise value_error
unfolding parse_partition_range year_range int_of int_digits first_of_month text_beq
last_year = refl

no_year : parse_partition_range (str "24-1") ≡ raise value_error
unfolding parse_partition_range year_range int_of int_digits first_of_month text_beq
no_year = refl

in_range : IsMoment moment
in_range = (omega arith, omega arith, omega arith, omega arith, omega arith)

get_partition-parses_example :
    (r : Moment × Moment) × (parse_partition_range (get_partition none moment) ≡ ok r)
    × Holds moment r
get_partition-parses_example = get_partition-parses none moment in_range (omega arith) (omega arith)
