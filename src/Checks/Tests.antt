-- ===== src/Checks/Tests.antt =====
-- Frames over whole numbers, and what the checks say of them.
use haru_quant_cbot.Checks.Judged.{run_frames-judges}
use haru_quant_cbot.Checks.Gaps.{late_issues, neighbours}
use haru_quant_cbot.Prelude.Counts.{SameElements}
use haru_quant_cbot.Checks.Instances.{bar_at, volume_frame, wholes, twice_frame, settings, as_is}
use haru_quant_cbot.Checks.Composed.{run_pipeline-loses_duplicates}
use haru_quant_cbot.Checks.Duplicates.{is_repeated, duplicate_detector-exact, issue_of}
use haru_quant_cbot.Checks.Prices.{price_sanity_check}
use haru_quant_cbot.Checks.Times.{
  missing_message, missing_issue, is_missing, time_diff, missing_issues, interval_for,
  detail_columns, missing_timestamp_detector, duplicated, duplicate_detector,
}
use haru_quant_cbot.Prelude.Int.{◌-ℤ◌, +ℤ_parts, pos_part, ◌<ℤ◌, ◌+ℤ◌, ℤ, pos}
use haru_quant_cbot.Validation.{
  missing_timestamp, found, has_ohlc, is_ohlc_check, critical, ValidationIssue, run_validators,
  error, ValidationReport, is_empty, has_column, validate, warning,
}
use haru_quant_cbot.Checks.Standard.{
  kept_interval, run_pipeline, is_enabled, all_validators, initialize_validators, ValidationConfig,
}
use haru_quant_cbot.Prelude.{
  keep, Option, inl, ◌≢◌, ◌↔◌, map, key_error, ◌⊎◌, raise, In, some, Result, refl, ok, true, ◌≡◌,
  ◌/◌, ◌*◌, false, [], none, ◌∷◌, arith, ltb, List, ℕ,
}
use haru_quant_cbot.Prelude.Text.{
  decimal_from, starts_with, contains_text, text_beq, decimal, str, Text,
}
use haru_quant_cbot.Checks.Intervals.{run_frames, missing_timestamp_detector-all, IntervalLaws}
use haru_quant_cbot.Checks.Sanity.{price_sanity_check-clean, IsInBounds, IsSane, OrderLaws}
use haru_quant_cbot.Checks.{with_previous, need, Bar, BarFrame}

wholes-OrderLaws : OrderLaws wholes
wholes-OrderLaws = record { lt_maximum = λ a b c. ground arith; minimum_lt = λ a b c. ground arith }

wholes-IntervalLaws : IntervalLaws wholes 3 warning (str "EU") (pos 60)
wholes-IntervalLaws = record {
  above_tolerance = λ d h. above d h;
  is_finite = λ d. (pos (pos_part d / 60), refl);
}
  where
    above : (d : ℤ) → (pos 60 +ℤ pos 60) <ℤ d → ltb (60 * 3 / 2) (pos_part d) ≡ true
    above d h = ground (arith, +ℤ_parts (pos 60) (pos 60))

price_sanity_check-clean_example :
    (issues : List ValidationIssue) × (price_sanity_check wholes 4 critical twice_frame (str "EU")
      ≡ ok issues)
    × ((issues ≡ []) ↔ (
        (row : Bar ℕ)
        → In row twice_frame.content
        → IsSane wholes row × IsInBounds wholes 4 twice_frame.content row))
unfolding is_empty has_column text_beq
price_sanity_check-clean_example =
    price_sanity_check-clean wholes wholes-OrderLaws 4 critical twice_frame (str "EU") refl refl
      refl

duplicate_detector-exact_example :
    ((duplicate_detector error volume_frame (str "EU") ≡ ok [])
      × ((row : Bar ℕ)
          → In row volume_frame.content
          → is_repeated volume_frame.content row ≡ false))
    ⊎ (((row : Bar ℕ) × In row volume_frame.content × (is_repeated volume_frame.content row ≡ true))
        × (((duplicate_detector error volume_frame (str "EU") ≡ raise key_error)
              × ((c : Text) × In c detail_columns × (has_column volume_frame c ≡ false)))
            ⊎ (((c : Text) → In c detail_columns → has_column volume_frame c ≡ true)
                × ((issues : List ValidationIssue) × (duplicate_detector error volume_frame
                        (str "EU")
                      ≡ ok issues)
                    × SameElements issues (
                        map
                          (issue_of error (str "EU") volume_frame.content)
                          (keep (is_repeated volume_frame.content) volume_frame.content))))))
unfolding is_empty has_column text_beq
duplicate_detector-exact_example = duplicate_detector-exact error volume_frame (str "EU") refl refl

-- Without the column volume the detector raises.
duplicates_raise : duplicate_detector error twice_frame (str "EU") ≡ raise key_error
unfolding duplicate_detector need is_empty has_column text_beq duplicated
duplicates_raise = refl

abbrev minutes_frame : BarFrame ℕ
minutes_frame = record twice_frame {
  content = bar_at 0 5 ∷ bar_at 60000000 6 ∷ bar_at 120000000 7 ∷ [];
}

missing_timestamp_detector-all_example :
    (issues : List ValidationIssue) × (missing_timestamp_detector wholes 3 warning
        (some (pos 60))
        minutes_frame
        (str "EU")
      ≡ (some (pos 60), ok issues))
    × (map (λ (i : ValidationIssue). i.timestamp) issues ≡ 60000000 ∷ 120000000 ∷ [])
unfolding has_column text_beq
missing_timestamp_detector-all_example =
    missing_timestamp_detector-all wholes 3 warning (str "EU") 60 wholes-IntervalLaws minutes_frame
      (omega arith) (omega arith) refl (omega arith, (omega arith, tt))

abbrev times_only : ValidationConfig ℕ
times_only = record settings { enabled_checks = some (str "MissingTimestampDetector" ∷ []) }

abbrev times_report : Result ValidationReport
times_report =
    validate as_is (initialize_validators wholes times_only none) minutes_frame (str "EU") none

abbrev after_gap : ValidationIssue
after_gap = record {
  issue_type = missing_timestamp;
  severity = warning;
  timestamp = 60000000;
  symbol = str "EU";
  message = missing_message wholes (pos 60) 60000000 (pos 1000000);
  check_name = str "MissingTimestampDetector";
}

-- The report on the frame of minutes by some interval.
abbrev minutes_report : Option ℤ → ValidationReport
minutes_report expected = record {
  symbol = str "EU";
  issues = found (missing_timestamp_detector wholes 3 warning expected minutes_frame (str "EU")).1;
  total_bars = 3;
  checks_run = str "MissingTimestampDetector" ∷ [];
}

abbrev minutes_in : ℤ → ℤ
minutes_in d = pos (pos_part d / 60)

run_frames-judges_example :
    (In after_gap (minutes_report (some (pos 60))).issues
      × (str "MissingTimestampDetector" ≡ str "MissingTimestampDetector"))
    ↔ In after_gap (late_issues wholes 3 (pos 60) minutes_in minutes_frame (str "EU"))
unfolding validate is_empty has_column text_beq run_validators initialize_validators all_validators
    is_enabled is_ohlc_check has_ohlc contains_text starts_with missing_timestamp_detector
    interval_for missing_issues with_previous time_diff is_missing missing_issue ◌-ℤ◌ decimal
    decimal_from run_pipeline run_frames kept_interval neighbours
run_frames-judges_example =
    run_frames-judges wholes as_is times_only minutes_frame (str "EU") (minutes_report none)
      ((twice_frame, str "EU") ∷ []) minutes_frame (str "EU") (minutes_report (some (pos 60)))
      minutes_in refl refl (omega arith) refl (omega arith) (λ d. refl) refl after_gap

abbrev times_and_duplicates : ValidationConfig ℕ
times_and_duplicates = record settings {
  enabled_checks = some (str "MissingTimestampDetector" ∷ str "DuplicateDetector" ∷ []);
}

run_pipeline-loses_duplicates_example :
    (duplicate_detector error twice_frame (str "EU") ≡ raise key_error)
    × ((report : ValidationReport) × ((run_pipeline wholes as_is times_and_duplicates none
            twice_frame
            (str "EU")
            (some [])).1
          ≡ ok report)
        × ((i : ValidationIssue) → In i report.issues → i.check_name ≢ str "DuplicateDetector"))
unfolding is_empty has_column text_beq
run_pipeline-loses_duplicates_example =
    run_pipeline-loses_duplicates wholes as_is times_and_duplicates none twice_frame (str "EU")
      (some []) (bar_at 0 5) refl refl (λ c i. absurd i) refl (inl refl) refl
