-- ===== src/Checks/Intervals.antt =====
-- `MissingTimestampDetector` on frames with times in microseconds, and the interval that it keeps.
use haru_quant_cbot.Checks.Standard.{
  is_enabled, initialize_validators, kept_interval, ValidationConfig, run_pipeline,
}
use haru_quant_cbot.Prelude.{
  Result, false, ltb, drop, arith, refl, ap, none, map, ok, [], true, some, ◌*◌, ◌∷◌, ◌≡◌, ◌+◌,
  List, Option, ◌≤◌, ℕ,
}
use haru_quant_cbot.Prelude.Int.{ -ℤ_parts, -ℤ_parts, +ℤ_parts, ◌-ℤ◌, pos, ◌<ℤ◌, ◌+ℤ◌, ℤ}
use haru_quant_cbot.Prelude.Text.{str, Text}
use haru_quant_cbot.Validation.{
  ValidationReport, validate, warning, has_column, missing_timestamp, ValidationIssue,
  IssueSeverity,
}
use haru_quant_cbot.Checks.{raise, BarFrame, with_previous, Numbers, Bar}
use haru_quant_cbot.Checks.Times.{
  time_diffs, interval_for, missing_timestamp_detector, missing_message, missing_issue, is_missing,
  time_diff, missing_issues,
}

module _ {N : Type 0} (fl : Numbers N) (tolerance : N) (severity : IssueSeverity)
    (symbol : Text) where
  -- What is used of the numbers: twice the interval is above the tolerated one, and a finite quotient
  -- has an integer part.
  pub record IntervalLaws (interval : ℤ) : Type 0 where
    pub above_tolerance :
        (d : ℤ)
        → interval +ℤ interval <ℤ d
        → fl.lt (fl.mul (fl.of_int interval) tolerance) (fl.of_int d) ≡ true
    pub is_finite :
        (d : ℤ) → (n : ℤ) × (fl.truncate (fl.div (fl.of_int d) (fl.of_int interval)) ≡ ok n)

  -- Each row is at least `seconds` seconds after the one before it.
  abbrev pub IsSpaced : ℕ → Option (Bar N) → List (Bar N) → Type 0
  IsSpaced seconds previous [] = Unit
  IsSpaced seconds none (row ∷ rows) = IsSpaced seconds (some row) rows
  IsSpaced seconds (some previous) (row ∷ rows) =
      (previous.timestamp + 1000000 * seconds ≤ row.timestamp) × IsSpaced seconds (some row) rows

  spaced_above :
      (seconds : ℕ) (a b : ℕ)
      → 1 ≤ seconds
      → a + 1000000 * seconds ≤ b
      → (pos seconds +ℤ pos seconds) <ℤ (pos b -ℤ pos a)
  spaced_above seconds a b h k =
      ground (arith, +ℤ_parts (pos seconds) (pos seconds), -ℤ_parts (pos b) (pos a))

  missing_issues-all :
      (seconds : ℕ) (laws : IntervalLaws (pos seconds)) (previous : Bar N) (rows : List (Bar N))
      → 1 ≤ seconds
      → IsSpaced seconds (some previous) rows
      → (issues : List ValidationIssue) × (missing_issues fl
            (fl.mul (fl.of_int (pos seconds)) tolerance)
            severity
            symbol
            (pos seconds)
            (with_previous (some previous) rows)
          ≡ ok issues)
        × (map (λ (i : ValidationIssue). i.timestamp) issues
            ≡ map (λ (row : Bar N). row.timestamp) rows)
  unfolding missing_issues with_previous time_diff is_missing missing_issue
  missing_issues-all seconds laws previous [] h s = ([], refl, refl)
  missing_issues-all seconds laws previous (row ∷ rows) h s =
      let d = pos row.timestamp -ℤ pos previous.timestamp in
      let late =
        laws.above_tolerance d (spaced_above seconds previous.timestamp row.timestamp h s.0) in
      let (n, whole) = laws.is_finite d in
      let (issues, e, times) = missing_issues-all seconds laws row rows h s.1 in
      (
        record {
          issue_type = missing_timestamp;
          severity = severity;
          timestamp = row.timestamp;
          symbol = symbol;
          message = missing_message fl (pos seconds) (fl.of_int d) n;
          check_name = str "MissingTimestampDetector";
        }
            ∷ issues,
        rw (late, whole, e) refl,
        ap (◌∷◌ row.timestamp) times,
      )

  all_but_first :
      (seconds : ℕ) (laws : IntervalLaws (pos seconds))
      → 1 ≤ seconds
      → (rows : List (Bar N)) → IsSpaced seconds none rows
      → (issues : List ValidationIssue) × (missing_issues fl
            (fl.mul (fl.of_int (pos seconds)) tolerance)
            severity
            symbol
            (pos seconds)
            (with_previous none rows)
          ≡ ok issues)
        × (map (λ (i : ValidationIssue). i.timestamp) issues
            ≡ map (λ (row : Bar N). row.timestamp) (drop 1 rows))
  unfolding missing_issues with_previous time_diff is_missing
  all_but_first seconds laws h [] s = ([], refl, refl)
  all_but_first seconds laws h (row ∷ rows) s = missing_issues-all seconds laws row rows h s

  detector-from :
      (interval : ℤ) (df : BarFrame N) {issues : List ValidationIssue}
      → 2 ≤ df.rows
      → has_column df (str "timestamp") ≡ true
      → missing_issues fl
          (fl.mul (fl.of_int interval) tolerance)
          severity
          symbol
          interval
          (with_previous none df.content)
        ≡ ok issues
      → missing_timestamp_detector fl tolerance severity (some interval) df symbol
        ≡ (some interval, ok issues)
  unfolding missing_timestamp_detector interval_for
  detector-from interval df two times e =
      let many : ltb df.rows 2 ≡ false = ground arith in rw (many, times, e) refl

  -- With a configured interval in seconds, a frame whose rows are at least that many seconds apart,
  -- with times in microseconds, has each row but the first one reported as coming after a gap.
  pub missing_timestamp_detector-all :
      (seconds : ℕ) (laws : IntervalLaws (pos seconds)) (df : BarFrame N)
      → 1 ≤ seconds
      → 2 ≤ df.rows
      → has_column df (str "timestamp") ≡ true
      → IsSpaced seconds none df.content
      → (issues : List ValidationIssue) × (missing_timestamp_detector fl tolerance severity
            (some (pos seconds))
            df
            symbol
          ≡ (some (pos seconds), ok issues))
        × (map (λ (i : ValidationIssue). i.timestamp) issues
            ≡ map (λ (row : Bar N). row.timestamp) (drop 1 df.content))
  missing_timestamp_detector-all seconds laws df h two times s =
      let (issues, e, stamps) = all_but_first seconds laws h df.content s in
      (issues, detector-from (pos seconds) df two times e, stamps)

module _ {N : Type 0} (fl : Numbers N) where
  -- Frames that one pipeline validates, one after the other.
  unfoldable pub run_frames :
      (Text → Text) → ValidationConfig N → Option ℤ → List (BarFrame N × Text) → Option ℤ
  unfolding run_pipeline
  run_frames lower config expected [] = expected
  run_frames lower config expected ((df, symbol) ∷ frames) =
      run_frames lower config (run_pipeline fl lower config expected df symbol none).0 frames

  kept_interval-some :
      (config : ValidationConfig N) (interval : ℤ) (r : Result ValidationReport)
      → kept_interval fl config (some interval) r (some interval) ≡ some interval
  unfolding kept_interval
  kept_interval-some config interval (raise e) = refl
  kept_interval-some config interval (ok report) = ground arith

  detected-some :
      (tolerance : N) (severity : IssueSeverity) (interval : ℤ) (df : BarFrame N) (symbol : Text)
      → (missing_timestamp_detector fl tolerance severity (some interval) df symbol).0
        ≡ some interval
  unfolding missing_timestamp_detector interval_for
  detected-some tolerance severity interval df symbol = ground arith

  run_frames-some :
      (lower : Text → Text) (config : ValidationConfig N) (interval : ℤ)
      (frames : List (BarFrame N × Text))
      → run_frames lower config (some interval) frames ≡ some interval
  unfolding run_frames run_pipeline
  run_frames-some lower config interval [] = refl
  run_frames-some lower config interval ((df, symbol) ∷ frames) =
      rw
        (
          detected-some config.tolerance warning interval df symbol,
          kept_interval-some config interval
              (validate lower (initialize_validators fl config (some interval)) df symbol none),
        )
        (run_frames-some lower config interval frames)

  -- A pipeline without a configured interval takes the commonest difference of the times of the first
  -- frame that it validates, where that frame has two rows and times and the detector is enabled, and
  -- keeps it over all the frames after it.
  pub run_frames-interval :
      (lower : Text → Text) (config : ValidationConfig N) (df : BarFrame N) (symbol : Text)
      (report : ValidationReport) (frames : List (BarFrame N × Text))
      → validate lower (initialize_validators fl config none) df symbol none ≡ ok report
      → is_enabled fl config.enabled_checks (str "MissingTimestampDetector") ≡ true
      → 2 ≤ df.rows
      → has_column df (str "timestamp") ≡ true
      → run_frames lower config none ((df, symbol) ∷ frames)
        ≡ some (fl.most_common (time_diffs fl (with_previous none df.content)))
  unfolding run_frames run_pipeline kept_interval missing_timestamp_detector interval_for
  run_frames-interval lower config df symbol report frames valid enabled two times =
      let many : ltb df.rows 2 ≡ false = ground arith in
      rw (valid, enabled, many, times)
        (run_frames-some lower config
          (fl.most_common (time_diffs fl (with_previous none df.content))) frames)
