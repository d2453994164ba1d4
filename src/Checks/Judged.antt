-- ===== src/Checks/Judged.antt =====
-- How a pipeline of src/hqt/data/validation judges the frames after its first one.
use haru_quant_cbot.Checks.Gaps.{
  commonest_gap, late_issues, Counts, time_diffs-neighbours, missing_issues-late,
}
use haru_quant_cbot.Checks.Composed.{run_pipeline-names}
use haru_quant_cbot.Validation.Pipeline.{validate-exact}
use mathlib.Core.Path.{subst}
use haru_quant_cbot.Checks.Names.{missing_timestamp_detector-Named}
use haru_quant_cbot.Checks.Intervals.{run_frames-interval, run_frames}
use haru_quant_cbot.Validation.{
  warning, has_column, required_or_default, found, validate, Validator, ValidationIssue,
  ValidationReport, has_ohlc,
}
use haru_quant_cbot.Checks.Times.{missing_issues, interval_for, missing_timestamp_detector}
use haru_quant_cbot.Prelude.{
  In-keep_iff, ◌∙◌, ap, In-All, sym, refl, arith, ◌∷◌, ◌↔◌, inl, ltb, inr, ok, true, false, ◌≤◌,
  some, none, All, ◌≡◌, In, List,
}
use haru_quant_cbot.Prelude.Int.{ℤ}
use haru_quant_cbot.Prelude.Text.{text_ne, str, text_beq, Text}
use haru_quant_cbot.Checks.Standard.{
  is_enabled, initialize_validators, all_validators, run_pipeline, ValidationConfig,
}
use haru_quant_cbot.Checks.{with_previous, Bar, BarFrame, Numbers}

module _ {N : Type 0} (fl : Numbers N) (config : ValidationConfig N) (interval : ℤ)
    (df : BarFrame N) (symbol : Text) where
  -- The detector of missing times works with the interval.
  Judges : Validator (List (Bar N)) → Type 0
  Judges v =
      v.name ≡ str "MissingTimestampDetector"
      → v.validate df symbol
        ≡ (missing_timestamp_detector fl config.tolerance warning (some interval) df symbol).1

  all_validators-Judges : All Judges (all_validators fl config (some interval))
  unfolding all_validators Judges text_beq
  all_validators-Judges = (
    (λ e. absurd (other (str "PriceSanityCheck") refl e)),
    (
      (λ e. absurd (other (str "DuplicateDetector") refl e)),
      (
        (λ e. absurd (other (str "GapDetector") refl e)),
        (
          (λ e. absurd (other (str "SpikeDetector") refl e)),
          (
            (λ e. refl),
            (
              (λ e. absurd (other (str "ZeroVolumeDetector") refl e)),
              ((λ e. absurd (other (str "SpreadAnalyzer") refl e)), tt),
            ),
          ),
        ),
      ),
    ),
  )
    where
      other :
          (name : Text)
          → text_beq name (str "MissingTimestampDetector") ≡ false
          → name ≡ str "MissingTimestampDetector"
          → ⊥
      other name h e = text_ne name (str "MissingTimestampDetector") h e

  -- The issues of the missing times by the interval.
  abbrev detected : List ValidationIssue
  detected = found (
      missing_issues fl (fl.mul (fl.of_int interval) config.tolerance) warning symbol interval
        (with_previous none df.content))

  detector-late :
      2 ≤ df.rows
      → has_column df (str "timestamp") ≡ true
      → found (missing_timestamp_detector fl config.tolerance warning (some interval) df symbol).1
        ≡ detected
  unfolding missing_timestamp_detector interval_for
  detector-late two times = let many : ltb df.rows 2 ≡ false = ground arith in rw (many, times) refl

  -- The detector itself, where the configuration enables it.
  abbrev detector : Validator (List (Bar N))
  detector = record {
    name = str "MissingTimestampDetector";
    validate = λ frame symbol.
        (missing_timestamp_detector fl config.tolerance warning (some interval) frame symbol).1;
  }

  In-detector : In detector (all_validators fl config (some interval))
  unfolding all_validators
  In-detector = inr (inr (inr (inr (inl refl))))

  late-names :
      (i : ValidationIssue)
      → In i detected
      → 2 ≤ df.rows
      → has_column df (str "timestamp") ≡ true
      → i.check_name ≡ str "MissingTimestampDetector"
  late-names i j two times =
      (missing_timestamp_detector-Named fl config.tolerance warning (some interval) df symbol).every
        i (subst (In i) (sym (detector-late two times)) j)

  has_ohlc-there :
      (lower : Text → Text)
      → ((c : Text) → In c (required_or_default none) → has_column df c ≡ true)
      → has_ohlc lower df ≡ true
  unfolding has_ohlc
  has_ohlc-there lower there =
      rw
        (
          there (str "open") (inr (inl refl)),
          there (str "high") (inr (inr (inl refl))),
          there (str "low") (inr (inr (inr (inl refl)))),
          there (str "close") (inr (inr (inr (inr (inl refl))))),
        )
        refl

  reported-late :
      (lower : Text → Text) (report : ValidationReport)
      → is_enabled fl config.enabled_checks (str "MissingTimestampDetector") ≡ true
      → 2 ≤ df.rows
      → (run_pipeline fl lower config (some interval) df symbol none).1 ≡ ok report
      → (i : ValidationIssue)
      → (In i report.issues × (i.check_name ≡ str "MissingTimestampDetector")) ↔ In i detected
  unfolding run_pipeline initialize_validators Judges
  reported-late lower report enabled two reported i =
      elim (validate-exact lower df symbol (initialize_validators fl config (some interval)) none) [
        | inl (e, _) ↦ cc
        | inr (report', e, _, there, finds, _, _) ↦
            let same : report' ≡ report = cc in
            let times = there (str "timestamp") (inl refl) in
            let late = detector-late two times in
            (
              λ h.
                  let (v, m, _, own, k) =
                    run_pipeline-names fl lower config (some interval) df symbol none report
                      reported i h.0 in
                  let judged =
                    In-All Judges (all_validators fl config (some interval)) all_validators-Judges m
                      (sym own ∙ h.1) in
                  subst (In i) (ap found judged ∙ late) k,
              λ j. (
                subst (λ (r : ValidationReport). In i r.issues) same
                    ((finds i).1 (
                      detector,
                      (In-keep_iff (λ v. is_enabled fl config.enabled_checks v.name) detector
                            (all_validators fl config (some interval))).1
                          (In-detector, enabled),
                      ground (arith, has_ohlc-there lower there),
                      subst (In i) (sym late) j,
                    )),
                late-names i j two times,
              ),
            )
      ]

module _ {N : Type 0} (fl : Numbers N) where
  -- A pipeline without a configured interval takes the commonest gap between the rows of the first
  -- frame that it validates, where that frame has two rows or more and times, its validation ends with
  -- a report, and the detector is enabled. It judges every later frame of two rows or more by that
  -- interval, whatever the frames between them are: if the numbers of missing bars can be computed, the
  -- issues of missing times in a report on the later frame are exactly those of its rows after a gap
  -- above this interval with the tolerance, not above its own.
  pub run_frames-judges :
      (lower : Text → Text) (config : ValidationConfig N) (df : BarFrame N) (symbol : Text)
      (report : ValidationReport) (frames : List (BarFrame N × Text)) (later : BarFrame N)
      (later_symbol : Text) (later_report : ValidationReport) (bars : ℤ → ℤ)
      → validate lower (initialize_validators fl config none) df symbol none ≡ ok report
      → is_enabled fl config.enabled_checks (str "MissingTimestampDetector") ≡ true
      → 2 ≤ df.rows
      → has_column df (str "timestamp") ≡ true
      → 2 ≤ later.rows
      → Counts fl (commonest_gap fl df) bars
      → (run_pipeline fl lower config
          (run_frames fl lower config none ((df, symbol) ∷ frames))
          later
          later_symbol
          none).1
        ≡ ok later_report
      → (i : ValidationIssue)
      → (In i later_report.issues × (i.check_name ≡ str "MissingTimestampDetector"))
        ↔ In i (late_issues fl config.tolerance (commonest_gap fl df) bars later later_symbol)
  run_frames-judges lower config df symbol report frames later later_symbol later_report bars valid
        enabled two times two_later counts reported i =
      let interval = commonest_gap fl df in
      let kept : run_frames fl lower config none ((df, symbol) ∷ frames) ≡ some interval =
        run_frames-interval fl lower config df symbol report frames valid enabled two times
        ∙ ap (λ ds. some (fl.most_common ds)) (time_diffs-neighbours fl df.content) in
      subst
        (λ issues.
          (In i later_report.issues × (i.check_name ≡ str "MissingTimestampDetector"))
          ↔ In i issues)
        (missing_issues-late fl config.tolerance interval bars later_symbol counts later)
        (reported-late fl config interval later later_symbol lower later_report enabled two_later
          (sym (ap (λ x. (run_pipeline fl lower config x later later_symbol none).1) kept)
            ∙ reported)
          i)
