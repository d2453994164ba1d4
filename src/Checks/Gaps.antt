-- ===== src/Checks/Gaps.antt =====
-- The gaps between the rows of a frame, beside MissingTimestampDetector of
-- src/hqt/data/validation/checks.py.
use haru_quant_cbot.Validation.{missing_timestamp, warning, found, ValidationIssue}
use haru_quant_cbot.Checks.Times.{
  time_diffs, time_diff, is_missing, missing_issue, missing_message, missing_issues,
}
use haru_quant_cbot.Prelude.{
  [], Bool, map, keep, Bool-cases, List-cases, ap, refl, ◌∷◌, inl, inr, ok, some, none, ◌≡◌, List,
}
use haru_quant_cbot.Prelude.Int.{ℤ, pos, ◌-ℤ◌}
use haru_quant_cbot.Prelude.Text.{str, Text}
use haru_quant_cbot.Checks.{with_previous, Bar, BarFrame, Numbers}

-- The rows of a frame, each with the one after it.
unfoldable pub neighbours : {A : Type 0} → List A → List (A × A)
neighbours [] = []
neighbours (a ∷ []) = []
neighbours (a ∷ b ∷ rows) = (a, b) ∷ neighbours (b ∷ rows)

module _ {N : Type 0} (fl : Numbers N) where
  -- The time between two rows.
  abbrev pub gap : Bar N × Bar N → ℤ
  gap (a, b) = pos b.timestamp -ℤ pos a.timestamp

  -- The commonest gap of a frame.
  abbrev pub commonest_gap : BarFrame N → ℤ
  commonest_gap df = fl.most_common (map gap (neighbours df.content))

  -- Where a gap is above the interval with the tolerance, and the issue of the later row, with the
  -- number of bars that are missing.
  abbrev pub is_late : N → ℤ → Bar N × Bar N → Bool
  is_late tolerance interval p = fl.lt (fl.mul (fl.of_int interval) tolerance) (fl.of_int (gap p))

  abbrev pub late_issue : Text → ℤ → (ℤ → ℤ) → Bar N × Bar N → ValidationIssue
  late_issue symbol interval bars p = record {
    issue_type = missing_timestamp;
    severity = warning;
    timestamp = p.1.timestamp;
    symbol = symbol;
    message = missing_message fl interval (fl.of_int (gap p)) (bars (gap p));
    check_name = str "MissingTimestampDetector";
  }

  -- The issues of the rows after a gap above the interval.
  abbrev pub late_issues : N → ℤ → (ℤ → ℤ) → BarFrame N → Text → List ValidationIssue
  late_issues tolerance interval bars df symbol =
      map (late_issue symbol interval bars)
        (keep (is_late tolerance interval) (neighbours df.content))

  -- The number of missing bars of each gap can be computed.
  abbrev pub Counts : ℤ → (ℤ → ℤ) → Type 0
  Counts interval bars =
      (d : ℤ) → fl.truncate (fl.div (fl.of_int d) (fl.of_int interval)) ≡ ok (bars d)

  diffs_from :
      (a : Bar N) (rows : List (Bar N))
      → time_diffs fl (with_previous (some a) rows) ≡ map gap (neighbours (a ∷ rows))
  unfolding time_diffs time_diff with_previous neighbours
  diffs_from a [] = refl
  diffs_from a (b ∷ rows) = ap (λ ds. gap (a, b) ∷ ds) (diffs_from b rows)

  pub time_diffs-neighbours :
      (rows : List (Bar N)) → time_diffs fl (with_previous none rows) ≡ map gap (neighbours rows)
  unfolding time_diffs time_diff with_previous neighbours
  time_diffs-neighbours [] = refl
  time_diffs-neighbours (a ∷ rows) = diffs_from a rows

  issues_from :
      (tolerance : N) (interval : ℤ) (bars : ℤ → ℤ) (symbol : Text)
      → Counts interval bars
      → (a : Bar N) (rows : List (Bar N))
      → missing_issues fl
          (fl.mul (fl.of_int interval) tolerance)
          warning
          symbol
          interval
          (with_previous (some a) rows)
        ≡ ok (
            map
              (late_issue symbol interval bars)
              (keep (is_late tolerance interval) (neighbours (a ∷ rows))))
  unfolding missing_issues missing_issue is_missing time_diff with_previous neighbours
  issues_from tolerance interval bars symbol counts a [] = refl
  issues_from tolerance interval bars symbol counts a (b ∷ rows) =
      elim (Bool-cases (is_late tolerance interval (a, b))) [
        | inl late ↦
            rw (late, counts (gap (a, b)), issues_from tolerance interval bars symbol counts b rows)
              refl
        | inr soon ↦ rw soon (issues_from tolerance interval bars symbol counts b rows)
      ]

  pub missing_issues-late :
      (tolerance : N) (interval : ℤ) (bars : ℤ → ℤ) (symbol : Text)
      → Counts interval bars
      → (df : BarFrame N)
      → found (
          missing_issues fl
            (fl.mul (fl.of_int interval) tolerance)
            warning
            symbol
            interval
            (with_previous none df.content))
        ≡ late_issues tolerance interval bars df symbol
  unfolding missing_issues is_missing time_diff with_previous neighbours
  missing_issues-late tolerance interval bars symbol counts df = elim (List-cases df.content) [
    | inl e ↦ rw e refl
    | inr (a, rows, e) ↦ rw e (ap found (issues_from tolerance interval bars symbol counts a rows))
  ]
