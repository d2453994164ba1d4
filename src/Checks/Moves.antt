-- ===== src/Checks/Moves.antt =====
-- `GapDetector`, `SpikeDetector` and `SpreadAnalyzer` of src/hqt/data/validation/checks.py.
use haru_quant_cbot.Prelude.Text.{str, Text}
use haru_quant_cbot.Validation.{
  spread_anomaly, gap, spike, ValidationIssue, IssueSeverity, IssueType,
}
use haru_quant_cbot.Prelude.{
  ◌>>=◌, [], ◌||◌, ok, length, ltb, if◌then◌else◌, map, take, ◌++◌, ◌∷◌, Result, none, false, Bool,
  List, ℕ, Option,
}
use haru_quant_cbot.Checks.{some, Numbers, Bar, BarFrame, need, report_rows, with_previous}

module _ {N : Type 0} (fl : Numbers N) where
  -- `df["high"] - df["low"]`
  abbrev pub bar_range : Bar N → N
  bar_range row = fl.sub row.high row.low

  abbrev pub move_issue :
      {A : Type 0}
      → IssueType
      → IssueSeverity
      → Text
      → Text
      → (A → Bar N)
      → (A → Text)
      → A
      → ValidationIssue
  move_issue issue_type severity check_name symbol row message a = record {
    issue_type = issue_type;
    severity = severity;
    timestamp = (row a).timestamp;
    symbol = symbol;
    message = message a;
    check_name = check_name;
  }

  -- `df["close"].diff().abs()`, which the first row does not have.
  unfoldable pub close_diff : Option (Bar N) × Bar N → Option N
  close_diff (none, row) = none
  close_diff (some previous, row) = some (fl.absolute (fl.sub row.close previous.close))

  unfoldable pub exceeds : N → Option N → Bool
  exceeds threshold none = false
  exceeds threshold (some x) = fl.lt threshold x

  -- A number that may be missing, in a message.
  abbrev pub show_missing : ℕ → Option N → Text
  show_missing digits none = str "nan"
  show_missing digits (some x) = fl.show_fixed digits x

  unfoldable pub gap_detector :
      N → IssueSeverity → BarFrame N → Text → Result (List ValidationIssue)
  unfolding need report_rows with_previous close_diff exceeds
  gap_detector multiplier severity df symbol =
      let avg_range = fl.mean (map bar_range df.content) in
      let threshold = fl.mul avg_range multiplier in
      let message : Option (Bar N) × Bar N → Text = λ r.
        str "Gap detected: "
        ++ show_missing 5 (close_diff r)
        ++ str " exceeds "
        ++ fl.show multiplier
        ++ str "x avg range ("
        ++ fl.show_fixed 5 threshold
        ++ str ")" in
      if ltb df.rows 2
      then ok []
      else (need (str "high" ∷ str "low" ∷ []) df >>= (λ _.
          if fl.is_zero avg_range
          then ok []
          else (need (str "close" ∷ []) df >>= (λ _.
              report_rows (str "timestamp" ∷ []) df (λ r. exceeds threshold (close_diff r))
                (move_issue gap severity (str "GapDetector") symbol (λ r. r.1) message)
                (with_previous none df.content)))))

  -- `df[["tr1", "tr2", "tr3"]].max(axis=1)`; the first row has only the first of the three.
  unfoldable pub true_range : Option (Bar N) × Bar N → N
  true_range (none, row) = bar_range row
  true_range (some previous, row) =
      fl.maximum (fl.maximum (bar_range row) (fl.absolute (fl.sub row.high previous.close)))
        (fl.absolute (fl.sub row.low previous.close))

  -- `.rolling(window=period).mean()`: the true ranges so far, the last one first, and what is to
  -- come; a window that is not full has no mean.
  unfoldable pub average_true_range :
      ℕ → List N → List (Option (Bar N) × Bar N) → List (Option N × Bar N)
  unfolding true_range
  average_true_range period before [] = []
  average_true_range period before (r ∷ rows) =
      let window = take period (true_range r ∷ before) in
      let atr = fl.window_mean window in
      (if ltb (length window) period || fl.is_nan atr then none else some atr, r.1)
      ∷ average_true_range period (true_range r ∷ before) rows

  unfoldable pub is_spike : N → Option N × Bar N → Bool
  is_spike multiplier (none, row) = false
  is_spike multiplier (some atr, row) = fl.lt (fl.mul atr multiplier) (bar_range row)

  abbrev pub spike_threshold : N → Option N → Option N
  spike_threshold multiplier none = none
  spike_threshold multiplier (some atr) = some (fl.mul atr multiplier)

  unfoldable pub spike_detector :
      N → ℕ → IssueSeverity → BarFrame N → Text → Result (List ValidationIssue)
  unfolding need report_rows with_previous average_true_range is_spike
  spike_detector multiplier atr_period severity df symbol =
      let message : Option N × Bar N → Text = λ r.
        str "Spike detected: range "
        ++ fl.show_fixed 5 (bar_range r.1)
        ++ str " exceeds "
        ++ fl.show multiplier
        ++ str "x ATR ("
        ++ show_missing 5 (spike_threshold multiplier r.0)
        ++ str ")" in
      if ltb df.rows atr_period
      then ok []
      else (need (str "close" ∷ str "high" ∷ str "low" ∷ []) df >>= (λ _.
          report_rows (str "timestamp" ∷ []) df (is_spike multiplier)
            (move_issue spike severity (str "SpikeDetector") symbol (λ r. r.1) message)
            (average_true_range atr_period [] (with_previous none df.content))))

  unfoldable pub spread_analyzer :
      N → ℕ → IssueSeverity → BarFrame N → Text → Result (List ValidationIssue)
  unfolding need report_rows
  spread_analyzer multiplier min_periods severity df symbol =
      let median_spread = fl.median (map bar_range df.content) in
      let threshold = fl.mul median_spread multiplier in
      let message : Bar N → Text = λ row.
        str "Abnormal spread detected: "
        ++ fl.show_fixed 5 (bar_range row)
        ++ str " is "
        ++ fl.show_fixed 2 (fl.div (bar_range row) median_spread)
        ++ str "x median ("
        ++ fl.show_fixed 5 median_spread
        ++ str "), exceeds "
        ++ fl.show multiplier
        ++ str "x threshold" in
      if ltb df.rows min_periods
      then ok []
      else (need (str "high" ∷ str "low" ∷ []) df >>= (λ _.
          if fl.is_zero median_spread
          then ok []
          else report_rows (str "timestamp" ∷ []) df (λ row. fl.lt threshold (bar_range row))
              (move_issue spread_anomaly severity (str "SpreadAnalyzer") symbol (λ row. row)
                message)
              df.content))
