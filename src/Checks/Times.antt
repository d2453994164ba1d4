-- ===== src/Checks/Times.antt =====
-- `MissingTimestampDetector` and `DuplicateDetector` of src/hqt/data/validation/checks.py.
use haru_quant_cbot.Prelude.Sort.{sort}
use haru_quant_cbot.Prelude.Text.{decimal, str, Text}
use haru_quant_cbot.Prelude.Int.{◌-ℤ◌, pos, ℤ}
use haru_quant_cbot.Prelude.{
  key_error, length, map, type_error, not, ◌>>=◌, count_if, raise, if◌then◌else◌, distinct, ◌++◌,
  [], keep, ok, none, leb, ltb, nat_beq, false, Result, Bool, ◌∷◌, Option, ℕ, List,
}
use haru_quant_cbot.Validation.{
  missing_timestamp, is_empty, duplicate, ValidationIssue, IssueSeverity, has_column,
}
use haru_quant_cbot.Checks.{some, Numbers, Bar, BarFrame, need, with_previous}

module _ {N : Type 0} (fl : Numbers N) where
  -- `df["timestamp"].diff()`
  unfoldable pub time_diff : Option (Bar N) × Bar N → Option ℤ
  time_diff (none, row) = none
  time_diff (some previous, row) = some (pos row.timestamp -ℤ pos previous.timestamp)

  -- `.dropna()`
  unfoldable pub time_diffs : List (Option (Bar N) × Bar N) → List ℤ
  unfolding time_diff
  time_diffs [] = []
  time_diffs (r ∷ rows) = elim (time_diff r) [
    | none ↦ time_diffs rows
    | some d ↦ d ∷ time_diffs rows
  ]

  unfoldable pub is_missing : N → Option ℤ → Bool
  is_missing threshold none = false
  is_missing threshold (some d) = fl.lt threshold (fl.of_int d)

  -- The interval that the loop works with: the one of the detector, or the commonest difference.
  unfoldable pub interval_for : Option ℤ → List (Bar N) → ℤ
  unfolding time_diffs with_previous
  interval_for none rows = fl.most_common (time_diffs (with_previous none rows))
  interval_for (some interval) rows = interval

  abbrev pub missing_message : ℤ → N → ℤ → Text
  missing_message interval gap_seconds expected_bars =
      str "Missing timestamps detected: "
      ++ fl.show_fixed 0 gap_seconds
      ++ str "s gap (expected ~"
      ++ fl.show_int interval
      ++ str "s, ~"
      ++ fl.show_int expected_bars
      ++ str " bars missing)"

  -- The body of the loop, for a row after a gap.
  unfoldable pub missing_issue :
      IssueSeverity → Text → ℤ → Option ℤ → Bar N → Result ValidationIssue
  missing_issue severity symbol interval none row = raise type_error
  missing_issue severity symbol interval (some d) row = do
    expected_bars ← fl.truncate (fl.div (fl.of_int d) (fl.of_int interval))
    ok (record {
      issue_type = missing_timestamp;
      severity = severity;
      timestamp = row.timestamp;
      symbol = symbol;
      message = missing_message interval (fl.of_int d) expected_bars;
      check_name = str "MissingTimestampDetector";
    })

  -- The loop over the rows after a gap.
  unfoldable pub missing_issues :
      N → IssueSeverity → Text → ℤ → List (Option (Bar N) × Bar N) → Result (List ValidationIssue)
  unfolding time_diff is_missing missing_issue
  missing_issues threshold severity symbol interval [] = ok []
  missing_issues threshold severity symbol interval (r ∷ rows) =
      let rest = missing_issues threshold severity symbol interval rows in
      if is_missing threshold (time_diff r)
      then (missing_issue severity symbol interval (time_diff r) r.1
          >>= (λ i. rest >>= (λ issues. ok (i ∷ issues))))
      else rest

  -- The detector keeps the interval that it finds: its new interval, and what it reports.
  unfoldable pub missing_timestamp_detector :
      N → IssueSeverity → Option ℤ → BarFrame N → Text → Option ℤ × Result (List ValidationIssue)
  unfolding interval_for missing_issues with_previous has_column
  missing_timestamp_detector tolerance severity expected df symbol =
      let interval = interval_for expected df.content in
      if ltb df.rows 2
      then (expected, ok [])
      else if not (has_column df (str "timestamp"))
      then (expected, raise key_error)
      else (
        some interval,
        missing_issues (fl.mul (fl.of_int interval) tolerance) severity symbol interval
            (with_previous none df.content),
      )

-- The columns that the details of a duplicate read.
abbrev pub detail_columns : List Text
detail_columns = str "open" ∷ str "high" ∷ str "low" ∷ str "close" ∷ str "volume" ∷ []

module _ {N : Type 0} where
  abbrev pub at_time : ℕ → Bar N → Bool
  at_time t row = nat_beq row.timestamp t

  -- `.duplicated(keep=False)`
  unfoldable pub duplicated : List (Bar N) → Bar N → Bool
  duplicated rows row = ltb 1 (count_if (at_time row.timestamp) rows)

  -- The keys of `groupby("timestamp")`, in order.
  unfoldable pub group_keys : List (Bar N) → List ℕ
  group_keys rows = sort leb (distinct nat_beq (map (λ (row : Bar N). row.timestamp) rows))

  abbrev pub duplicate_issue : IssueSeverity → Text → ℕ → Bar N → ValidationIssue
  duplicate_issue severity symbol count row = record {
    issue_type = duplicate;
    severity = severity;
    timestamp = row.timestamp;
    symbol = symbol;
    message =
        str "Duplicate timestamp detected: "
        ++ decimal row.timestamp
        ++ str " appears "
        ++ decimal count
        ++ str " times";
    check_name = str "DuplicateDetector";
  }

  -- The loops over the groups and over the rows of a group.
  unfoldable pub group_issues : IssueSeverity → Text → List (Bar N) → List ℕ → List ValidationIssue
  group_issues severity symbol duplicates [] = []
  group_issues severity symbol duplicates (t ∷ keys) =
      let group = keep (at_time t) duplicates in
      map (duplicate_issue severity symbol (length group)) group
      ++ group_issues severity symbol duplicates keys

  unfoldable pub duplicate_detector :
      IssueSeverity → BarFrame N → Text → Result (List ValidationIssue)
  unfolding need duplicated group_keys group_issues
  duplicate_detector severity df symbol =
      if is_empty df
      then ok []
      else (need (str "timestamp" ∷ []) df >>= (λ _.
          let duplicates = keep (duplicated df.content) df.content in
          if nat_beq (length duplicates) 0
          then ok []
          else (need detail_columns df
              >>= (λ _. ok (group_issues severity symbol duplicates (group_keys duplicates))))))
