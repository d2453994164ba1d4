-- ===== src/Validation.antt =====
-- `ValidationPipeline` and `ValidationReport` of src/hqt/data/validation/pipeline.py and report.py.
-- Data frames and what a single check finds in one are parameters; so is `str.lower`.
pub mod Pipeline
mod Reports
mod Tests
use haru_quant_cbot.Prelude.Int.{◌-ℤ◌, pos, ℤ}
use haru_quant_cbot.Prelude.Text.{contains_text, str, text_beq, Text}
use haru_quant_cbot.Prelude.{
  map, distinct, value_error, none, ok, some, [], ◌&&◌, false, raise, ◌||◌, not, if◌then◌else◌,
  true, ◌++◌, keep, Result, length, ltb, nat_beq, ◌∷◌, any_of, Option, count_if, Bool, ℕ, List,
}

pub data IssueSeverity : Type 0 where
  info warning error critical : IssueSeverity

pub data IssueType : Type 0 where
  price_sanity gap spike missing_timestamp zero_volume duplicate : IssueType
  spread_anomaly ohlc_inconsistency : IssueType

-- `details` is left out: it is for the reader.
pub record ValidationIssue : Type 0 where
  pub issue_type : IssueType
  pub severity : IssueSeverity
  pub timestamp : ℕ
  pub symbol : Text
  pub message : Text
  pub check_name : Text

-- A data frame: its columns, its number of rows, and its data.
pub record Frame (F : Type 0) : Type 0 where
  pub columns : List Text
  pub rows : ℕ
  pub content : F

-- `df.empty`
unfoldable pub is_empty : {F : Type 0} → Frame F → Bool
is_empty df = nat_beq df.rows 0 || nat_beq (length df.columns) 0

unfoldable pub has_column : {F : Type 0} → Frame F → Text → Bool
has_column df column = any_of (text_beq column) df.columns

-- A check: its name, and what its `validate` comes to.
pub record Validator (F : Type 0) : Type 0 where
  pub name : Text
  pub validate : Frame F → Text → Result (List ValidationIssue)

pub record ValidationReport : Type 0 where
  pub symbol : Text
  pub issues : List ValidationIssue
  pub total_bars : ℕ
  pub checks_run : List Text

-- What an `except Exception` leaves of a check: nothing.
abbrev pub found : Result (List ValidationIssue) → List ValidationIssue
found (ok issues) = issues
found (raise e) = []

abbrev pub required_or_default : Option (List Text) → List Text
required_or_default none = str "timestamp" ∷ str "open" ∷ str "high" ∷ str "low" ∷ str "close" ∷ []
required_or_default (some columns) = columns

module _ {F : Type 0} (lower : Text → Text) where
  -- `is_ohlc_check`
  unfoldable pub is_ohlc_check : Validator F → Bool
  is_ohlc_check v =
      any_of (λ word. contains_text word (lower v.name))
        (str "price" ∷ str "gap" ∷ str "spike" ∷ str "spread" ∷ [])

  -- `all(c in df.columns for c in ohlc_cols)`
  unfoldable pub has_ohlc : Frame F → Bool
  unfolding has_column
  has_ohlc df =
      not (
        any_of (λ c. not (has_column df c))
          (str "open" ∷ str "high" ∷ str "low" ∷ str "close" ∷ []))

  -- The loop over the validators.
  unfoldable pub run_validators :
      Frame F → Text → List (Validator F) → List ValidationIssue → List ValidationIssue
  unfolding is_ohlc_check has_ohlc
  run_validators df symbol [] all_issues = all_issues
  run_validators df symbol (v ∷ validators) all_issues =
      let skipped = run_validators df symbol validators all_issues in
      let extended =
        run_validators df symbol validators (all_issues ++ found (v.validate df symbol)) in
      if is_ohlc_check v && not (has_ohlc df) then skipped else extended

  unfoldable pub validate :
      List (Validator F) → Frame F → Text → Option (List Text) → Result ValidationReport
  unfolding is_empty has_column run_validators
  validate validators df symbol required_columns =
      if is_empty df
      then raise value_error
      else if any_of (λ c. not (has_column df c)) (required_or_default required_columns)
      then raise value_error
      else ok (record {
        symbol = symbol;
        issues = run_validators df symbol validators [];
        total_bars = df.rows;
        checks_run = map (λ (v : Validator F). v.name) validators;
      })

  unfoldable pub validate_bars : List (Validator F) → Frame F → Text → Result ValidationReport
  unfolding validate
  validate_bars validators df symbol =
      validate validators df symbol
        (some (str "timestamp" ∷ str "open" ∷ str "high" ∷ str "low" ∷ str "close" ∷ []))

  unfoldable pub validate_ticks : List (Validator F) → Frame F → Text → Result ValidationReport
  unfolding validate
  validate_ticks validators df symbol =
      validate validators df symbol (some (str "timestamp" ∷ str "bid" ∷ str "ask" ∷ []))

unfoldable pub add_validator : {F : Type 0} → Validator F → List (Validator F) → List (Validator F)
add_validator v validators = validators ++ v ∷ []

-- The validators that stay, and whether one was removed.
unfoldable pub remove_validator :
    {F : Type 0} → Text → List (Validator F) → List (Validator F) × Bool
remove_validator validator_name validators =
    let rest = keep (λ v. not (text_beq v.name validator_name)) validators in
    (rest, ltb (length rest) (length validators))

unfoldable pub severity_beq : IssueSeverity → IssueSeverity → Bool
severity_beq info info = true
severity_beq warning warning = true
severity_beq error error = true
severity_beq critical critical = true
severity_beq a b = false

-- An entry of `severity_counts`.
unfoldable pub severity_count : IssueSeverity → ValidationReport → ℕ
unfolding severity_beq
severity_count s report = count_if (λ i. severity_beq i.severity s) report.issues

unfoldable pub total_issues : ValidationReport → ℕ
total_issues report = length report.issues

unfoldable pub clean : ValidationReport → Bool
clean report = nat_beq (length report.issues) 0

unfoldable pub get_issues_by_severity : IssueSeverity → ValidationReport → List ValidationIssue
unfolding severity_beq
get_issues_by_severity s report = keep (λ i. severity_beq i.severity s) report.issues

unfoldable pub critical_issues : ValidationReport → List ValidationIssue
unfolding get_issues_by_severity
critical_issues report = get_issues_by_severity critical report

unfoldable pub has_critical_issues : ValidationReport → Bool
unfolding severity_count
has_critical_issues report = ltb 0 (severity_count critical report)

-- `pass_rate` as a fraction: `total_bars - affected_bars`, which may be below zero, and the
-- denominator.
unfoldable pub pass_rate : ValidationReport → ℤ × ℕ
pass_rate report = if nat_beq report.total_bars 0 then (pos 1, 1) else (
  pos report.total_bars
      -ℤ pos (length (distinct nat_beq (map (λ (i : ValidationIssue). i.timestamp) report.issues))),
  report.total_bars,
)
