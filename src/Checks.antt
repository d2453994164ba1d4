-- ===== src/Checks.antt =====
-- The frames of bars that the checks of src/hqt/data/validation/checks.py and the cleaning of
-- cleaning.py work on. A frame is the list of its rows with the default index; the numbers, their
-- formats, and the means, medians and modes of pandas are parameters.
pub mod Prices
pub mod Standard
pub mod Volumes
pub mod Times
pub mod Moves
pub mod Sanity
pub mod Duplicates
pub mod Intervals
pub mod Names
pub mod Composed
mod Tests
pub mod Cleaning
pub mod Cleaned
pub mod Refilled
pub mod Instances
mod CleaningTests
pub mod Gaps
pub mod Judged
use haru_quant_cbot.Validation.{
  Frame, has_column, IssueSeverity, IssueType, ValidationIssue, is_empty,
}
use haru_quant_cbot.Prelude.Int.{ℤ}
use haru_quant_cbot.Prelude.Text.{Text}
use haru_quant_cbot.Prelude.{
  any_of, Bool, keep, key_error, List, map, not, ok, raise, Result, ℕ, [], if◌then◌else◌, ◌∷◌,
  ◌>>=◌, Option, none, some,
}

-- Columns of floats, with `.max(axis=1)` and `.min(axis=1)` of two columns.
pub record Numbers (N : Type 0) : Type 0 where
  pub lt : N → N → Bool
  pub le : N → N → Bool
  pub is_zero : N → Bool
  pub is_nan : N → Bool
  pub zero_number : N
  pub one_number : N
  pub sub : N → N → N
  pub mul : N → N → N
  pub div : N → N → N
  pub absolute : N → N
  pub maximum : N → N → N
  pub minimum : N → N → N
  -- `.mean()`, `.median()`, and the mean of one window of `.rolling`
  pub mean : List N → N
  pub median : List N → N
  pub window_mean : List N → N
  -- `float(n)`, `int(x)`, `.mode()[0]` of differences
  pub of_int : ℤ → N
  pub truncate : N → Result ℤ
  pub most_common : List ℤ → ℤ
  -- `f"{x}"`, `f"{x:.nf}"`, `f"{n}"`
  pub show : N → Text
  pub show_fixed : ℕ → N → Text
  pub show_int : ℤ → Text

-- A row. The value of a column that the frame does not have is never read.
pub record Bar (N : Type 0) : Type 0 where
  pub timestamp : ℕ
  pub «open» : N
  pub high : N
  pub low : N
  pub close : N
  pub volume : N
  pub tick_volume : N
  pub real_volume : N

abbrev pub BarFrame : Type 0 → Type 0
BarFrame N = Frame (List (Bar N))

-- `df[column]` for each of the columns, which raises a KeyError where one is missing.
unfoldable pub need : {F : Type 0} → List Text → Frame F → Result {0} Unit
unfolding has_column
need columns df = if any_of (λ c. not (has_column df c)) columns then raise key_error else ok tt

module _ {A : Type 0} {F : Type 0} where
  -- The loop over the rows of a mask: `row = df.loc[idx]; issues.append(...)`, where the issue reads
  -- columns of the row.
  unfoldable pub report_flagged :
      List Text → Frame F → (A → ValidationIssue) → List A → Result (List ValidationIssue)
  unfolding need
  report_flagged columns df issue [] = ok []
  report_flagged columns df issue (row ∷ flagged) =
      need columns df >>= (λ _. ok (map issue (row ∷ flagged)))

  -- `for idx in df[mask].index`
  unfoldable pub report_rows :
      List Text
      → Frame F
      → (A → Bool)
      → (A → ValidationIssue)
      → List A
      → Result (List ValidationIssue)
  unfolding report_flagged
  report_rows columns df mask issue rows = report_flagged columns df issue (keep mask rows)

-- Each row with the row before it, as `shift(1)` and `diff()` see it.
unfoldable pub with_previous : {A : Type 0} → Option A → List A → List (Option A × A)
with_previous previous [] = []
with_previous previous (row ∷ rows) = (previous, row) ∷ with_previous (some row) rows
