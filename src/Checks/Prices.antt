-- ===== src/Checks/Prices.antt =====
-- `PriceSanityCheck` of src/hqt/data/validation/checks.py.
use haru_quant_cbot.Prelude.Text.{str, Text}
use haru_quant_cbot.Prelude.{◌>>=◌, ok, if◌then◌else◌, [], ◌∷◌, ◌++◌, Result, map, ◌||◌, List, Bool}
use haru_quant_cbot.Validation.{
  warning, ohlc_inconsistency, price_sanity, is_empty, ValidationIssue, IssueType, IssueSeverity,
}
use haru_quant_cbot.Checks.{Numbers, Bar, BarFrame, need, report_rows}

module _ {N : Type 0} (fl : Numbers N) where
  unfoldable pub non_positive : Bar N → Bool
  non_positive row =
      fl.le row.«open» fl.zero_number
      || fl.le row.high fl.zero_number
      || fl.le row.low fl.zero_number
      || fl.le row.close fl.zero_number

  unfoldable pub high_violation : Bar N → Bool
  high_violation row = fl.lt row.high (fl.maximum row.«open» row.close)

  unfoldable pub low_violation : Bar N → Bool
  low_violation row = fl.lt (fl.minimum row.«open» row.close) row.low

  unfoldable pub hl_violation : Bar N → Bool
  hl_violation row = fl.lt row.high row.low

  abbrev pub median_close : List (Bar N) → N
  median_close rows = fl.median (map (λ (row : Bar N). row.close) rows)

  unfoldable pub out_of_bounds : N → List (Bar N) → Bar N → Bool
  out_of_bounds multiplier rows row =
      fl.lt (fl.mul (median_close rows) multiplier) row.close
      || fl.lt row.close (fl.div (median_close rows) multiplier)

  abbrev pub sanity_issue :
      IssueType → IssueSeverity → Text → (Bar N → Text) → Bar N → ValidationIssue
  sanity_issue issue_type severity symbol message row = record {
    issue_type = issue_type;
    severity = severity;
    timestamp = row.timestamp;
    symbol = symbol;
    message = message row;
    check_name = str "PriceSanityCheck";
  }

  abbrev pub non_positive_message : Bar N → Text
  non_positive_message row =
      str "Non-positive price detected: O="
      ++ fl.show row.«open»
      ++ str ", H="
      ++ fl.show row.high
      ++ str ", L="
      ++ fl.show row.low
      ++ str ", C="
      ++ fl.show row.close

  abbrev pub high_message : Bar N → Text
  high_message row =
      str "High ("
      ++ fl.show row.high
      ++ str ") < max(open, close) ("
      ++ fl.show (fl.maximum row.«open» row.close)
      ++ str ")"

  abbrev pub low_message : Bar N → Text
  low_message row =
      str "Low ("
      ++ fl.show row.low
      ++ str ") > min(open, close) ("
      ++ fl.show (fl.minimum row.«open» row.close)
      ++ str ")"

  abbrev pub hl_message : Bar N → Text
  hl_message row = str "High (" ++ fl.show row.high ++ str ") < Low (" ++ fl.show row.low ++ str ")"

  abbrev pub bounds_message : N → List (Bar N) → Bar N → Text
  bounds_message multiplier rows row =
      str "Price "
      ++ fl.show row.close
      ++ str " outside reasonable bounds ["
      ++ fl.show_fixed 5 (fl.div (median_close rows) multiplier)
      ++ str ", "
      ++ fl.show_fixed 5 (fl.mul (median_close rows) multiplier)
      ++ str "]"

  -- `validate`: the five checks, one after the other.
  unfoldable pub price_sanity_check :
      N → IssueSeverity → BarFrame N → Text → Result (List ValidationIssue)
  unfolding need report_rows
  price_sanity_check multiplier severity df symbol = if is_empty df then ok [] else (do
    _ ← need (str "open" ∷ str "high" ∷ str "low" ∷ str "close" ∷ []) df
    negative ← flagged non_positive (sanity_issue price_sanity severity symbol non_positive_message)
    high ← flagged high_violation (sanity_issue ohlc_inconsistency severity symbol high_message)
    low ← flagged low_violation (sanity_issue ohlc_inconsistency severity symbol low_message)
    hl ← flagged hl_violation (sanity_issue ohlc_inconsistency severity symbol hl_message)
    bounds ←
        flagged (out_of_bounds multiplier df.content)
          (sanity_issue price_sanity warning symbol (bounds_message multiplier df.content))
    ok (negative ++ high ++ low ++ hl ++ bounds))
    where
      flagged : (Bar N → Bool) → (Bar N → ValidationIssue) → Result (List ValidationIssue)
      flagged mask issue = report_rows (str "timestamp" ∷ []) df mask issue df.content
