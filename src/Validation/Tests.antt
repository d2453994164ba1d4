-- ===== src/Validation/Tests.antt =====
-- A pipeline of three checks: one that finds an issue, one that needs prices, and one that raises.
use haru_quant_cbot.Prelude.{refl, other_error, ◌≡◌, [], raise, ok, ◌∷◌, ℕ}
use haru_quant_cbot.Prelude.Text.{text_beq, starts_with, contains_text, str, Text}
use haru_quant_cbot.Validation.{
  has_ohlc, is_ohlc_check, run_validators, has_column, missing_timestamp, is_empty,
  ValidationReport, Frame, ValidationIssue, validate, Validator, validate_ticks, critical,
}

abbrev late : ValidationIssue
late = record {
  issue_type = missing_timestamp;
  severity = critical;
  timestamp = 7;
  symbol = str "EU";
  message = str "late";
  check_name = str "m";
}

abbrev finder : Validator ℕ
finder = record { name = str "m"; validate = λ df symbol. ok (late ∷ []) }

abbrev gaps : Validator ℕ
gaps = record { name = str "gap"; validate = λ df symbol. ok (late ∷ late ∷ []) }

abbrev failing : Validator ℕ
failing = record { name = str "z"; validate = λ df symbol. raise other_error }

abbrev ticks : Frame ℕ
ticks = record { columns = str "timestamp" ∷ str "bid" ∷ str "ask" ∷ []; rows = 4; content = 0 }

abbrev as_is : Text → Text
as_is t = t

abbrev tick_report : ValidationReport
tick_report = record {
  symbol = str "EU";
  issues = late ∷ [];
  total_bars = 4;
  checks_run = str "gap" ∷ str "m" ∷ str "z" ∷ [];
}

-- The check of the gaps is skipped and the last one raises, and both are named as run.
ticks_checked :
    validate_ticks as_is (gaps ∷ finder ∷ failing ∷ []) ticks (str "EU") ≡ ok tick_report
unfolding validate_ticks validate is_empty has_column run_validators is_ohlc_check has_ohlc
    contains_text starts_with text_beq
ticks_checked = refl
