-- ===== src/Checks/Volumes.antt =====
-- `ZeroVolumeDetector` of src/hqt/data/validation/checks.py.
use haru_quant_cbot.Prelude.Text.{str, Text}
use haru_quant_cbot.Prelude.{
  ◌∷◌, [], none, some, ok, ◌++◌, List, if◌then◌else◌, Result, ◌||◌, Option, Bool,
}
use haru_quant_cbot.Validation.{is_empty, zero_volume, ValidationIssue, IssueSeverity, has_column}
use haru_quant_cbot.Checks.{Numbers, Bar, BarFrame, report_rows}

module _ {N : Type 0} (fl : Numbers N) where
  -- `vol_col`: its name and its values.
  unfoldable pub volume_column : BarFrame N → Option (Bar N → N)
  unfolding has_column
  volume_column df =
      if has_column df (str "volume")
      then some (λ row. row.volume)
      else if has_column df (str "tick_volume")
      then some (λ row. row.tick_volume)
      else if has_column df (str "real_volume")
      then some (λ row. row.real_volume)
      else none

  -- `(volume <= 0) | volume.isna()`
  unfoldable pub invalid_volume : N → Bool
  invalid_volume v = fl.le v fl.zero_number || fl.is_nan v

  abbrev pub volume_issue : IssueSeverity → Text → (Bar N → N) → Bar N → ValidationIssue
  volume_issue severity symbol value row = record {
    issue_type = zero_volume;
    severity = severity;
    timestamp = row.timestamp;
    symbol = symbol;
    message =
        str "Zero or invalid volume detected: "
        ++ (if fl.is_nan (value row) then str "None" else fl.show (value row));
    check_name = str "ZeroVolumeDetector";
  }

  -- The loop, for the volumes that were chosen.
  unfoldable pub check_volumes :
      IssueSeverity → BarFrame N → Text → Option (Bar N → N) → Result (List ValidationIssue)
  unfolding report_rows invalid_volume
  check_volumes severity df symbol none = ok []
  check_volumes severity df symbol (some value) =
      report_rows (str "timestamp" ∷ str "open" ∷ str "high" ∷ str "low" ∷ str "close" ∷ []) df
        (λ row. invalid_volume (value row)) (volume_issue severity symbol value) df.content

  unfoldable pub zero_volume_detector :
      IssueSeverity → BarFrame N → Text → Result (List ValidationIssue)
  unfolding volume_column check_volumes
  zero_volume_detector severity df symbol =
      if is_empty df then ok [] else check_volumes severity df symbol (volume_column df)
