-- ===== src/Checks/Standard.antt =====
-- `ValidationConfig` and the validators that a `ValidationPipeline` of src/hqt/data/validation/pipeline.py
-- starts with, with the interval that its MissingTimestampDetector keeps between frames.
use haru_quant_cbot.Checks.Volumes.{zero_volume_detector}
use haru_quant_cbot.Prelude.Text.{text_beq, str, Text}
use haru_quant_cbot.Checks.Moves.{spread_analyzer, spike_detector, gap_detector}
use haru_quant_cbot.Prelude.Int.{ℤ}
use haru_quant_cbot.Checks.Prices.{price_sanity_check}
use haru_quant_cbot.Checks.Times.{duplicate_detector, missing_timestamp_detector}
use haru_quant_cbot.Prelude.{
  none, [], ◌∷◌, if◌then◌else◌, any_of, true, Result, Bool, keep, List, Option, ℕ,
}
use haru_quant_cbot.Checks.{ok, raise, some, Numbers, Bar, BarFrame}
use haru_quant_cbot.Validation.{
  ValidationReport, validate, critical, error, warning, info, Validator,
}

-- `tolerance` and `min_periods` are the defaults of the detectors, which the pipeline does not set.
pub record ValidationConfig (N : Type 0) : Type 0 where
  pub price_bound_multiplier : N
  pub gap_threshold_multiplier : N
  pub spike_threshold_multiplier : N
  pub spike_atr_period : ℕ
  pub spread_threshold_multiplier : N
  pub expected_interval_seconds : Option ℤ
  pub enabled_checks : Option (List Text)
  pub tolerance : N

module _ {N : Type 0} (fl : Numbers N) where
  -- `all_validators`, where the detector of gaps in time has the interval `expected`.
  unfoldable pub all_validators : ValidationConfig N → Option ℤ → List (Validator (List (Bar N)))
  unfolding price_sanity_check duplicate_detector gap_detector spike_detector
      missing_timestamp_detector zero_volume_detector spread_analyzer
  all_validators config expected =
      record {
        name = str "PriceSanityCheck";
        validate = price_sanity_check fl config.price_bound_multiplier critical;
      }
      ∷ record { name = str "DuplicateDetector"; validate = duplicate_detector error }
      ∷ record {
        name = str "GapDetector";
        validate = gap_detector fl config.gap_threshold_multiplier warning;
      }
      ∷ record {
        name = str "SpikeDetector";
        validate =
            spike_detector fl config.spike_threshold_multiplier config.spike_atr_period warning;
      }
      ∷ record {
        name = str "MissingTimestampDetector";
        validate = λ df symbol.
            (missing_timestamp_detector fl config.tolerance warning expected df symbol).1;
      }
      ∷ record { name = str "ZeroVolumeDetector"; validate = zero_volume_detector fl info }
      ∷ record {
        name = str "SpreadAnalyzer";
        validate = spread_analyzer fl config.spread_threshold_multiplier 20 warning;
      }
      ∷ []

  -- `v.name in enabled_set`, or no set at all.
  unfoldable pub is_enabled : Option (List Text) → Text → Bool
  is_enabled none name = true
  is_enabled (some enabled) name = any_of (text_beq name) enabled

  unfoldable pub initialize_validators :
      ValidationConfig N → Option ℤ → List (Validator (List (Bar N)))
  unfolding all_validators is_enabled
  initialize_validators config expected =
      keep (λ v. is_enabled config.enabled_checks v.name) (all_validators config expected)

  -- The interval after `validate`: no check runs where it raises.
  unfoldable pub kept_interval :
      ValidationConfig N → Option ℤ → Result ValidationReport → Option ℤ → Option ℤ
  unfolding is_enabled
  kept_interval config expected (raise e) detected = expected
  kept_interval config expected (ok report) detected =
      if is_enabled config.enabled_checks (str "MissingTimestampDetector")
      then detected
      else expected

  -- `validate` of a pipeline: the interval that its detector has afterwards, and the report.
  unfoldable pub run_pipeline :
      (Text → Text)
      → ValidationConfig N
      → Option ℤ
      → BarFrame N
      → Text
      → Option (List Text)
      → Option ℤ × Result ValidationReport
  unfolding initialize_validators missing_timestamp_detector validate kept_interval
  run_pipeline lower config expected df symbol required =
      let report = validate lower (initialize_validators config expected) df symbol required in
      let detected =
        (missing_timestamp_detector fl config.tolerance warning expected df symbol).0 in
      (kept_interval config expected report detected, report)
