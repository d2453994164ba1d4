-- ===== src/Checks/Composed.antt =====
-- The checks of src/hqt/data/validation/checks.py in the pipeline of pipeline.py.
use haru_quant_cbot.Checks.Duplicates.{duplicate_detector-exact, is_repeated}
use haru_quant_cbot.Checks.Sanity.{Has}
use haru_quant_cbot.Validation.Pipeline.{validate-exact, Finds}
use mathlib.Core.Path.{subst}
use haru_quant_cbot.Checks.Names.{
  spread_analyzer-Named, zero_volume_detector-Named, missing_timestamp_detector-Named,
  spike_detector-Named, gap_detector-Named, duplicate_detector-Named, price_sanity_check-Named,
  AllNamed,
}
use haru_quant_cbot.Prelude.Text.{text_beq, text_ne, str, Text}
use haru_quant_cbot.Validation.{
  required_or_default, is_empty, error, ValidationReport, info, warning, critical, found,
  has_column, ValidationIssue, IssueSeverity, Validator,
}
use haru_quant_cbot.Checks.Times.{detail_columns, duplicate_detector}
use haru_quant_cbot.Prelude.Int.{ℤ}
use haru_quant_cbot.Prelude.{
  ◌∷◌, ◌∙◌, In-keep_iff, true, sym, In-All, ◌≢◌, key_error, raise, ◌⊎◌, refl, [], ok, arith,
  any_of_iff, not, Bool, All, inr, false, ◌≡◌, inl, In, List, Option,
}
use haru_quant_cbot.Checks.{Numbers, Bar, BarFrame, need}
use haru_quant_cbot.Checks.Standard.{
  is_enabled, initialize_validators, run_pipeline, ValidationConfig, all_validators,
}

module _ {N : Type 0} (fl : Numbers N) (config : ValidationConfig N) (expected : Option ℤ) where
  -- The check names its issues as itself.
  abbrev pub NamesOwn : Validator (List (Bar N)) → Type 0
  NamesOwn v = (df : BarFrame N) (symbol : Text) → AllNamed v.name (found (v.validate df symbol))

  all_validators-NamesOwn : All NamesOwn (all_validators fl config expected)
  unfolding all_validators
  all_validators-NamesOwn = (
    λ df symbol.
        (price_sanity_check-Named fl config.price_bound_multiplier critical df symbol).every,
    (
      λ df symbol. (duplicate_detector-Named fl error df symbol).every,
      (
        λ df symbol.
            (gap_detector-Named fl config.gap_threshold_multiplier warning df symbol).every,
        (
          λ df symbol.
              (spike_detector-Named fl config.spike_threshold_multiplier config.spike_atr_period
                warning df symbol).every,
          (
            λ df symbol.
                (missing_timestamp_detector-Named fl config.tolerance warning expected df
                  symbol).every,
            (
              λ df symbol. (zero_volume_detector-Named fl info df symbol).every,
              (
                λ df symbol.
                    (spread_analyzer-Named fl config.spread_threshold_multiplier 20 warning df
                      symbol).every,
                tt,
              ),
            ),
          ),
        ),
      ),
    ),
  )

  -- The detector of duplicates comes to nothing where a column is missing.
  LosesDuplicates : BarFrame N → Text → Validator (List (Bar N)) → Type 0
  LosesDuplicates df symbol v =
      v.name ≡ str "DuplicateDetector"
      → (i : ValidationIssue) → In i (found (v.validate df symbol))
      → ⊥

  detector-fails :
      (severity : IssueSeverity) (df : BarFrame N) (symbol : Text)
      → has_column df (str "volume") ≡ false
      → (duplicate_detector severity df symbol ≡ ok [])
        ⊎ (duplicate_detector severity df symbol ≡ raise key_error)
  unfolding duplicate_detector need
  detector-fails severity df symbol lost =
      let missing : Text → Bool = λ c. not (has_column df c) in
      let absent =
        (any_of_iff missing detail_columns).1
          (str "volume", inr (inr (inr (inr (inl refl)))), ground (arith, lost)) in
      ground (arith, absent)

  detector-LosesDuplicates :
      (severity : IssueSeverity) (df : BarFrame N) (symbol : Text) (i : ValidationIssue)
      → has_column df (str "volume") ≡ false
      → In i (found (duplicate_detector severity df symbol))
      → ⊥
  detector-LosesDuplicates severity df symbol i lost j =
      elim (detector-fails severity df symbol lost) [
        | inl e ↦ subst (λ r. In i (found r)) e j
        | inr e ↦ subst (λ r. In i (found r)) e j
      ]

  all_validators-LosesDuplicates :
      (df : BarFrame N) (symbol : Text)
      → has_column df (str "volume") ≡ false
      → All (LosesDuplicates df symbol) (all_validators fl config expected)
  unfolding all_validators LosesDuplicates text_beq
  all_validators-LosesDuplicates df symbol lost = (
    (λ e. absurd (other (str "PriceSanityCheck") refl e)),
    (
      λ e i j. detector-LosesDuplicates error df symbol i lost j,
      (
        (λ e. absurd (other (str "GapDetector") refl e)),
        (
          (λ e. absurd (other (str "SpikeDetector") refl e)),
          (
            (λ e. absurd (other (str "MissingTimestampDetector") refl e)),
            (
              (λ e. absurd (other (str "ZeroVolumeDetector") refl e)),
              ((λ e. absurd (other (str "SpreadAnalyzer") refl e)), tt),
            ),
          ),
        ),
      ),
    ),
  )
    where
      other :
          (name : Text)
          → text_beq name (str "DuplicateDetector") ≡ false
          → name ≡ str "DuplicateDetector"
          → ⊥
      other name h e = text_ne name (str "DuplicateDetector") h e

module _ {N : Type 0} (fl : Numbers N) (lower : Text → Text) (config : ValidationConfig N)
    (expected : Option ℤ) (df : BarFrame N) (symbol : Text) (required : Option (List Text))
    (report : ValidationReport)
    (reported : (run_pipeline fl lower config expected df symbol required).1 ≡ ok report) where
  -- The check behind an issue of the report.
  finder :
      (i : ValidationIssue)
      → In i report.issues
      → Finds lower df symbol (initialize_validators fl config expected) i
  unfolding run_pipeline
  finder i j =
      elim (validate-exact lower df symbol (initialize_validators fl config expected) required) [
        | inl (e, _) ↦ cc
        | inr (report', e, _, _, finds, _, _) ↦
            let same : report ≡ report' = cc in
            (finds i).0 (subst (λ (r : ValidationReport). In i r.issues) same j)
      ]

  -- Each issue of a report of a pipeline with the standard checks names the check that found it: one
  -- of the seven that the configuration enables.
  pub run_pipeline-names :
      (i : ValidationIssue)
      → In i report.issues
      → (v : Validator (List (Bar N))) × In v (all_validators fl config expected)
        × (is_enabled fl config.enabled_checks v.name ≡ true)
        × (i.check_name ≡ v.name)
        × In i (found (v.validate df symbol))
  unfolding initialize_validators
  run_pipeline-names i j =
      let (v, m, runs, k) = finder i j in
      let (m', on) =
        (In-keep_iff (λ v. is_enabled fl config.enabled_checks v.name) v
            (all_validators fl config expected)).0
          m in
      (
        v,
        m',
        on,
        In-All (NamesOwn fl config expected) (all_validators fl config expected)
            (all_validators-NamesOwn fl config expected) m' df symbol i k,
        k,
      )

  no_duplicates :
      has_column df (str "volume") ≡ false
      → (i : ValidationIssue) → In i report.issues
      → i.check_name ≢ str "DuplicateDetector"
  unfolding LosesDuplicates
  no_duplicates lost i j e =
      let (v, m, on, own, k) = run_pipeline-names i j in
      In-All (LosesDuplicates fl config expected df symbol) (all_validators fl config expected)
        (all_validators-LosesDuplicates fl config expected df symbol lost) m (sym own ∙ e) i k

module _ {N : Type 0} (fl : Numbers N) (lower : Text → Text) (config : ValidationConfig N)
    (expected : Option ℤ) (df : BarFrame N) (symbol : Text) where
  detector-raises :
      (severity : IssueSeverity) (row : Bar N)
      → is_empty df ≡ false
      → Has (str "timestamp" ∷ []) df
      → has_column df (str "volume") ≡ false
      → In row df.content
      → is_repeated df.content row ≡ true
      → duplicate_detector severity df symbol ≡ raise key_error
  detector-raises severity row full times lost i twice =
      elim (duplicate_detector-exact severity df symbol full times) [
        | inl (_, once) ↦ let alone = once row i in cc
        | inr (_, ends) ↦ elim ends [
          | inl (e, _) ↦ e
          | inr (there, _) ↦
              let found_volume = there (str "volume") (inr (inr (inr (inr (inl refl))))) in cc
        ]
      ]

  -- On a frame with rows, times and the required columns, in which some time stands twice, but without
  -- a column volume, such as the bars of the providers with their tick_volume and real_volume, the
  -- DuplicateDetector raises a KeyError; the pipeline goes on and ends with a report, and no issue of
  -- the report is one of the DuplicateDetector.
  pub run_pipeline-loses_duplicates :
      (required : Option (List Text)) (row : Bar N)
      → is_empty df ≡ false
      → Has (str "timestamp" ∷ []) df
      → ((c : Text) → In c (required_or_default required) → has_column df c ≡ true)
      → has_column df (str "volume") ≡ false
      → In row df.content
      → is_repeated df.content row ≡ true
      → (duplicate_detector error df symbol ≡ raise key_error)
        × ((report : ValidationReport) × ((run_pipeline fl lower config expected df symbol
                required).1
              ≡ ok report)
            × ((i : ValidationIssue) → In i report.issues → i.check_name ≢ str "DuplicateDetector"))
  unfolding run_pipeline
  run_pipeline-loses_duplicates required row full times there lost i twice =
      let validators = initialize_validators fl config expected in
      (
        detector-raises error row full times lost i twice,
        elim (validate-exact lower df symbol validators required) [
          | inl (_, inl empty) ↦ cc
          | inl (_, inr (c, j, absent)) ↦ let found_c = there c j in cc
          | inr (report, e, _, _, _, _, _) ↦
              (report, e, no_duplicates fl lower config expected df symbol required report e lost)
        ],
      )
