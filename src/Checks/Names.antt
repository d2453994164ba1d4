-- ===== src/Checks/Names.antt =====
-- The checks of src/hqt/data/validation/checks.py put their own names on their issues.
use haru_quant_cbot.Prelude.Int.{ℤ}
use haru_quant_cbot.Checks.Prices.{sanity_issue, price_sanity_check}
use haru_quant_cbot.Validation.{
  has_column, warning, ohlc_inconsistency, price_sanity, IssueType, is_empty, Frame, found,
  IssueSeverity, ValidationIssue,
}
use haru_quant_cbot.Prelude.{
  Bool-cases, Result-cases, nat_beq, length, ◌∙◌, inr, none, ap, inl, refl, false, In-map_iff, ltb,
  keep, true, ◌∷◌, In-append_iff, ◌>>=◌, map, ◌≡◌, if◌then◌else◌, ◌++◌, Option, In, [], Result,
  Bool, ℕ, ok, List,
}
use haru_quant_cbot.Prelude.Text.{str, Text}
use haru_quant_cbot.Checks.Moves.{bar_range, spike_detector, spread_analyzer, gap_detector}
use haru_quant_cbot.Checks.Volumes.{volume_column, zero_volume_detector, check_volumes}
use haru_quant_cbot.Checks.{
  with_previous, raise, some, report_flagged, Numbers, Bar, BarFrame, need, report_rows,
}
use haru_quant_cbot.Checks.Times.{
  interval_for, time_diff, is_missing, missing_timestamp_detector, missing_issues, missing_issue,
  detail_columns, group_keys, duplicate_issue, duplicated, at_time, group_issues,
  duplicate_detector,
}

-- Each issue that is left carries the name.
abbrev pub AllNamed : Text → List ValidationIssue → Type 0
AllNamed name issues = (i : ValidationIssue) → In i issues → i.check_name ≡ name

pub record Named (name : Text) (r : Result (List ValidationIssue)) : Type 0 where
  pub every : AllNamed name (found r)

AllNamed-append :
    (name : Text) (xs ys : List ValidationIssue)
    → AllNamed name xs
    → AllNamed name ys
    → AllNamed name (xs ++ ys)
AllNamed-append name xs ys h k i j = elim ((In-append_iff i xs ys).0 j) [
  | inl a ↦ h i a
  | inr b ↦ k i b
]

AllNamed-map :
    {A : Type 0} (name : Text) (issue : A → ValidationIssue) (rows : List A)
    → ((row : A) → (issue row).check_name ≡ name)
    → AllNamed name (map issue rows)
AllNamed-map name issue rows h i j =
    let (row, k, e) = (In-map_iff issue i rows).0 j in
    ap (λ (x : ValidationIssue). x.check_name) e ∙ h row

after-Named :
    {A : Type 0} (name : Text) (r : Result A) (next : A → Result (List ValidationIssue))
    → ((a : A) → r ≡ ok a → Named name (next a))
    → Named name (r >>= next)
after-Named name (ok a) next h = h a refl
after-Named name (raise e) next h = record { every = λ i j. absurd j }

if-Named :
    (name : Text) (b : Bool) (r s : Result (List ValidationIssue))
    → Named name r
    → Named name s
    → Named name (if b then r else s)
if-Named name true r s h k = h
if-Named name false r s h k = k

flagged-Named :
    {A F : Type 0} (name : Text) (columns : List Text) (df : Frame F) (issue : A → ValidationIssue)
    (rows : List A)
    → ((row : A) → (issue row).check_name ≡ name)
    → Named name (report_flagged columns df issue rows)
unfolding report_flagged
flagged-Named name columns df issue [] h = record { every = λ i j. absurd j }
flagged-Named name columns df issue (row ∷ rows) h =
    after-Named name (need columns df) (λ _. ok (map issue (row ∷ rows)))
      (λ _ _. record { every = AllNamed-map name issue (row ∷ rows) h })

report-Named :
    {A F : Type 0} (name : Text) (columns : List Text) (df : Frame F) (mask : A → Bool)
    (issue : A → ValidationIssue) (rows : List A)
    → ((row : A) → (issue row).check_name ≡ name)
    → Named name (report_rows columns df mask issue rows)
unfolding report_rows
report-Named name columns df mask issue rows h =
    flagged-Named name columns df issue (keep mask rows) h

no_issue-Named : (name : Text) → Named name (ok [])
no_issue-Named name = record { every = λ i j. absurd j }

module _ {N : Type 0} (fl : Numbers N) where
  volumes-Named :
      (severity : IssueSeverity) (df : BarFrame N) (symbol : Text) (column : Option (Bar N → N))
      → Named (str "ZeroVolumeDetector") (check_volumes fl severity df symbol column)
  unfolding check_volumes
  volumes-Named severity df symbol none = no_issue-Named (str "ZeroVolumeDetector")
  volumes-Named severity df symbol (some value) = search (report-Named)

  pub zero_volume_detector-Named :
      (severity : IssueSeverity) (df : BarFrame N) (symbol : Text)
      → Named (str "ZeroVolumeDetector") (zero_volume_detector fl severity df symbol)
  unfolding zero_volume_detector
  zero_volume_detector-Named severity df symbol =
      if-Named (str "ZeroVolumeDetector") (is_empty df) (ok [])
        (check_volumes fl severity df symbol (volume_column fl df))
        (no_issue-Named (str "ZeroVolumeDetector"))
        (volumes-Named severity df symbol (volume_column fl df))

  groups-Named :
      (severity : IssueSeverity) (symbol : Text) (rows : List (Bar N)) (keys : List ℕ)
      → AllNamed (str "DuplicateDetector") (group_issues severity symbol rows keys)
  unfolding group_issues
  groups-Named severity symbol rows [] = λ i j. absurd j
  groups-Named severity symbol rows (t ∷ keys) =
      let group = keep (at_time t) rows in
      AllNamed-append (str "DuplicateDetector")
        (map (duplicate_issue severity symbol (length group)) group)
        (group_issues severity symbol rows keys)
        (AllNamed-map (str "DuplicateDetector") (duplicate_issue severity symbol (length group))
          group (λ row. refl))
        (groups-Named severity symbol rows keys)

  pub duplicate_detector-Named :
      (severity : IssueSeverity) (df : BarFrame N) (symbol : Text)
      → Named (str "DuplicateDetector") (duplicate_detector severity df symbol)
  unfolding duplicate_detector
  duplicate_detector-Named severity df symbol =
      let name = str "DuplicateDetector" in
      let twice = keep (duplicated df.content) df.content in
      let issues = ok (group_issues severity symbol twice (group_keys twice)) in
      if-Named name (is_empty df) (ok []) _ (no_issue-Named name) (
        after-Named name (need (str "timestamp" ∷ []) df) _ (λ _ _.
          if-Named name (nat_beq (length twice) 0) (ok []) _ (no_issue-Named name) (
            after-Named name (need detail_columns df) (λ _. issues)
              (λ _ _. record { every = groups-Named severity symbol twice (group_keys twice) }))))

  pub gap_detector-Named :
      (multiplier : N) (severity : IssueSeverity) (df : BarFrame N) (symbol : Text)
      → Named (str "GapDetector") (gap_detector fl multiplier severity df symbol)
  unfolding gap_detector
  gap_detector-Named multiplier severity df symbol =
      let name = str "GapDetector" in
      if-Named name (ltb df.rows 2) (ok []) _ (no_issue-Named name) (
        after-Named name (need (str "high" ∷ str "low" ∷ []) df) _ (λ _ _.
          if-Named name (fl.is_zero (fl.mean (map (bar_range fl) df.content))) (ok []) _
            (no_issue-Named name)
            (after-Named name (need (str "close" ∷ []) df) _ (λ _ _. search (report-Named)))))

  pub spike_detector-Named :
      (multiplier : N) (period : ℕ) (severity : IssueSeverity) (df : BarFrame N) (symbol : Text)
      → Named (str "SpikeDetector") (spike_detector fl multiplier period severity df symbol)
  unfolding spike_detector
  spike_detector-Named multiplier period severity df symbol =
      let name = str "SpikeDetector" in
      if-Named name (ltb df.rows period) (ok []) _ (no_issue-Named name) (
        after-Named name (need (str "close" ∷ str "high" ∷ str "low" ∷ []) df) _
          (λ _ _. search (report-Named)))

  pub spread_analyzer-Named :
      (multiplier : N) (min_periods : ℕ) (severity : IssueSeverity) (df : BarFrame N)
      (symbol : Text)
      → Named (str "SpreadAnalyzer") (spread_analyzer fl multiplier min_periods severity df symbol)
  unfolding spread_analyzer
  spread_analyzer-Named multiplier min_periods severity df symbol =
      let name = str "SpreadAnalyzer" in
      if-Named name (ltb df.rows min_periods) (ok []) _ (no_issue-Named name) (
        after-Named name (need (str "high" ∷ str "low" ∷ []) df) _ (λ _ _.
          if-Named name (fl.is_zero (fl.median (map (bar_range fl) df.content))) (ok []) _
            (no_issue-Named name) (search (report-Named))))

  missing_one-Named :
      (severity : IssueSeverity) (symbol : Text) (interval : ℤ) (d : Option ℤ) (row : Bar N)
      (rest : Result (List ValidationIssue))
      → Named (str "MissingTimestampDetector") rest
      → Named (str "MissingTimestampDetector") (
          missing_issue fl severity symbol interval d row
          >>= (λ i. rest >>= (λ issues. ok (i ∷ issues))))
  unfolding missing_issue
  missing_one-Named severity symbol interval none row rest h = record { every = λ i j. absurd j }
  missing_one-Named severity symbol interval (some d) row (raise e) h =
      elim (Result-cases (fl.truncate (fl.div (fl.of_int d) (fl.of_int interval)))) [
        | inl (n, e) ↦ rw e (record { every = λ i j. absurd j })
        | inr (x, e) ↦ rw e (record { every = λ i j. absurd j })
      ]
  missing_one-Named severity symbol interval (some d) row (ok issues) h =
      elim (Result-cases (fl.truncate (fl.div (fl.of_int d) (fl.of_int interval)))) [
        | inl (n, e) ↦ rw e (record {
          every = λ i j. elim j [
            | inl new ↦ ap (λ (x : ValidationIssue). x.check_name) new
            | inr old ↦ h.every i old
          ];
        })
        | inr (x, e) ↦ rw e (record { every = λ i j. absurd j })
      ]

  missing_issues-Named :
      (threshold : N) (severity : IssueSeverity) (symbol : Text) (interval : ℤ)
      (rows : List (Option (Bar N) × Bar N))
      → Named
          (str "MissingTimestampDetector")
          (missing_issues fl threshold severity symbol interval rows)
  unfolding missing_issues
  missing_issues-Named threshold severity symbol interval [] =
      no_issue-Named (str "MissingTimestampDetector")
  missing_issues-Named threshold severity symbol interval (r ∷ rows) =
      let rest = missing_issues-Named threshold severity symbol interval rows in
      if-Named (str "MissingTimestampDetector") (is_missing fl threshold (time_diff fl r)) _ _
        (missing_one-Named severity symbol interval (time_diff fl r) r.1 _ rest) rest

  pub missing_timestamp_detector-Named :
      (tolerance : N) (severity : IssueSeverity) (expected : Option ℤ) (df : BarFrame N)
      (symbol : Text)
      → Named
          (str "MissingTimestampDetector")
          (missing_timestamp_detector fl tolerance severity expected df symbol).1
  unfolding missing_timestamp_detector
  missing_timestamp_detector-Named tolerance severity expected df symbol =
      elim (Bool-cases (ltb df.rows 2)) [
        | inl few ↦ rw few (no_issue-Named (str "MissingTimestampDetector"))
        | inr many ↦ elim (Bool-cases (has_column df (str "timestamp"))) [
          | inl times ↦
              rw (many, times)
                (missing_issues-Named
                  (fl.mul (fl.of_int (interval_for fl expected df.content)) tolerance) severity
                  symbol (interval_for fl expected df.content) (with_previous none df.content))
          | inr absent ↦ rw (many, absent) (record { every = λ i j. absurd j })
        ]
      ]

  sanity-Named :
      (severity : IssueSeverity) (issue_type : IssueType) (symbol : Text) (df : BarFrame N)
      (mask : Bar N → Bool) (message : Bar N → Text)
      → Named (str "PriceSanityCheck") (
          report_rows
            (str "timestamp" ∷ [])
            df
            mask
            (sanity_issue fl issue_type severity symbol message)
            df.content)
  sanity-Named severity issue_type symbol df mask message =
      report-Named (str "PriceSanityCheck") (str "timestamp" ∷ []) df mask
        (sanity_issue fl issue_type severity symbol message) df.content (λ row. refl)

  then-Named :
      (name : Text) (r : Result (List ValidationIssue))
      (next : List ValidationIssue → Result (List ValidationIssue))
      → Named name r
      → ((xs : List ValidationIssue) → AllNamed name xs → Named name (next xs))
      → Named name (r >>= next)
  then-Named name (ok xs) next h k = k xs h.every
  then-Named name (raise e) next h k = record { every = λ i j. absurd j }

  pub price_sanity_check-Named :
      (multiplier : N) (severity : IssueSeverity) (df : BarFrame N) (symbol : Text)
      → Named (str "PriceSanityCheck") (price_sanity_check fl multiplier severity df symbol)
  unfolding price_sanity_check
  price_sanity_check-Named multiplier severity df symbol =
      let name = str "PriceSanityCheck" in
      if-Named name (is_empty df) (ok []) _ (no_issue-Named name) (
        after-Named name (need (str "open" ∷ str "high" ∷ str "low" ∷ str "close" ∷ []) df) _
          (λ _ _. then-Named name _ _ (sanity-Named severity price_sanity symbol df _ _) (λ a ha.
            then-Named name _ _ (sanity-Named severity ohlc_inconsistency symbol df _ _) (λ b hb.
              then-Named name _ _ (sanity-Named severity ohlc_inconsistency symbol df _ _) (λ c hc.
                then-Named name _ _ (sanity-Named severity ohlc_inconsistency symbol df _ _)
                  (λ d hd.
                    then-Named name _ _ (sanity-Named warning price_sanity symbol df _ _) (λ e he.
                      record {
                        every =
                            AllNamed-append name (a ++ b ++ c ++ d) e
                              (AllNamed-append name (a ++ b ++ c) d
                                (AllNamed-append name (a ++ b) c (AllNamed-append name a b ha hb)
                                  hc)
                                hd)
                              he;
                      })))))))
