-- ===== src/Validation/Pipeline.antt =====
-- What `validate` of the pipeline reports.
use mathlib.Core.Path.{subst}
use haru_quant_cbot.Validation.{
  ValidationReport, has_column, required_or_default, is_empty, validate, has_ohlc, found,
  is_ohlc_check, ValidationIssue, run_validators, Validator, Frame,
}
use haru_quant_cbot.Prelude.Text.{Text}
use haru_quant_cbot.Prelude.{
  In-append_iff, any_of_iff, any_of, Bool, map, ok, value_error, raise, Option, refl, [], false,
  true, Bool-cases, arith, inr, inl, ◌≡◌, not, ◌⊎◌, ◌&&◌, ◌∷◌, ◌↔◌, ◌++◌, In, List,
}

module _ {F : Type 0} (lower : Text → Text) (df : Frame F) (symbol : Text) where
  -- The check runs: it needs no price columns, or the frame has them.
  abbrev pub Runs : Validator F → Type 0
  Runs v = (is_ohlc_check lower v && not (has_ohlc lower df)) ≡ false

  -- A check of the pipeline runs, ends without an exception, and reports the issue.
  abbrev pub Finds : List (Validator F) → ValidationIssue → Type 0
  Finds validators i =
      (v : Validator F) × In v validators × Runs v × In i (found (v.validate df symbol))

  run_validators-skip :
      (v : Validator F) (validators : List (Validator F)) (all_issues : List ValidationIssue)
      → (is_ohlc_check lower v && not (has_ohlc lower df)) ≡ true
      → run_validators lower df symbol (v ∷ validators) all_issues
        ≡ run_validators lower df symbol validators all_issues
  unfolding run_validators
  run_validators-skip v validators all_issues h = ground (arith, h)

  run_validators-extend :
      (v : Validator F) (validators : List (Validator F)) (all_issues : List ValidationIssue)
      → Runs v
      → run_validators lower df symbol (v ∷ validators) all_issues
        ≡ run_validators lower df symbol validators (all_issues ++ found (v.validate df symbol))
  unfolding run_validators
  run_validators-extend v validators all_issues h = ground (arith, h)

  In-run_validators :
      (i : ValidationIssue) (validators : List (Validator F)) (all_issues : List ValidationIssue)
      → In i (run_validators lower df symbol validators all_issues)
        ↔ (In i all_issues ⊎ Finds validators i)
  unfolding run_validators
  In-run_validators i [] all_issues = (λ j. inl j, λ h. elim h [ inl j ↦ j | inr f ↦ absurd f.1 ])
  In-run_validators i (v ∷ validators) all_issues =
      elim (Bool-cases (is_ohlc_check lower v && not (has_ohlc lower df))) [
        | inl skipped ↦
            let (there, back) = In-run_validators i validators all_issues in
            rw (run_validators-skip v validators all_issues skipped) (
              λ j. elim (there j) [ inl k ↦ inl k | inr (u, m, runs, k) ↦ inr (u, inr m, runs, k) ],
              λ h. back (elim h [
                | inl k ↦ inl k
                | inr (u, inl e, runs, k) ↦ absurd (ground (arith, skipped, subst Runs e runs))
                | inr (u, inr m, runs, k) ↦ inr (u, m, runs, k)
              ]),
            )
        | inr runs_now ↦
            let new = found (v.validate df symbol) in
            let (there, back) = In-run_validators i validators (all_issues ++ new) in
            let (apart, together) = In-append_iff i all_issues new in
            rw (run_validators-extend v validators all_issues runs_now) (
              λ j. elim (there j) [
                | inl k ↦ elim (apart k) [ inl a ↦ inl a | inr b ↦ inr (v, inl refl, runs_now, b) ]
                | inr (u, m, runs, k) ↦ inr (u, inr m, runs, k)
              ],
              λ h. back (elim h [
                | inl k ↦ inl (together (inl k))
                | inr (u, inl e, runs, k) ↦ inl (
                    together
                      (inr (subst (λ (x : Validator F). In i (found (x.validate df symbol))) e k)))
                | inr (u, inr m, runs, k) ↦ inr (u, m, runs, k)
              ]),
            )
      ]

  -- `validate` raises a ValueError exactly if the frame is empty or a required column is missing.
  -- Else it reports exactly the issues that its checks find, where a check whose price columns are
  -- missing and one that raises find none; the report has all rows of the frame as its bars and names
  -- all the checks of the pipeline, those that were skipped or raised included.
  pub validate-exact :
      (validators : List (Validator F)) (required : Option (List Text))
      → ((validate lower validators df symbol required ≡ raise value_error)
          × ((is_empty df ≡ true)
              ⊎ ((c : Text) × In c (required_or_default required) × (has_column df c ≡ false))))
        ⊎ ((report : ValidationReport) × (validate lower validators df symbol required ≡ ok report)
            × (is_empty df ≡ false)
            × ((c : Text) → In c (required_or_default required) → has_column df c ≡ true)
            × ((i : ValidationIssue) → In i report.issues ↔ Finds validators i)
            × (report.total_bars ≡ df.rows)
            × (report.checks_run ≡ map (λ (v : Validator F). v.name) validators))
  unfolding validate
  validate-exact validators required =
      let columns = required_or_default required in
      let missing : Text → Bool = λ c. not (has_column df c) in
      elim (Bool-cases (is_empty df)) [
        | inl empty ↦ inl (ground (arith, empty), inl empty)
        | inr full ↦ elim (Bool-cases (any_of missing columns)) [
          | inl some_missing ↦
              let (c, j, q) = (any_of_iff missing columns).0 some_missing in
              inl (ground (arith, full, some_missing), inr (c, j, ground (arith, q)))
          | inr all_there ↦ inr (
            record {
              symbol = symbol;
              issues = run_validators lower df symbol validators [];
              total_bars = df.rows;
              checks_run = map (λ (v : Validator F). v.name) validators;
            },
            ground (arith, full, all_there),
            full,
            λ c j. elim (Bool-cases (has_column df c)) [
              | inl there ↦ there
              | inr absent ↦
                  let found_missing =
                    (any_of_iff missing columns).1 (c, j, ground (arith, absent)) in
                  absurd (ground (arith, all_there, found_missing))
            ],
            λ i.
                let (there, back) = In-run_validators i validators [] in
                (
                  λ j. elim (there j) [ inl none_before ↦ absurd none_before | inr f ↦ f ],
                  λ f. back (inr f),
                ),
            refl,
            refl,
          )
        ]
      ]
