-- ===== src/Checks/Duplicates.antt =====
-- What `DuplicateDetector` reports.
use haru_quant_cbot.Prelude.Counts.{
  count_if-append, count_if-keep, count_if-same, count_if-distinct, count_groups-all, count_if-map,
  SameElements, count_groups, sort-SameElements,
}
use haru_quant_cbot.Checks.Sanity.{keep-empty_iff, Has}
use mathlib.Core.Path.{subst}
use haru_quant_cbot.Prelude.Text.{decimal, str, Text}
use haru_quant_cbot.Validation.{duplicate, has_column, is_empty, ValidationIssue, IssueSeverity}
use haru_quant_cbot.Prelude.{
  ◌++◌, ◌&&◌, ltb, any_of_iff, any_of, Bool-cases, List-cases, not, key_error, raise, ◌⊎◌, ok,
  false, ap, ◌∙◌, sym, In-keep_iff, refl, In-map_iff, [], nat_beq_iff, inl, inr, nat_beq, arith,
  ◌∷◌, count_if, distinct, keep, leb, length, map, true, ◌≡◌, In, ℕ, List, Bool,
}
use haru_quant_cbot.Checks.{BarFrame, need, Bar}
use haru_quant_cbot.Checks.Times.{
  detail_columns, duplicated, duplicate_detector, at_time, group_keys, group_issues,
  duplicate_issue,
}

-- Where a second test follows from the first, it filters nothing more.
keep-keep_count :
    {A : Type 0} (p q : A → Bool) (xs ys : List A)
    → ((x : A) → In x xs → p x ≡ true → q x ≡ true)
    → length (keep p (keep q xs)) ≡ count_if p xs
keep-keep_count p q [] ys h = refl
keep-keep_count p q (x ∷ xs) ys h =
    ground (arith, h x (inl refl), keep-keep_count p q xs ys (λ y i. h y (inr i)))

module _ {N : Type 0} where
  -- `group_keys` has the times of the rows.
  at_its_time :
      (severity : IssueSeverity) (symbol : Text) (rows : List (Bar N)) (t : ℕ) (row : Bar N)
      (p : ValidationIssue → Bool)
      → (at_time t row && p (duplicate_issue severity symbol (length (keep (at_time t) rows)) row))
        ≡ (at_time t row
            && p (duplicate_issue severity symbol (length (keep (at_time row.timestamp) rows)) row))
  at_its_time severity symbol rows t row p = elim (Bool-cases (at_time t row)) [
    | inr e ↦ rw e refl
    | inl e ↦
        let same : row.timestamp ≡ t = (nat_beq_iff row.timestamp t).0 e in
        subst
          (λ u.
            (at_time t row
              && p (duplicate_issue severity symbol (length (keep (at_time u) rows)) row))
            ≡ (at_time t row
                && p (
                    duplicate_issue severity symbol (length (keep (at_time row.timestamp) rows))
                      row)))
          same refl
  ]

  count_if-group_issues :
      (severity : IssueSeverity) (symbol : Text) (rows : List (Bar N)) (keys : List ℕ)
      (p : ValidationIssue → Bool)
      → count_if p (group_issues severity symbol rows keys)
        ≡ count_groups
            (λ (row : Bar N) t. at_time t row)
            (λ row.
              p (duplicate_issue severity symbol (length (keep (at_time row.timestamp) rows)) row))
            keys
            rows
  unfolding group_issues
  count_if-group_issues severity symbol rows [] p = refl
  count_if-group_issues severity symbol rows (t ∷ keys) p =
      let group = keep (at_time t) rows in
      let issue = duplicate_issue severity symbol (length group) in
      let of_row : Bar N → Bool = λ row.
        p (duplicate_issue severity symbol (length (keep (at_time row.timestamp) rows)) row) in
      let here : count_if p (map issue group) ≡ count_if (λ row. at_time t row && of_row row) rows =
        count_if-map p issue group
        ∙ (count_if-keep (λ row. p (issue row)) (at_time t) rows
            ∙ count_if-same (λ row. at_time t row && p (issue row))
                (λ row. at_time t row && of_row row) rows
                (λ row i. at_its_time severity symbol rows t row p)) in
      count_if-append p (map issue group) (group_issues severity symbol rows keys)
      ∙ omega (arith, here, count_if-group_issues severity symbol rows keys p)

  -- The time of a duplicated row has all its rows among the duplicated ones.
  group-count :
      (rows : List (Bar N)) (row : Bar N)
      → duplicated rows row ≡ true
      → length (keep (at_time row.timestamp) (keep (duplicated rows) rows))
        ≡ count_if (at_time row.timestamp) rows
  unfolding duplicated
  group-count rows row twice =
      keep-keep_count (at_time row.timestamp) (duplicated rows) rows rows (λ x i at.
        let e : x.timestamp ≡ row.timestamp = (nat_beq_iff x.timestamp row.timestamp).0 at in
        rw e twice)

  -- Another row has the row's time.
  abbrev pub is_repeated : List (Bar N) → Bar N → Bool
  is_repeated rows row =
      ltb 1 (count_if (λ (other : Bar N). nat_beq other.timestamp row.timestamp) rows)

  -- The issue of a row, with the number of rows at its time.
  abbrev pub issue_of : IssueSeverity → Text → List (Bar N) → Bar N → ValidationIssue
  issue_of severity symbol rows row = record {
    issue_type = duplicate;
    severity = severity;
    timestamp = row.timestamp;
    symbol = symbol;
    message =
        str "Duplicate timestamp detected: "
        ++ decimal row.timestamp
        ++ str " appears "
        ++ decimal (count_if (λ (other : Bar N). nat_beq other.timestamp row.timestamp) rows)
        ++ str " times";
    check_name = str "DuplicateDetector";
  }

  -- Each duplicated row is in the group of one key.
  one_key :
      (rows : List (Bar N)) (row : Bar N)
      → In row rows
      → count_if (λ t. at_time t row) (group_keys rows) ≡ 1
  unfolding group_keys
  one_key rows row i =
      let times = map (λ (r : Bar N). r.timestamp) rows in
      let (j, k) = In-map_iff (λ (r : Bar N). r.timestamp) row.timestamp rows in
      let there : any_of (nat_beq row.timestamp) times ≡ true =
        (any_of_iff (nat_beq row.timestamp) times).1
          (row.timestamp, k (row, i, refl), (nat_beq_iff row.timestamp row.timestamp).1 refl) in
      ground (
        arith,
        sort-SameElements leb (distinct nat_beq times) (nat_beq row.timestamp),
        count_if-distinct nat_beq nat_beq_iff row.timestamp times,
        there,
      )

  group_issues-SameElements :
      (severity : IssueSeverity) (symbol : Text) (rows : List (Bar N))
      → SameElements
          (group_issues severity symbol
            (keep (duplicated rows) rows)
            (group_keys (keep (duplicated rows) rows)))
          (map (issue_of severity symbol rows) (keep (is_repeated rows) rows))
  unfolding duplicated
  group_issues-SameElements severity symbol rows p =
      let twice = keep (duplicated rows) rows in
      let of_row : Bar N → Bool = λ row.
        p (duplicate_issue severity symbol (length (keep (at_time row.timestamp) twice)) row) in
      count_if-group_issues severity symbol twice (group_keys twice) p
      ∙ (count_groups-all (λ (row : Bar N) t. at_time t row) of_row (group_keys twice) twice
            (one_key twice)
          ∙ (count_if-same of_row (λ row. p (issue_of severity symbol rows row)) twice
                (λ row i.
                  ap (λ n. p (duplicate_issue severity symbol n row))
                    (group-count rows row ((In-keep_iff (duplicated rows) row rows).0 i).1))
              ∙ sym (count_if-map p (issue_of severity symbol rows) twice)))

  -- On a frame with rows and times: where no time stands twice, the check reports nothing. Else it
  -- raises a KeyError if the frame lacks one of the columns open, high, low, close and volume, and if
  -- it has them, it reports, in some order, exactly one issue for each row whose time stands twice or
  -- more, with the number of rows at that time.
  pub duplicate_detector-exact :
      (severity : IssueSeverity) (df : BarFrame N) (symbol : Text)
      → is_empty df ≡ false
      → Has (str "timestamp" ∷ []) df
      → ((duplicate_detector severity df symbol ≡ ok [])
          × ((row : Bar N) → In row df.content → is_repeated df.content row ≡ false))
        ⊎ (((row : Bar N) × In row df.content × (is_repeated df.content row ≡ true))
            × (((duplicate_detector severity df symbol ≡ raise key_error)
                  × ((c : Text) × In c detail_columns × (has_column df c ≡ false)))
                ⊎ (((c : Text) → In c detail_columns → has_column df c ≡ true)
                    × ((issues : List ValidationIssue) × (duplicate_detector severity df symbol
                          ≡ ok issues)
                        × SameElements issues (
                            map
                              (issue_of severity symbol df.content)
                              (keep (is_repeated df.content) df.content))))))
  unfolding duplicate_detector need duplicated
  duplicate_detector-exact severity df symbol full times =
      let twice = keep (duplicated df.content) df.content in
      let missing : Text → Bool = λ c. not (has_column df c) in
      elim (List-cases twice) [
        | inl e ↦ inl (
          rw (full, times, e) refl,
          λ row i. (keep-empty_iff (duplicated df.content) df.content).0 e row i,
        )
        | inr (row, rest, e) ↦
            let some_twice : nat_beq (length twice) 0 ≡ false = ground (arith, ap length e) in
            let at =
              (In-keep_iff (duplicated df.content) row df.content).0
                (subst (In row) (sym e) (inl refl)) in
            inr (
              (row, at.0, at.1),
              elim (Bool-cases (any_of missing detail_columns)) [
                | inl absent ↦
                    let (c, j, q) = (any_of_iff missing detail_columns).0 absent in
                    inl (rw (full, times, some_twice, absent) refl, (c, j, ground (arith, q)))
                | inr all_there ↦ inr (
                  λ c j. elim (Bool-cases (has_column df c)) [
                    | inl e ↦ e
                    | inr e ↦
                        let found =
                          (any_of_iff missing detail_columns).1 (c, j, ground (arith, e)) in
                        cc
                  ],
                  (
                    group_issues severity symbol twice (group_keys twice),
                    rw (full, times, some_twice, all_there) refl,
                    group_issues-SameElements severity symbol df.content,
                  ),
                )
              ],
            )
      ]
