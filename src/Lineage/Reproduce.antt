-- ===== src/Lineage/Reproduce.antt =====
-- `can_reproduce`: the verdict, and the account of the files.
use haru_quant_cbot.Prelude.{
  ℕ, suc, ◌+◌, ◌≡◌, ◌≢◌, ◌⊎◌, ◌↔◌, inl, inr, refl, Bool, true, false, none, some, List, [], ◌∷◌,
  ◌++◌, length, length-append, keep, count_if, In, In-keep_iff, arith, ok, raise, key_error,
  Option-cases, nat_beq, nat_beq_iff, count_if-zero_iff, List-cases, ap,
}
use mathlib.Core.Path.{subst}
use haru_quant_cbot.Prelude.Text.{Text}
use haru_quant_cbot.Prelude.Sort.{sort, In-sort_iff}
use haru_quant_cbot.Hasher.{Bytes, Disk, verify_file_hash}
use haru_quant_cbot.Hasher.Chunks.{whole, verify_file_hash-intact}
use haru_quant_cbot.Lineage.{
  Row, Table, Issue, no_lineage, row_leb, LineageInfo, lineage_of, get_lineage, check_file,
  check_files, can_reproduce,
}

-- The rows of a backtest, as `get_lineage` reports them.
lineage-rows :
    (b : ℕ) (t : Table)
    → ((get_lineage b t ≡ raise key_error) × ((r : Row) → In r t.rows → r.backtest_id ≢ b))
      ⊎ ((info : LineageInfo) × (get_lineage b t ≡ ok info)
          × (info.total_files ≡ length info.data_files)
          × ((r : Row) × In r t.rows × (r.backtest_id ≡ b))
          × ((r : Row) → In r info.data_files ↔ (In r t.rows × (r.backtest_id ≡ b))))
unfolding get_lineage
lineage-rows b t = elim (List-cases rows) [
  | inl empty ↦
      inl (ap (lineage_of b) empty, λ r i e. subst (λ l. In r l) empty ((member r).1 (i, e)))
  | inr (x, more, e) ↦
      let of_rows : (r : Row) → In r (x ∷ more) ↔ (In r t.rows × (r.backtest_id ≡ b)) =
        λ r. subst (λ l. In r l ↔ (In r t.rows × (r.backtest_id ≡ b))) e (member r) in
      let (i, mine) = (of_rows x).0 (inl refl) in
      inr (
        record {
          backtest_id = b;
          data_files = x ∷ more;
          total_files = suc (length more);
          recorded_at = x.recorded_at;
        },
        ap (lineage_of b) e,
        refl,
        (x, i, mine),
        of_rows,
      )
]
  where
    rows : List Row
    rows = sort row_leb (keep (λ (r : Row). nat_beq r.backtest_id b) t.rows)

    member : (r : Row) → In r rows ↔ (In r t.rows × (r.backtest_id ≡ b))
    member r =
        let sorted = In-sort_iff row_leb r (keep (λ (q : Row). nat_beq q.backtest_id b) t.rows) in
        let kept = In-keep_iff (λ (q : Row). nat_beq q.backtest_id b) r t.rows in
        (
          λ i. let (j, q) = kept.0 (sorted.0 i) in (j, (nat_beq_iff r.backtest_id b).0 q),
          λ h. sorted.1 (kept.1 (h.0, (nat_beq_iff r.backtest_id b).1 h.1)),
        )

module _ (hexdigest : Bytes → Text) (disk : Disk) where
  -- The file is there, can be read, and has the recorded hash.
  abbrev pub Intact : Row → Type 0
  Intact r =
      (bytes : Bytes) × (whole disk r.data_file_path ≡ ok bytes)
      × (hexdigest bytes ≡ r.data_version_hash)

  -- A file raises no issue exactly if it is intact.
  check_file-Intact : (r : Row) → (check_file hexdigest disk r ≡ none) ↔ Intact r
  unfolding check_file
  check_file-Intact r = (there, back)
    where
      verified :
          (verify_file_hash hexdigest disk r.data_file_path r.data_version_hash ≡ ok true)
          ↔ Intact r
      verified = verify_file_hash-intact hexdigest disk r.data_file_path r.data_version_hash

      there : check_file hexdigest disk r ≡ none → Intact r
      there h = verified.0 (ground arith)

      back : Intact r → check_file hexdigest disk r ≡ none
      back h = ground (arith, verified.1 h, h.1)

  abbrev pub has_issue : Row → Bool
  has_issue r = elim (check_file hexdigest disk r) [ none ↦ false | some _ ↦ true ]

  check_files-counts :
      (rows : List Row) (issues : List Issue) (verified : ℕ)
      → let (issues', verified') = check_files hexdigest disk rows issues verified in
        (length issues' ≡ length issues + count_if has_issue rows)
        × (verified' + count_if has_issue rows ≡ verified + length rows)
  unfolding check_files
  check_files-counts [] issues verified = omega arith
  check_files-counts (r ∷ rows) issues verified =
      elim (Option-cases (check_file hexdigest disk r)) [
        | inl fine ↦ ground (arith, fine, check_files-counts rows issues (verified + 1))
        | inr (issue, bad) ↦ ground (
          arith,
          bad,
          length-append issues (issue ∷ []),
          check_files-counts rows (issues ++ issue ∷ []) verified,
        )
      ]

  has_issue-Intact : (r : Row) → (has_issue r ≡ false) ↔ Intact r
  has_issue-Intact r = (
    λ h. (check_file-Intact r).0 (ground arith),
    λ i. let fine = (check_file-Intact r).1 i in ground arith,
  )

  -- A backtest is reproducible exactly if it has a recorded file, and each of its recorded files is
  -- there, can be read, and has the hash that was recorded. Every file is either verified or raises
  -- one issue; where nothing is recorded, that is the one issue.
  pub can_reproduce-exact :
      (b : ℕ) (t : Table)
      → let report = can_reproduce hexdigest disk b t in
        ((report.reproducible ≡ true) ↔ (
          ((r : Row) × In r t.rows × (r.backtest_id ≡ b))
          × ((r : Row) → In r t.rows → r.backtest_id ≡ b → Intact r)))
        × ((report.verified_files + length report.issues ≡ report.total_files)
            ⊎ ((report.issues ≡ no_lineage b ∷ []) × (report.total_files ≡ 0)))
  unfolding can_reproduce
  can_reproduce-exact b t = elim (lineage-rows b t) [
    | inl (missing, nobody) ↦
        rw (missing, can_reproduce)
          ((λ h. cc, λ h. absurd (nobody h.0.0 h.0.1 h.0.2)), inr (refl, refl))
    | inr (info, found, total, known, member) ↦
        let (issues, verified) = check_files-counts info.data_files [] 0 in
        rw (found, can_reproduce)
          (
            (
              λ h.
                  let clean =
                    (count_if-zero_iff has_issue info.data_files).0 (ground (arith, issues)) in
                  (known, λ r i e. (has_issue-Intact r).0 (clean r ((member r).1 (i, e)))),
              λ h.
                  let clean =
                    (count_if-zero_iff has_issue info.data_files).1
                      (λ r i. let (j, e) = (member r).0 i in (has_issue-Intact r).1 (h.1 r j e)) in
                  ground (arith, issues, clean),
            ),
            inl (ground (arith, issues, verified, total)),
          )
  ]
