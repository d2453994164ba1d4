-- ===== src/Storage/Grouped.antt =====
-- How a download is split into partitions, and when it changes anything.
use haru_quant_cbot.Prelude.Counts.{
  count_if-distinct, sort-SameElements, count_if-keep, count_if-append, count_groups-all,
  count_groups, SameElements,
}
use haru_quant_cbot.Catalog.{Table, Machine}
use haru_quant_cbot.Store.{DataStore}
use mathlib.Core.Path.{subst}
use haru_quant_cbot.Prelude.Sort.{In-sort_iff}
use haru_quant_cbot.Prelude.Text.{text_beq_iff, text_leb, text_beq, Text}
use haru_quant_cbot.Validation.{
  validate_bars, validate_ticks, has_critical_issues, ValidationReport, Validator, Frame,
}
use haru_quant_cbot.Timeframe.{Timeframe}
use haru_quant_cbot.Prelude.{
  any_of_iff, any_of, count_if, ◌++◌, none, arith, Bool-cases, Result-cases, false, some, nat_beq,
  ◌⊎◌, ok, true, [], inr, In-map_iff, In-distinct_iff, ◌∙◌, ap, refl, distinct, inl, In-keep_iff,
  sym, Bool, ◌∷◌, length, map, ◌↔◌, keep, In, List, Option, ◌≡◌,
}
use haru_quant_cbot.Storage.Downloads.{
  store_data, Provider, download_and_store, validated, with_rows, Tools, partition_data,
  partition_of, groups, partition_keys,
}

pair_path : {A B : Type 0} {a c : A} {b d : B} → a ≡ c → b ≡ d → ◌≡◌ {A = A × B} (a, b) (c, d)
pair_path e q = cc

module _ {R : Type 0} (tools : Tools R) where
  In-groups_iff :
      (timeframe : Option Timeframe) (df : Frame (List R)) (keys : List Text) (p : Text)
      (part : Frame (List R))
      → In (p, part) (groups tools timeframe df keys) ↔ (
          In p keys
          × (part
              ≡ with_rows tools df
                  (keep (λ row. text_beq (partition_of tools timeframe row) p) df.content)))
  unfolding groups
  In-groups_iff timeframe df [] p part = (λ i. absurd i, λ h. absurd (h.0))
  In-groups_iff timeframe df (q ∷ keys) p part =
      let (there, back) = In-groups_iff timeframe df keys p part in
      (
        λ i. elim i [
          | inl e ↦
              let same : p ≡ q = ap (λ g. g.0) e in
              (
                inl same,
                ap (λ g. g.1) e
                    ∙ sym (
                        ap
                          (λ x. with_rows tools df (
                            keep (λ row. text_beq (partition_of tools timeframe row) x) df.content))
                          same),
              )
          | inr j ↦ (inr (there j).0, (there j).1)
        ],
        λ h. elim h.0 [
          | inl same ↦ inl (
              pair_path same (
                h.1
                ∙ ap
                    (λ x.
                      with_rows tools df
                        (keep (λ row. text_beq (partition_of tools timeframe row) x) df.content))
                    same))
          | inr j ↦ inr (back (j, h.1))
        ],
      )

  In-partition_keys_iff :
      (timeframe : Option Timeframe) (rows : List R) (p : Text)
      → In p (partition_keys tools timeframe rows)
        ↔ ((row : R) × In row rows × (p ≡ partition_of tools timeframe row))
  unfolding partition_keys
  In-partition_keys_iff timeframe rows p =
      let names = map (partition_of tools timeframe) rows in
      let (s, s') = In-sort_iff text_leb p (distinct text_beq names) in
      let (d, d') = In-distinct_iff text_beq (λ a b. (text_beq_iff a b).0) p names in
      let (m, m') = In-map_iff (partition_of tools timeframe) p rows in
      (λ i. m (d (s i)), λ h. s' (d' (m' h)))

  -- The rows of all partitions.
  abbrev pub all_rows : List (Text × Frame (List R)) → List R
  all_rows [] = []
  all_rows ((p, part) ∷ parts) = part.content ++ all_rows parts

  count_if-groups :
      (timeframe : Option Timeframe) (df : Frame (List R)) (keys : List Text) (name : Text)
      → count_if (λ (g : Text × Frame (List R)). text_beq name g.0) (groups tools timeframe df keys)
        ≡ count_if (text_beq name) keys
  unfolding groups
  count_if-groups timeframe df [] name = refl
  count_if-groups timeframe df (p ∷ keys) name =
      ground (arith, count_if-groups timeframe df keys name)

  count_if-all_rows :
      (timeframe : Option Timeframe) (df : Frame (List R)) (keys : List Text) (q : R → Bool)
      → count_if q (all_rows (groups tools timeframe df keys))
        ≡ count_groups (λ row p. text_beq (partition_of tools timeframe row) p) q keys df.content
  unfolding groups
  count_if-all_rows timeframe df [] q = refl
  count_if-all_rows timeframe df (p ∷ keys) q =
      let test : R → Bool = λ row. text_beq (partition_of tools timeframe row) p in
      count_if-append q (keep test df.content) (all_rows (groups tools timeframe df keys))
      ∙ omega (arith, count_if-keep q test df.content, count_if-all_rows timeframe df keys q)

  -- The partition of a row is one of the keys, and one only.
  one_partition :
      (timeframe : Option Timeframe) (rows : List R) (row : R)
      → In row rows
      → count_if (text_beq (partition_of tools timeframe row)) (partition_keys tools timeframe rows)
        ≡ 1
  unfolding partition_keys
  one_partition timeframe rows row i =
      let name = partition_of tools timeframe row in
      let names = map (partition_of tools timeframe) rows in
      let there : any_of (text_beq name) names ≡ true = (any_of_iff (text_beq name) names).1 (
        name,
        (In-map_iff (partition_of tools timeframe) name rows).1 (row, i, refl),
        (text_beq_iff name name).1 refl,
      ) in
      ground (
        arith,
        sort-SameElements text_leb (distinct text_beq names) (text_beq name),
        count_if-distinct text_beq text_beq_iff name names,
        there,
      )

  -- A download is split into partitions that share no row and lose none: the partition of each row
  -- stands exactly once among them, each partition has one row at least, and its rows are the rows of
  -- the download with that partition, in their order, with its number of rows right and the columns of
  -- the download; all partitions together have each row as often as the download.
  pub partition_data-exact :
      (timeframe : Option Timeframe) (df : Frame (List R))
      → ((row : R)
          → In row df.content
          → count_if
              (λ (g : Text × Frame (List R)). text_beq (partition_of tools timeframe row) g.0)
              (partition_data tools timeframe df)
            ≡ 1)
        × ((p : Text) (part : Frame (List R))
            → In (p, part) (partition_data tools timeframe df)
            → (part.content
                ≡ keep (λ row. text_beq (partition_of tools timeframe row) p) df.content)
              × ((row : R) × In row part.content)
              × (part.rows ≡ length part.content)
              × (part.columns ≡ df.columns))
        × SameElements (all_rows (partition_data tools timeframe df)) df.content
  unfolding partition_data
  partition_data-exact timeframe df =
      let keys = partition_keys tools timeframe df.content in
      (
        λ row i.
            count_if-groups timeframe df keys (partition_of tools timeframe row)
            ∙ one_partition timeframe df.content row i,
        λ p part i.
            let (k, e) = (In-groups_iff timeframe df keys p part).0 i in
            let (row, j, q) = (In-partition_keys_iff timeframe df.content p).0 k in
            (
              ap (λ (f : Frame (List R)). f.content) e,
              (
                row,
                subst (λ (f : Frame (List R)). In row f.content) (sym e)
                    ((In-keep_iff (λ r. text_beq (partition_of tools timeframe r) p) row
                        df.content).1
                      (j, (text_beq_iff (partition_of tools timeframe row) p).1 (sym q))),
              ),
              subst (λ (f : Frame (List R)). f.rows ≡ length f.content) (sym e) refl,
              ap (λ (f : Frame (List R)). f.columns) e,
            ),
        λ q.
            count_if-all_rows timeframe df keys q
            ∙ count_groups-all (λ row p. text_beq (partition_of tools timeframe row) p) q keys
                df.content (one_partition timeframe df.content),
      )

  module _ {S : Type 0} (store : DataStore S R) (m : Machine) (lower : Text → Text)
      (validators : List (Validator (List R))) where
    critical-refused :
        (symbol : Text) (timeframe : Option Timeframe) (df : Frame (List R))
        (report : Option ValidationReport)
        → validated tools store m lower validators true true symbol timeframe df ≡ ok report
        → (r : ValidationReport) × (report ≡ some r) × (has_critical_issues r ≡ false)
    unfolding validated
    critical-refused symbol none df report h =
        elim (Result-cases (validate_ticks lower validators df symbol)) [
          | inr (e, q) ↦ absurd (ground (arith, q, h))
          | inl (r, q) ↦ elim (Bool-cases (has_critical_issues r)) [
            | inl critical ↦ absurd (ground (arith, q, h, critical))
            | inr fine ↦ (r, ground (arith, q, h, fine), fine)
          ]
        ]
    critical-refused symbol (some tf) df report h =
        elim (Result-cases (validate_bars lower validators df symbol)) [
          | inr (e, q) ↦ absurd (ground (arith, q, h))
          | inl (r, q) ↦ elim (Bool-cases (has_critical_issues r)) [
            | inl critical ↦ absurd (ground (arith, q, h, critical))
            | inr fine ↦ (r, ground (arith, q, h, fine), fine)
          ]
        ]

    -- With the validation asked for and critical issues set to stop it, as is the default, a download
    -- leaves the store and the catalog as they were, unless the provider gave rows and the pipeline a
    -- report on them without a critical issue; then what it does is to store the partitions of these
    -- rows.
    pub download_and_store-guarded :
        (provider : Provider R) (symbol : Text) (timeframe : Option Timeframe)
        (source : Option Text) (state : S × Table)
        → let after =
            download_and_store tools store m lower validators provider symbol timeframe true true
              source state in
          (after.0 ≡ state)
          ⊎ ((df : Frame (List R)) × (report : ValidationReport) × (provider.fetched ≡ ok df)
              × (nat_beq df.rows 0 ≡ false)
              × (validated tools store m lower validators true true symbol timeframe df
                  ≡ ok (some report))
              × (has_critical_issues report ≡ false)
              × (after
                  ≡ store_data tools store m symbol timeframe source provider.provider_name df
                      (some report)
                      state))
    unfolding download_and_store
    download_and_store-guarded provider symbol timeframe source state =
        elim (Result-cases provider.fetched) [
          | inr (e, q) ↦ inl (rw q refl)
          | inl (df, q) ↦ elim (Bool-cases (nat_beq df.rows 0)) [
            | inl empty ↦ inl (rw (q, empty) refl)
            | inr full ↦
                elim (Result-cases
                  (validated tools store m lower validators true true symbol timeframe df)) [
                    | inr (e, v) ↦ inl (rw (q, full, v) refl)
                    | inl (report, v) ↦
                        let (r, is_r, fine) = critical-refused symbol timeframe df report v in
                        let v' = v ∙ ap (λ x. ok x) is_r in
                        inr (df, r, q, full, v', fine, rw (q, full, v') refl)
                  ]
          ]
        ]
