-- ===== src/Catalog/Removal.antt =====
-- What `delete_entry`, `get_metadata` and `list_partitions` say of the table.
use haru_quant_cbot.Prelude.{
  ◌≡◌, ◌↔◌, Bool, true, false, not, Option, none, some, List, [], ◌∷◌, In, In-keep_iff,
  count_if-pos, any_of_iff, arith, option_beq_iff, raise, ok, key_error, Bool-cases, Option-cases,
  inl, inr,
}
use mathlib.Core.Path.{subst}
use haru_quant_cbot.Prelude.Text.{Text, text_beq_iff, text_eq}
use haru_quant_cbot.Timeframe.{Timeframe}
use haru_quant_cbot.Catalog.{
  Entry, Table, timeframe_str, is_at, first_of_rows, get_metadata, delete_entry,
}
use haru_quant_cbot.Catalog.Invariant.{IsValid, keep-below, keep-DistinctIds, keep-DistinctPaths}

-- The row has the symbol, the timeframe (NULL for ticks) and the partition.
abbrev pub At : Text → Option Timeframe → Text → Entry → Type 0
At symbol timeframe partition r =
    (r.symbol ≡ symbol) × (r.timeframe ≡ timeframe_str timeframe) × (r.partition ≡ partition)

module _ (symbol : Text) (timeframe : Option Timeframe) (partition : Text) where
  pub is_at_iff :
      (r : Entry) → (is_at symbol timeframe partition r ≡ true) ↔ At symbol timeframe partition r
  unfolding is_at
  is_at_iff r = ground (
    arith,
    text_beq_iff r.symbol symbol,
    option_beq_iff r.timeframe (timeframe_str timeframe),
    text_beq_iff r.partition partition,
  )

  -- Deletion removes exactly the rows of the symbol, timeframe and partition, answers whether there
  -- was one, and keeps the catalog well formed.
  pub delete_entry-exact :
      (t : Table)
      → IsValid t
      → let (t', deleted) = delete_entry symbol timeframe partition t in
        ((r : Entry) → In r t'.rows ↔ (In r t.rows × (¬ At symbol timeframe partition r)))
        × ((deleted ≡ true) ↔ ((r : Entry) × In r t.rows × At symbol timeframe partition r))
        × IsValid t'
  unfolding delete_entry
  delete_entry-exact t v =
      let p = is_at symbol timeframe partition in
      (
        λ r.
            let kept = In-keep_iff (λ q. not (p q)) r t.rows in
            let (there, back) = is_at_iff r in
            (
              λ i. let (j, q) = kept.0 i in (j, λ at. let found = back at in ground arith),
              λ h. kept.1 (h.0, ground (arith, h.1, Bool-cases (p r), there)),
            ),
        rw (count_if-pos p t.rows) (
          λ h. let (r, i, q) = (any_of_iff p t.rows).0 h in (r, i, (is_at_iff r).0 q),
          λ h. (any_of_iff p t.rows).1 (h.0, h.1, (is_at_iff h.0).1 h.2),
        ),
        record {
          ids_below = keep-below (λ q. not (p q)) t.next_id t.rows v.ids_below;
          distinct_ids = keep-DistinctIds (λ q. not (p q)) t.rows v.distinct_ids;
          distinct_paths = keep-DistinctPaths (λ q. not (p q)) t.rows v.distinct_paths;
        },
      )

  first_of_rows-some :
      (p : Entry → Bool) (rows : List Entry) (r : Entry)
      → first_of_rows p rows ≡ some r
      → In r rows × (p r ≡ true)
  unfolding first_of_rows
  first_of_rows-some p [] r h = cc
  first_of_rows-some p (q ∷ rows) r h = ground (arith, first_of_rows-some p rows r)

  first_of_rows-none :
      (p : Entry → Bool) (rows : List Entry) (r : Entry)
      → first_of_rows p rows ≡ none
      → In r rows
      → p r ≡ false
  unfolding first_of_rows
  first_of_rows-none p [] r h i = absurd i
  first_of_rows-none p (q ∷ rows) r h i = ground (arith, first_of_rows-none p rows r)

  -- A lookup returns a row of the table with the symbol, the timeframe and the partition, and
  -- raises `KeyError` exactly if there is none.
  pub get_metadata-exact :
      (t : Table)
      → ((r : Entry)
          → get_metadata symbol timeframe partition t ≡ ok r
          → In r t.rows × At symbol timeframe partition r)
        × ((get_metadata symbol timeframe partition t ≡ raise key_error)
            ↔ ((r : Entry) → In r t.rows → ¬ At symbol timeframe partition r))
  unfolding get_metadata
  get_metadata-exact t =
      let p = is_at symbol timeframe partition in
      elim (Option-cases (first_of_rows p t.rows)) [
        | inl missing ↦ (
          λ r e. absurd (ground arith),
          (
            λ _ r i at.
                let unmet = first_of_rows-none p t.rows r missing i in
                let met = (is_at_iff r).1 at in ground arith,
            λ _. rw (missing, get_metadata),
          ),
        )
        | inr (q, found) ↦
            let (i, met) = first_of_rows-some p t.rows q found in
            let at = (is_at_iff q).0 met in
            (
              λ r e.
                  let same : q ≡ r = ground arith in
                  (
                    subst (λ x. In x t.rows) same i,
                    subst (λ x. At symbol timeframe partition x) same at,
                  ),
              (λ e. absurd (ground arith), λ none_at. absurd (none_at q i at)),
            )
      ]

  -- A lookup right after a deletion raises `KeyError`.
  pub get_metadata-delete_entry :
      (t : Table)
      → get_metadata symbol timeframe partition (delete_entry symbol timeframe partition t).0
        ≡ raise key_error
  unfolding delete_entry
  get_metadata-delete_entry t =
      (get_metadata-exact (delete_entry symbol timeframe partition t).0).1.1 (λ r i at.
        let q = ((In-keep_iff (λ x. not (is_at symbol timeframe partition x)) r t.rows).0 i).1 in
        let met = (is_at_iff r).1 at in ground arith)
