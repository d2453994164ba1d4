-- ===== src/Storage/Deletion.antt =====
-- What `delete` leaves in the catalog.
use haru_quant_cbot.Prelude.Sort.{In-sort_iff}
use haru_quant_cbot.Catalog.Removal.{delete_entry-exact}
use haru_quant_cbot.Catalog.Invariant.{IsValid}
use haru_quant_cbot.Catalog.{delete_entry, timeframe_str, Table, list_partitions, Entry}
use haru_quant_cbot.Storage.{delete_entries, delete_partitions, delete}
use haru_quant_cbot.Timeframe.{Timeframe}
use haru_quant_cbot.Prelude.{
  refl, In-keep_iff, In-map_iff, keep, map, option_beq_iff, inr, inl, [], arith, true, option_beq,
  if◌then◌else◌, ◌+◌, ◌&&◌, none, ◌∷◌, Bool, ok, ◌↔◌, In, ℕ, List, ◌≡◌, Option,
}
use haru_quant_cbot.Prelude.Text.{text_eq, text_leb, text_beq_iff, text_beq, Text}

-- The row is of the symbol and the timeframe.
abbrev pub IsOf : Text → Option Timeframe → Entry → Type 0
IsOf symbol timeframe r = (r.symbol ≡ symbol) × (r.timeframe ≡ timeframe_str timeframe)

module _ (symbol : Text) (timeframe : Option Timeframe) where
  delete_partitions-IsValid :
      (partitions : List Text) (t : Table) (n : ℕ)
      → IsValid t
      → IsValid (delete_partitions symbol timeframe partitions t n).0
  unfolding delete_partitions
  delete_partitions-IsValid [] t n v = v
  delete_partitions-IsValid (p ∷ partitions) t n v =
      delete_partitions-IsValid partitions (delete_entry symbol timeframe p t).0
        (n + (if (delete_entry symbol timeframe p t).1 then 1 else 0))
        (delete_entry-exact symbol timeframe p t v).2

  delete_partitions-rows :
      (partitions : List Text) (t : Table) (n : ℕ)
      → IsValid t
      → (r : Entry)
      → In r (delete_partitions symbol timeframe partitions t n).0.rows
        ↔ (In r t.rows × (¬ (IsOf symbol timeframe r × In r.partition partitions)))
  unfolding delete_partitions
  delete_partitions-rows [] t n v r = (λ i. (i, λ h. h.1), λ h. h.0)
  delete_partitions-rows (p ∷ partitions) t n v r =
      let (there, back) =
        delete_partitions-rows partitions (delete_entry symbol timeframe p t).0
          (n + (if (delete_entry symbol timeframe p t).1 then 1 else 0))
          (delete_entry-exact symbol timeframe p t v).2 r in
      let (kept, keeps) = (delete_entry-exact symbol timeframe p t v).0 r in
      (
        λ i.
            let (j, not_later) = there i in
            let (k, not_here) = kept j in
            (
              k,
              λ h. elim h.1 [
                | inl same ↦ not_here (h.0.0, h.0.1, same)
                | inr later ↦ not_later (h.0, later)
              ],
            ),
        λ h.
            back (
              keeps (h.0, λ at. h.1 ((at.0, at.1), inl at.2)),
              λ later. h.1 (later.0, inr later.1),
            ),
      )

  -- Each row of the symbol and the timeframe has its partition listed.
  listed :
      (t : Table) (r : Entry)
      → In r t.rows
      → IsOf symbol timeframe r
      → In r.partition (list_partitions symbol timeframe t)
  unfolding list_partitions
  listed t r i h =
      let p : Entry → Bool =
        λ q. text_beq q.symbol symbol && option_beq q.timeframe (timeframe_str timeframe) in
      let passes : p r ≡ true = ground (
        arith,
        text_beq_iff r.symbol symbol,
        option_beq_iff r.timeframe (timeframe_str timeframe),
        h,
      ) in
      (In-sort_iff text_leb r.partition (map (λ (q : Entry). q.partition) (keep p t.rows))).1 (
        (In-map_iff (λ (q : Entry). q.partition) r.partition (keep p t.rows)).1
          (r, (In-keep_iff p r t.rows).1 (i, passes), refl))

  -- Without a partition `delete` removes from the catalog exactly the rows of
  -- the symbol and the timeframe, and keeps the catalog well formed.
  pub delete-all :
      (files_deleted : ℕ) (t : Table)
      → IsValid t
      → let t' = (delete (ok files_deleted) symbol timeframe none t).0 in
        ((r : Entry) → In r t'.rows ↔ (In r t.rows × (¬ IsOf symbol timeframe r))) × IsValid t'
  unfolding delete delete_entries
  delete-all files_deleted t v = (
    λ r.
        let (there, back) = delete_partitions-rows (list_partitions symbol timeframe t) t 0 v r in
        (
          λ i. let (j, others) = there i in (j, λ of. others (of, listed t r j of)),
          λ h. back (h.0, λ both. h.1 both.0),
        ),
    delete_partitions-IsValid (list_partitions symbol timeframe t) t 0 v,
  )
