-- ===== src/Checks/Cleaned.antt =====
-- What the cleaning of src/hqt/data/validation/cleaning.py leaves of a frame.
use haru_quant_cbot.Validation.{is_empty}
use haru_quant_cbot.Prelude.Text.{str, text_beq}
use haru_quant_cbot.Prelude.{
  In-map_iff, ok, nat_beq_iff, ◌∙◌, any_of_iff, In-All, false, refl, inr, inl, any_of, ◌≡◌, ◌≤◌, [],
  ◌<◌, Bool-cases, All, ◌↔◌, arith, map, distinct, In, ◌∷◌, List, ℕ,
}
use haru_quant_cbot.Checks.{Bar, BarFrame}
use haru_quant_cbot.Checks.Cleaning.{
  keep_last, with_rows, drop_duplicates, Pandas, remove_duplicates, same_time,
}
use haru_quant_cbot.Checks.Sanity.{Has, need-Has}

module _ {N : Type 0} where
  -- No row is later than one after it.
  abbrev pub IsOrdered : List (Bar N) → Type 0
  IsOrdered [] = Unit
  IsOrdered (row ∷ rows) = All (λ (r : Bar N). row.timestamp ≤ r.timestamp) rows × IsOrdered rows

  -- Each row is earlier than all after it.
  abbrev pub IsIncreasing : List (Bar N) → Type 0
  IsIncreasing [] = Unit
  IsIncreasing (row ∷ rows) =
      All (λ (r : Bar N). row.timestamp < r.timestamp) rows × IsIncreasing rows

  -- What the sort of pandas does, with rows of one time in any order.
  pub record SortLaws (pd : Pandas N) : Type 0 where
    pub ordered : (rows : List (Bar N)) → IsOrdered (pd.sort_values rows)
    pub same_rows : (row : Bar N) (rows : List (Bar N)) → In row (pd.sort_values rows) ↔ In row rows

  All-each :
      (P : Bar N → Type 0) (rows : List (Bar N))
      → ((row : Bar N) → In row rows → P row)
      → All P rows
  All-each P [] h = tt
  All-each P (row ∷ rows) h = (h row (inl refl), All-each P rows (λ r i. h r (inr i)))

  distinct-In_rows :
      (row : Bar N) (rows : List (Bar N)) → In row (distinct same_time rows) → In row rows
  distinct-In_rows row [] i = i
  distinct-In_rows row (r ∷ rows) i = ground (arith, distinct-In_rows row rows)

  -- Of ordered rows the ones that stay are increasing.
  distinct-IsIncreasing :
      (rows : List (Bar N)) → IsOrdered rows → IsIncreasing (distinct same_time rows)
  distinct-IsIncreasing [] o = tt
  distinct-IsIncreasing (row ∷ rows) o =
      let rest = distinct-IsIncreasing rows o.1 in
      elim (Bool-cases (any_of (same_time row) rows)) [
        | inl again ↦ rw again rest
        | inr new ↦ rw new (
          All-each (λ (r : Bar N). row.timestamp < r.timestamp) (distinct same_time rows)
              (λ r i.
                let i' = distinct-In_rows r rows i in
                let later = In-All (λ (r : Bar N). row.timestamp ≤ r.timestamp) rows o.0 i' in
                elim (Bool-cases (same_time row r)) [
                  | inl same ↦
                      absurd
                        (ground (arith, new, (any_of_iff (same_time row) rows).1 (r, i', same)))
                  | inr other ↦ ground (arith, later, other)
                ]),
          rest,
        )
      ]

  -- Each time of the rows stays.
  distinct-times :
      (t : ℕ) (rows : List (Bar N))
      → In t (map (λ (r : Bar N). r.timestamp) rows)
      → In t (map (λ (r : Bar N). r.timestamp) (distinct same_time rows))
  distinct-times t [] i = i
  distinct-times t (row ∷ rows) (inr i) = elim (Bool-cases (any_of (same_time row) rows)) [
    | inl again ↦ rw again (distinct-times t rows i)
    | inr new ↦ rw new (inr (distinct-times t rows i))
  ]
  distinct-times t (row ∷ rows) (inl e) = elim (Bool-cases (any_of (same_time row) rows)) [
    | inl again ↦
        let (r, j, same) = (any_of_iff (same_time row) rows).0 again in
        let e' : t ≡ r.timestamp = e ∙ (nat_beq_iff row.timestamp r.timestamp).0 same in
        rw again
          (distinct-times t rows ((In-map_iff (λ (x : Bar N). x.timestamp) t rows).1 (r, j, e')))
    | inr new ↦ rw new (inl e)
  ]

  -- On a frame with rows and times, the removal of duplicates with `keep="last"`, the default, gives a
  -- frame whose rows are rows of the old one, each strictly later than the one before it, with every
  -- time of the old frame; which of the rows of one time stays is left to the sort, which is not stable.
  pub remove_duplicates-exact :
      (pd : Pandas N) (laws : SortLaws pd) (df : BarFrame N)
      → is_empty df ≡ false
      → Has (str "timestamp" ∷ []) df
      → (clean : BarFrame N) × (remove_duplicates pd keep_last df ≡ ok clean)
        × IsIncreasing clean.content
        × ((row : Bar N) → In row clean.content → In row df.content)
        × ((row : Bar N)
            → In row df.content
            → In row.timestamp (map (λ (r : Bar N). r.timestamp) clean.content))
  unfolding remove_duplicates drop_duplicates text_beq
  remove_duplicates-exact pd laws df full times =
      let sorted = pd.sort_values df.content in
      (
        with_rows df (distinct same_time sorted),
        rw (full, need-Has (str "timestamp" ∷ []) df times) refl,
        distinct-IsIncreasing sorted (laws.ordered df.content),
        λ row i. (laws.same_rows row df.content).0 (distinct-In_rows row sorted i),
        λ row i. distinct-times row.timestamp sorted (
            (In-map_iff (λ (r : Bar N). r.timestamp) row.timestamp sorted).1
              (row, (laws.same_rows row df.content).1 i, refl)),
      )
