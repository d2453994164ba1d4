-- ===== src/Lineage/Versions.antt =====
-- The two queries that link backtests and data versions.
use haru_quant_cbot.Prelude.{
  ℕ, ◌≡◌, ◌⊎◌, ◌↔◌, true, map, keep, In, In-keep_iff, In-map_iff, In-distinct_iff, arith, distinct,
  leb, nat_beq, nat_beq_iff, sym,
}
use haru_quant_cbot.Prelude.Text.{Text, text_beq, text_beq_iff, text_leb, text_leb_total}
use haru_quant_cbot.Prelude.Sort.{IsSorted, In-sort_iff, sort-IsSorted}
use haru_quant_cbot.Lineage.{Row, Table, get_data_versions, find_backtests_using_data}

-- A row says that the backtest used the data version.
abbrev pub Used : ℕ → Text → Table → Type 0
Used b version t = (r : Row) × In r t.rows × (r.backtest_id ≡ b) × (r.data_version_hash ≡ version)

leb_total : (a b : ℕ) → (leb a b ≡ true) ⊎ (leb b a ≡ true)
leb_total a b = ground arith

versions-Used :
    (b : ℕ) (version : Text) (t : Table) → In version (get_data_versions b t) ↔ Used b version t
unfolding get_data_versions
versions-Used b version t =
    let mine = keep (λ (r : Row). nat_beq r.backtest_id b) t.rows in
    let hashes = map (λ (r : Row). r.data_version_hash) mine in
    let sorted = In-sort_iff text_leb version (distinct text_beq hashes) in
    let once = In-distinct_iff text_beq (λ x y. (text_beq_iff x y).0) version hashes in
    let mapped = In-map_iff (λ (r : Row). r.data_version_hash) version mine in
    (
      λ i.
          let (r, j, e) = mapped.0 (once.0 (sorted.0 i)) in
          let (k, q) = (In-keep_iff (λ (x : Row). nat_beq x.backtest_id b) r t.rows).0 j in
          (r, k, (nat_beq_iff r.backtest_id b).0 q, sym e),
      λ h.
          let j =
            (In-keep_iff (λ (x : Row). nat_beq x.backtest_id b) h.0 t.rows).1
              (h.1, (nat_beq_iff h.0.backtest_id b).1 h.2) in
          sorted.1 (once.1 (mapped.1 (h.0, j, sym h.3))),
    )

backtests-Used :
    (b : ℕ) (version : Text) (t : Table)
    → In b (find_backtests_using_data version t) ↔ Used b version t
unfolding find_backtests_using_data
backtests-Used b version t =
    let mine = keep (λ (r : Row). text_beq r.data_version_hash version) t.rows in
    let ids = map (λ (r : Row). r.backtest_id) mine in
    let sorted = In-sort_iff leb b (distinct nat_beq ids) in
    let once = In-distinct_iff nat_beq (λ x y. (nat_beq_iff x y).0) b ids in
    let mapped = In-map_iff (λ (r : Row). r.backtest_id) b mine in
    (
      λ i.
          let (r, j, e) = mapped.0 (once.0 (sorted.0 i)) in
          let (k, q) =
            (In-keep_iff (λ (x : Row). text_beq x.data_version_hash version) r t.rows).0 j in
          (r, k, sym e, (text_beq_iff r.data_version_hash version).0 q),
      λ h.
          let j =
            (In-keep_iff (λ (x : Row). text_beq x.data_version_hash version) h.0 t.rows).1
              (h.1, (text_beq_iff h.0.data_version_hash version).1 h.3) in
          sorted.1 (once.1 (mapped.1 (h.0, j, sym h.2))),
    )

-- The two queries answer the same question: a version is among those of a backtest, and the backtest
-- among those that used the version, exactly if a row of the table links the two. Both answers are
-- in ascending order.
pub versions-backtests :
    (b : ℕ) (version : Text) (t : Table)
    → (In version (get_data_versions b t) ↔ Used b version t)
      × (In b (find_backtests_using_data version t) ↔ Used b version t)
      × IsSorted text_leb (get_data_versions b t)
      × IsSorted leb (find_backtests_using_data version t)
unfolding get_data_versions find_backtests_using_data
versions-backtests b version t = (
  versions-Used b version t,
  backtests-Used b version t,
  sort-IsSorted text_leb text_leb_total _,
  sort-IsSorted leb leb_total _,
)
