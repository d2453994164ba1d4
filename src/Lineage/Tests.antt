-- ===== src/Lineage/Tests.antt =====
-- A concrete table: backtest 7 used two files, of which one has since changed.
use haru_quant_cbot.Catalog.{null_leb}
use haru_quant_cbot.Prelude.{
  option_beq, ℕ, ◌+◌, ◌≡◌, ◌⊎◌, ◌↔◌, refl, true, none, some, [], ◌∷◌, In, length, ok, ◌||◌,
  if◌then◌else◌,
}
use haru_quant_cbot.Prelude.Text.{Text, str, text_beq, text_leb}
use haru_quant_cbot.Prelude.Sort.{sort}
use haru_quant_cbot.Hasher.{Bytes, Disk, verify_file_hash}
use haru_quant_cbot.Lineage.{
  Row, Table, init_database, DataFile, row_of, insert_files, record_backtest_lineage, row_leb,
  get_lineage, no_lineage, check_file, check_files, can_reproduce,
}
use haru_quant_cbot.Lineage.Reproduce.{Intact, can_reproduce-exact}

abbrev disk : Disk
disk = record {
  exists = λ p. text_beq p (str "a") || text_beq p (str "b");
  content = λ p. if text_beq p (str "a") then ok (1 ∷ 2 ∷ []) else ok (9 ∷ []);
}

abbrev show : Bytes → Text
show bytes = bytes

abbrev file_a : DataFile
file_a = record {
  file_path = some (str "a");
  version_hash = some (1 ∷ 2 ∷ []);
  symbol = some (str "EURUSD");
  timeframe = some (str "H1");
  partition = none;
}

abbrev file_b : DataFile
file_b = record file_a { file_path = some (str "b"); version_hash = some (8 ∷ []) }

abbrev table : Table
table = (record_backtest_lineage 7 100 (file_a ∷ file_b ∷ []) init_database).0

verdict :
    ◌≡◌ {A = ℕ × ℕ}
      (
        (can_reproduce show disk 7 table).verified_files,
        length (can_reproduce show disk 7 table).issues,
      )
      (1, 1)
unfolding can_reproduce record_backtest_lineage insert_files row_of init_database get_lineage sort
    row_leb check_files check_file verify_file_hash text_beq text_leb option_beq null_leb
verdict = refl

can_reproduce-exact_example :
    let report = can_reproduce show disk 7 table in
    ((report.reproducible ≡ true) ↔ (
      ((r : Row) × In r table.rows × (r.backtest_id ≡ 7))
      × ((r : Row) → In r table.rows → r.backtest_id ≡ 7 → Intact show disk r)))
    × ((report.verified_files + length report.issues ≡ report.total_files)
        ⊎ ((report.issues ≡ no_lineage 7 ∷ []) × (report.total_files ≡ 0)))
can_reproduce-exact_example = can_reproduce-exact show disk 7 table
