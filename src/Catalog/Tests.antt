-- ===== src/Catalog/Tests.antt =====
-- Concrete catalogs.
use haru_quant_cbot.Prelude.{
  ◌⊎◌, suc, ℕ, ◌≡◌, ◌↔◌, refl, none, some, ◌∷◌, In, length, count_if, option_beq,
}
use haru_quant_cbot.Prelude.Text.{str, text_beq, text_leb}
use haru_quant_cbot.Prelude.Sort.{IsSorted, sort}
use haru_quant_cbot.Timeframe.{h1, d1, name}
use haru_quant_cbot.Catalog.{
  Entry, Table, init_database, Registration, Machine, find_path, register_file, Filter, selects,
  null_leb, entry_leb, query_available,
}
use haru_quant_cbot.Catalog.Invariant.{IsValid, init_database-IsValid}
use haru_quant_cbot.Catalog.Register.{register_file-IsValid, HasArguments, register_file-upserts}
use haru_quant_cbot.Catalog.Query.{Matches, query_available-exact}

abbrev machine : Machine
machine = record { absolute = λ p. b'/' ∷ p; size_of = λ p. some 7; now = 1700 }

abbrev hourly : Registration
hourly = record {
  symbol = str "EURUSD";
  timeframe = some h1;
  partition = str "2024";
  file_path = str "e/h";
  storage_format = str "parquet";
  row_count = 8760;
  min_timestamp = 10;
  max_timestamp = 90;
  data_source = none;
  version_hash = none;
  file_size_bytes = none;
}

abbrev daily : Registration
daily = record hourly { timeframe = some d1; partition = str "all"; file_path = str "e/d" }

abbrev one : Table
one = (register_file machine hourly init_database).0

abbrev two : Table
two = (register_file machine daily one).0

two_ids : ◌≡◌ {A = ℕ × ℕ} (length two.rows, two.next_id) (2, 3)
unfolding register_file init_database find_path text_beq
two_ids = refl

abbrev everything : Filter
everything = record {
  symbol = some (str "EURUSD");
  timeframe = none;
  start = some 50;
  stop = none;
  storage_format = none;
}

query-two : ◌≡◌ {A = ℕ} (length (query_available everything two)) 2
unfolding query_available register_file init_database find_path text_beq selects sort entry_leb
    null_leb option_beq text_leb name
query-two = refl

one-IsValid : IsValid one
one-IsValid = register_file-IsValid machine hourly init_database init_database-IsValid

register_file-IsValid_example : IsValid (register_file machine daily one).0
register_file-IsValid_example = register_file-IsValid machine daily one one-IsValid

register_file-upserts_example :
    let (t', id) = register_file machine hourly one in
    (row : Entry) × (find_path (str "/e/h") t'.rows ≡ some row)
    × (id ≡ row.id)
    × HasArguments machine hourly one row
    × (((find_path (str "/e/h") one.rows ≡ none)
          × (row.id ≡ one.next_id)
          × (row.created_at ≡ machine.now)
          × (row.download_timestamp ≡ machine.now)
          × (length t'.rows ≡ suc (length one.rows)))
        ⊎ ((old : Entry) × (find_path (str "/e/h") one.rows ≡ some old)
            × (row.id ≡ old.id)
            × (row.created_at ≡ old.created_at)
            × (row.download_timestamp ≡ old.download_timestamp)
            × (length t'.rows ≡ length one.rows)))
register_file-upserts_example = register_file-upserts machine hourly one

query_available-exact_example :
    ((r : Entry) → In r (query_available everything two) ↔ (In r two.rows × Matches everything r))
    × IsSorted entry_leb (query_available everything two)
    × (length (query_available everything two) ≡ count_if (selects everything) two.rows)
query_available-exact_example = query_available-exact everything two
