-- ===== src/Storage/Tests.antt =====
-- A catalog with two files of a symbol.
use haru_quant_cbot.Timeframe.{h1}
use haru_quant_cbot.Prelude.Text.{str}
use haru_quant_cbot.Prelude.{refl, ◌≡◌, none, some, ok, ◌∷◌}
use haru_quant_cbot.Storage.{delete_entries, delete}
use haru_quant_cbot.Catalog.{
  Machine, init_database, delete_entry, register_file, Registration, Table,
}
use haru_quant_cbot.Catalog.Register.{register_file-IsValid}
use haru_quant_cbot.Catalog.Invariant.{init_database-IsValid, IsValid}

abbrev machine : Machine
machine = record { absolute = λ p. b'/' ∷ p; size_of = λ p. none; now = 5 }

abbrev year_2023 : Registration
year_2023 = record {
  symbol = str "GU";
  timeframe = some h1;
  partition = str "2023";
  file_path = str "g/23";
  storage_format = str "hdf5";
  row_count = 2;
  min_timestamp = 1;
  max_timestamp = 2;
  data_source = none;
  version_hash = none;
  file_size_bytes = none;
}

abbrev filled : Table
filled =
    (register_file machine (record year_2023 { partition = str "2024"; file_path = str "g/24" })
      (register_file machine year_2023 init_database).0).0

filled-IsValid : IsValid filled
filled-IsValid =
    register_file-IsValid machine
      (record year_2023 { partition = str "2024"; file_path = str "g/24" })
      (register_file machine year_2023 init_database).0
      (register_file-IsValid machine year_2023 init_database init_database-IsValid)

-- Deleting a partition that the catalog does not have is reported as one entry.
nothing_deleted :
    delete (ok 0) (str "GU") (some h1) (some (str "2022")) init_database
    ≡ (init_database, ok (record { files_deleted = 0; entries_deleted = 1 }))
unfolding delete delete_entries delete_entry init_database
nothing_deleted = refl
