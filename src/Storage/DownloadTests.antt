-- ===== src/Storage/DownloadTests.antt =====
-- Downloads of ticks that are a time and a price.
use haru_quant_cbot.Prelude.Counts.{SameElements}
use haru_quant_cbot.Storage.Compaction.{compact-failed_write}
use haru_quant_cbot.Storage.Grouped.{all_rows, partition_data-exact, download_and_store-guarded}
use haru_quant_cbot.Prelude.Dict.{lookup, insert}
use haru_quant_cbot.Prelude.Sort.{place, sort}
use haru_quant_cbot.Partition.{month_text, year_text, get_partition}
use haru_quant_cbot.Prelude.Text.{text_eq, Text, ends_with, text_leb, text_beq, str}
use haru_quant_cbot.Validation.{
  ValidationReport, severity_beq, severity_count, has_critical_issues, run_validators, has_column,
  is_empty, validate, validate_ticks, Frame,
}
use haru_quant_cbot.Prelude.{
  keep, count_if, raise, Error, length, false, nat_beq, ◌⊎◌, In, true, refl, ◌≡◌, none, map, leb,
  [], ◌%◌, ◌/◌, ◌∷◌, ok, ◌+◌, List, some, ℕ,
}
use haru_quant_cbot.Storage.Downloads.{
  compact, compute_hash, max_timestamp, min_timestamp, registration, store_partitions, store_data,
  partition_of, partition_keys, validated, groups, Tools, Provider, partition_data,
  download_and_store,
}
use haru_quant_cbot.Store.{directory_of, DataStore, tick_columns}
use haru_quant_cbot.Store.Files.{
  failed, frame_of, in_range, read_file, read_files, read_folder, files_to_read, read_at, read_rows,
  Folder, path_of, file_name, put_folder, folder_at, write_rows, Tree, Written, done,
}
use haru_quant_cbot.Store.Parquet.{parquet_format, parquet_store}
use haru_quant_cbot.Catalog.{find_path, register_file, Machine, init_database}

-- Forty microseconds are a month here.
abbrev tools : Tools (ℕ × ℕ)
tools = record {
  timestamp = λ r. r.0;
  date_of = λ t. record { year = 2024; month = 1 + t / 40; micros = t % 40 };
  sort_rows = λ rows. sort (λ (a b : ℕ × ℕ). leb a.0 b.0) rows;
  close_bytes = map (λ r. r.1);
  ask_bytes = map (λ r. r.1);
  time_bytes = map (λ r. r.0);
  sha256 = λ bytes. bytes;
}

abbrev machine : Machine
machine = record { absolute = λ p. p; size_of = λ p. some 8; now = 5 }

abbrev store : Written (ℕ × ℕ) → DataStore (Tree (ℕ × ℕ)) (ℕ × ℕ)
store = parquet_store (str "d") (λ r. r) (λ r. r) (λ r. r.0) (λ rows. rows)

abbrev ticks : Frame (List (ℕ × ℕ))
ticks = record { columns = tick_columns; rows = 3; content = (50, 3) ∷ (4, 2) ∷ (6, 2) ∷ [] }

abbrev source : Provider (ℕ × ℕ)
source = record { fetched = ok ticks; provider_name = str "P" }

partitions_made :
    partition_data tools none ticks
    ≡ (str "2024-01", record ticks { rows = 2; content = (4, 2) ∷ (6, 2) ∷ [] })
      ∷ (str "2024-02", record ticks { rows = 1; content = (50, 3) ∷ [] })
      ∷ []
unfolding partition_data groups partition_keys partition_of get_partition year_text month_text sort
    place text_leb text_beq
partitions_made = refl

-- The pipeline without checks accepts the download, which makes two files and two entries.
partitions_stored :
    (download_and_store tools
      (store done)
      machine
      (λ t. t)
      []
      source
      (str "EU")
      none
      true
      true
      none
      ([], init_database)).1
    ≡ ok (record {
      partitions = str "2024-01" ∷ str "2024-02" ∷ [];
      total_rows = 3;
      validation_report =
          some (record { symbol = str "EU"; issues = []; total_bars = 3; checks_run = [] });
      version_hash = none;
    })
unfolding download_and_store validated validate_ticks validate is_empty has_column text_beq
    run_validators has_critical_issues severity_count severity_beq store_data store_partitions
    partition_data groups partition_keys partition_of get_partition year_text month_text sort place
    text_leb registration ends_with min_timestamp max_timestamp compute_hash parquet_store
    write_rows folder_at put_folder file_name path_of insert lookup parquet_format register_file
    find_path init_database
partitions_stored = refl

partition_data-exact_example :
    ((row : ℕ × ℕ)
      → In row ticks.content
      → count_if
          (λ (g : Text × Frame (List (ℕ × ℕ))). text_beq (partition_of tools none row) g.0)
          (partition_data tools none ticks)
        ≡ 1)
    × ((p : Text) (part : Frame (List (ℕ × ℕ)))
        → In (p, part) (partition_data tools none ticks)
        → (part.content ≡ keep (λ row. text_beq (partition_of tools none row) p) ticks.content)
          × ((row : ℕ × ℕ) × In row part.content)
          × (part.rows ≡ length part.content)
          × (part.columns ≡ ticks.columns))
    × SameElements (all_rows tools (partition_data tools none ticks)) ticks.content
partition_data-exact_example = partition_data-exact tools none ticks

download_and_store-guarded_example :
    let after =
      download_and_store tools
        (store done)
        machine
        (λ t. t)
        []
        source
        (str "EU")
        none
        true
        true
        none
        ([], init_database) in
    (after.0 ≡ ([], init_database))
    ⊎ ((df : Frame (List (ℕ × ℕ))) × (report : ValidationReport) × (source.fetched ≡ ok df)
        × (nat_beq df.rows 0 ≡ false)
        × (validated tools (store done) machine (λ t. t) [] true true (str "EU") none df
            ≡ ok (some report))
        × (has_critical_issues report ≡ false)
        × (after
            ≡ store_data tools
                (store done)
                machine
                (str "EU")
                none
                none
                (str "P")
                df
                (some report)
                ([], init_database)))
download_and_store-guarded_example =
    download_and_store-guarded tools (store done) machine (λ t. t) [] source (str "EU") none none
      ([], init_database)

abbrev january : Folder (ℕ × ℕ)
january = (str "2024-01.parquet", some ((4, 2) ∷ (4, 3) ∷ [])) ∷ []

abbrev one_file : Tree (ℕ × ℕ)
one_file = (str "EU", (str "ticks", january) ∷ []) ∷ []

compact-failed_write_example :
    let after =
      compact tools
        (store (failed none))
        machine
        (str "EU")
        none
        (str "2024-01")
        (one_file, init_database) in
    ((e : Error) × (after.1 ≡ raise e))
    × (after.0.1 ≡ init_database)
    × ((folder : Folder (ℕ × ℕ)) × (folder_at (str "EU") (str "ticks") after.0.0 ≡ some folder)
        × ((lookup (str "2024-01.parquet") folder ≡ none)
            ⊎ (lookup (str "2024-01.parquet") folder ≡ none)))
unfolding directory_of file_name lookup text_beq folder_at parquet_store read_rows parquet_format
    read_at files_to_read read_folder read_files read_file in_range frame_of
compact-failed_write_example =
    compact-failed_write tools (str "d") (λ r. r) (λ r. r) (λ r. r.0) (λ rows. rows) machine none
      (str "EU") none b'2' (str "024-01") one_file init_database january
      (record { columns = tick_columns; rows = 2; content = (4, 2) ∷ (4, 3) ∷ [] }) refl (refl, tt)
      refl refl
