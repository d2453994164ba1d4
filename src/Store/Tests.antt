-- ===== src/Store/Tests.antt =====
-- A store of rows that are a time and a price.
use haru_quant_cbot.Store.Contents.{read_rows-write_rows, read_back}
use haru_quant_cbot.Store.Separate.{write_rows-others}
use haru_quant_cbot.Timeframe.{m5, m15, h1, name, parse_timeframe}
use haru_quant_cbot.Prelude.Sort.{place, sort}
use haru_quant_cbot.Prelude.Dict.{insert, lookup}
use haru_quant_cbot.Prelude.Text.{text_eq, text_leb, ends_with, str, text_beq}
use haru_quant_cbot.Store.{tick_columns}
use haru_quant_cbot.Prelude.{refl, ok, inl, ◌≡◌, ◌/◌, ◌*◌, none, [], some, ◌∷◌, leb, List, ℕ}
use haru_quant_cbot.Validation.{has_column, Frame}
use haru_quant_cbot.Store.Parquet.{parquet_format}
use haru_quant_cbot.Store.Files.{
  frame_of, in_range, read_files, read_folder, files_to_read, read_at, path_of, read_file,
  put_folder, write_rows, file_name, glob, folder_at, read_rows, Folder, Tree, Format, done, failed,
}
use haru_quant_cbot.Store.Listing.{value_leb, timeframes_of, list_timeframes}

abbrev by_time : List (ℕ × ℕ) → List (ℕ × ℕ)
by_time rows = sort (λ (a b : ℕ × ℕ). leb a.0 b.0) rows

abbrev parquet : Format (ℕ × ℕ) (ℕ × ℕ)
parquet =
    parquet_format (str "d") (λ r. (r.0, r.1 * 1000000)) (λ d. (d.0, d.1 / 1000000)) (λ d. d.0)
      by_time

abbrev ticks : Frame (List (ℕ × ℕ))
ticks = record { columns = tick_columns; rows = 2; content = (9, 3) ∷ (4, 2) ∷ [] }

abbrev stored : Tree (ℕ × ℕ)
stored =
    (write_rows parquet done tick_columns (str "EU") (str "ticks") ticks (some (str "2024-01"))
      []).0

-- A frame in disorder is read back in order.
written_and_read :
    read_rows parquet tick_columns (str "EU") (str "ticks") none none none none stored
    ≡ ok (record { columns = tick_columns; rows = 2; content = (4, 2) ∷ (9, 3) ∷ [] })
unfolding read_rows write_rows has_column text_beq folder_at put_folder file_name path_of insert
    lookup parquet_format read_at files_to_read glob ends_with read_folder read_files read_file
    in_range frame_of sort place text_leb
written_and_read = refl

abbrev three_folders : Tree ℕ
three_folders = (str "EU", (str "M5", []) ∷ (str "M15", []) ∷ (str "H1", []) ∷ []) ∷ []

-- The timeframes come in the order of their names.
timeframes_listed : list_timeframes (str "EU") three_folders ≡ h1 ∷ m15 ∷ m5 ∷ []
unfolding list_timeframes timeframes_of value_leb lookup text_beq parse_timeframe name sort place
    text_leb
timeframes_listed = refl

read_rows-write_rows_example :
    ((write_rows parquet done tick_columns
        (str "EU")
        (str "ticks")
        ticks
        (some (str "2024-01"))
        stored).1
      ≡ ok (path_of (str "d") (str "EU") (str "ticks") (str "2024-01.parquet")))
    × (read_rows parquet tick_columns
          (str "EU")
          (str "ticks")
          none
          none
          none
          (some (str "2024-01"))
          (write_rows parquet done tick_columns
            (str "EU")
            (str "ticks")
            ticks
            (some (str "2024-01"))
            stored).0
        ≡ ok (read_back parquet tick_columns ((9, 3) ∷ (4, 2) ∷ [])))
unfolding has_column text_beq parquet_format file_name
read_rows-write_rows_example =
    read_rows-write_rows parquet refl tick_columns tick_columns (str "EU") (str "ticks") ticks
      (9, 3) ((4, 2) ∷ []) b'2' (str "024-01") stored refl refl refl

write_rows-others_example :
    (read_rows parquet tick_columns
        (str "EU")
        (str "ticks")
        none
        none
        none
        (some (str "2024-01"))
        (write_rows parquet (failed none) tick_columns (str "GB") (str "ticks") ticks none stored).0
      ≡ read_rows parquet tick_columns
          (str "EU")
          (str "ticks")
          none
          none
          none
          (some (str "2024-01"))
          stored)
unfolding text_beq
write_rows-others_example =
    (write_rows-others parquet (failed none) tick_columns (str "GB") (str "ticks") ticks none stored
        (str "EU") (str "ticks") tick_columns none none none).0
      (inl refl) (some (str "2024-01"))

abbrev january : Folder (ℕ × ℕ)
january = (str "2024-01.parquet", some ((4, 2000000) ∷ (9, 3000000) ∷ [])) ∷ []

abbrev two_rows : Tree (ℕ × ℕ)
two_rows = (str "EU", (str "ticks", january) ∷ []) ∷ []
