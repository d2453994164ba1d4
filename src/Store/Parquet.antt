-- ===== src/Store/Parquet.antt =====
-- `ParquetStore` of src/hqt/data/storage/parquet_store.py.
use haru_quant_cbot.Timeframe.{name}
use haru_quant_cbot.Prelude.{[], min, max, some, ◌∷◌, none, take, Option, List, ℕ}
use haru_quant_cbot.Prelude.Text.{str, Text}
use haru_quant_cbot.Store.{DataStore, bar_columns, tick_columns}
use haru_quant_cbot.Store.Files.{Format, Tree, Written, write_rows, read_rows}
use haru_quant_cbot.Store.Listing.{
  list_symbols, list_timeframes, list_partitions, delete_data, file_info,
}

-- The statistics of the first row group, whose size is that of pyarrow; a group without statistics is
-- left out.
unfoldable pub row_group : ℕ
row_group = 1048576

module _ {R D : Type 0} (base_path : Text) (to_fixed : R → D) (to_float : D → R) (timestamp : D → ℕ)
    (sort_rows : List D → List D) where
  unfoldable pub parquet_format : Format R D
  parquet_format = record {
    base_path = base_path;
    suffix = str ".parquet";
    write_error = 30;
    read_error = 31;
    to_fixed = to_fixed;
    to_float = to_float;
    timestamp = timestamp;
    sort_rows = sort_rows;
    selected = λ columns. columns;
  }

  abbrev pub least : List D → Option ℕ
  least [] = none
  least (row ∷ []) = some (timestamp row)
  least (row ∷ next ∷ rows) = elim (least (next ∷ rows)) [
    | none ↦ some (timestamp row)
    | some t ↦ some (min (timestamp row) t)
  ]

  abbrev pub greatest : List D → Option ℕ
  greatest [] = none
  greatest (row ∷ []) = some (timestamp row)
  greatest (row ∷ next ∷ rows) = elim (greatest (next ∷ rows)) [
    | none ↦ some (timestamp row)
    | some t ↦ some (max (timestamp row) t)
  ]

  -- The store, where `written` tells what becomes of a write.
  unfoldable pub parquet_store : Written D → DataStore (Tree D) R
  unfolding parquet_format write_rows read_rows list_symbols list_timeframes list_partitions
      delete_data file_info row_group
  parquet_store written = record {
    write_bars = λ symbol timeframe df partition tree.
        write_rows parquet_format written bar_columns symbol (name timeframe) df partition tree;
    write_ticks = λ symbol df partition tree.
        write_rows parquet_format written tick_columns symbol (str "ticks") df partition tree;
    read_bars = λ symbol timeframe start stop columns partition tree.
        read_rows parquet_format bar_columns symbol (name timeframe) start stop columns partition
          tree;
    read_ticks = λ symbol start stop columns partition tree.
        read_rows parquet_format tick_columns symbol (str "ticks") start stop columns partition
          tree;
    list_symbols = list_symbols;
    list_timeframes = list_timeframes;
    list_partitions = list_partitions parquet_format;
    delete_data = delete_data parquet_format;
    get_file_info =
        file_info parquet_format (λ rows. least (take row_group rows))
          (λ rows. greatest (take row_group rows));
  }
