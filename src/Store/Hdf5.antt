-- ===== src/Store/Hdf5.antt =====
-- `HDF5Store` of src/hqt/data/storage/hdf5_store.py.
use haru_quant_cbot.Timeframe.{name}
use haru_quant_cbot.Prelude.{[], ◌∷◌, some, none, ℕ, List, Option}
use haru_quant_cbot.Prelude.Text.{str, Text}
use haru_quant_cbot.Store.{DataStore, bar_columns, tick_columns}
use haru_quant_cbot.Store.Files.{Format, Tree, Written, write_rows, read_rows}
use haru_quant_cbot.Store.Listing.{
  list_symbols, list_timeframes, list_partitions, delete_data, file_info,
}

-- `if columns`: no columns are all of them.
abbrev pub chosen : Option (List Text) → Option (List Text)
chosen none = none
chosen (some []) = none
chosen (some (c ∷ columns)) = some (c ∷ columns)

module _ {R D : Type 0} (base_path : Text) (to_fixed : R → D) (to_float : D → R) (timestamp : D → ℕ)
    (sort_rows : List D → List D) where
  unfoldable pub hdf5_format : Format R D
  hdf5_format = record {
    base_path = base_path;
    suffix = str ".h5";
    write_error = 32;
    read_error = 33;
    to_fixed = to_fixed;
    to_float = to_float;
    timestamp = timestamp;
    sort_rows = sort_rows;
    selected = chosen;
  }

  -- `int(timestamps[0])` and `int(timestamps[-1])`
  abbrev pub first_row : List D → Option ℕ
  first_row [] = none
  first_row (row ∷ rows) = some (timestamp row)

  abbrev pub last_row : List D → Option ℕ
  last_row [] = none
  last_row (row ∷ []) = some (timestamp row)
  last_row (row ∷ next ∷ rows) = last_row (next ∷ rows)

  unfoldable pub hdf5_store : Written D → DataStore (Tree D) R
  unfolding hdf5_format write_rows read_rows list_symbols list_timeframes list_partitions
      delete_data file_info
  hdf5_store written = record {
    write_bars = λ symbol timeframe df partition tree.
        write_rows hdf5_format written bar_columns symbol (name timeframe) df partition tree;
    write_ticks = λ symbol df partition tree.
        write_rows hdf5_format written tick_columns symbol (str "ticks") df partition tree;
    read_bars = λ symbol timeframe start stop columns partition tree.
        read_rows hdf5_format bar_columns symbol (name timeframe) start stop columns partition tree;
    read_ticks = λ symbol start stop columns partition tree.
        read_rows hdf5_format tick_columns symbol (str "ticks") start stop columns partition tree;
    list_symbols = list_symbols;
    list_timeframes = list_timeframes;
    list_partitions = list_partitions hdf5_format;
    delete_data = delete_data hdf5_format;
    get_file_info = file_info hdf5_format first_row last_row;
  }
