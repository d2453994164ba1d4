-- ===== src/Catalog.antt =====
-- The class `DataCatalog` of src/hqt/data/storage/catalog.py: the SQLite table `catalog` as the list
-- of its rows in row order, and each method with its SQL statement. Timestamps and counts are
-- natural numbers; the path, size and clock of the machine are arguments.
pub mod Query
pub mod Invariant
pub mod Register
pub mod Removal
mod Tests
use haru_quant_cbot.Prelude.{
  ℕ, suc, ◌+◌, Bool, true, false, not, ◌&&◌, ◌||◌, Option, none, some, List, [], ◌∷◌, ◌++◌, map,
  length, keep, count_if, nat_beq, ltb, leb, Result, ok, raise, key_error, ◌>>=◌, if◌then◌else◌,
  option_eq, option_beq,
}
use haru_quant_cbot.Prelude.Text.{Text, text_beq, text_eq, text_leb}
use haru_quant_cbot.Prelude.Sort.{sort}
use haru_quant_cbot.Timeframe.{Timeframe, name, parse_timeframe}

-- A row of the table.
pub record Entry : Type 0 where
  pub id : ℕ
  pub symbol : Text
  pub timeframe : Option Text
  pub partition : Text
  pub file_path : Text
  pub storage_format : Text
  pub row_count : ℕ
  pub min_timestamp : ℕ
  pub max_timestamp : ℕ
  pub data_source : Option Text
  pub download_timestamp : ℕ
  pub version_hash : Option Text
  pub file_size_bytes : Option ℕ
  pub created_at : ℕ
  pub updated_at : ℕ

-- The table; `next_id` is what AUTOINCREMENT gives out next.
pub record Table : Type 0 where
  pub rows : List Entry
  pub next_id : ℕ

-- `_init_database` on a new file.
unfoldable pub init_database : Table
init_database = record { rows = []; next_id = 1 }

-- The arguments of `register_file`.
pub record Registration : Type 0 where
  pub symbol : Text
  pub timeframe : Option Timeframe
  pub partition : Text
  pub file_path : Text
  pub storage_format : Text
  pub row_count : ℕ
  pub min_timestamp : ℕ
  pub max_timestamp : ℕ
  pub data_source : Option Text
  pub version_hash : Option Text
  pub file_size_bytes : Option ℕ

-- `timeframe.name if timeframe else None`
abbrev pub timeframe_str : Option Timeframe → Option Text
timeframe_str none = none
timeframe_str (some t) = some (name t)

-- `SELECT ... WHERE file_path = ?`, with `fetchone`.
unfoldable pub find_path : Text → List Entry → Option Entry
find_path path [] = none
find_path path (r ∷ rows) = if text_beq r.file_path path then some r else find_path path rows

-- What the machine answers: absolute paths, sizes of the files that exist, the time in seconds.
pub record Machine : Type 0 where
  pub absolute : Text → Text
  pub size_of : Text → Option ℕ
  pub now : ℕ

-- The row after `UPDATE ... SET`: the path, the creation and the download time stay.
abbrev pub refreshed : Registration → Option ℕ → ℕ → Entry → Entry
refreshed a size now r = record r {
  symbol = a.symbol;
  timeframe = timeframe_str a.timeframe;
  partition = a.partition;
  storage_format = a.storage_format;
  row_count = a.row_count;
  min_timestamp = a.min_timestamp;
  max_timestamp = a.max_timestamp;
  data_source = a.data_source;
  version_hash = a.version_hash;
  file_size_bytes = size;
  updated_at = now;
}

-- The row of `INSERT`.
abbrev pub created : Registration → Option ℕ → ℕ → ℕ → Text → Entry
created a size now id path = record {
  id = id;
  symbol = a.symbol;
  timeframe = timeframe_str a.timeframe;
  partition = a.partition;
  file_path = path;
  storage_format = a.storage_format;
  row_count = a.row_count;
  min_timestamp = a.min_timestamp;
  max_timestamp = a.max_timestamp;
  data_source = a.data_source;
  download_timestamp = now;
  version_hash = a.version_hash;
  file_size_bytes = size;
  created_at = now;
  updated_at = now;
}

-- `UPDATE ... WHERE id = ?`
unfoldable pub update_id : (Entry → Entry) → ℕ → List Entry → List Entry
update_id f id [] = []
update_id f id (r ∷ rows) = (if nat_beq r.id id then f r else r) ∷ update_id f id rows

-- The size that is stored: the argument, or that of the file if it exists.
abbrev pub stored_size : Machine → Text → Option ℕ → Option ℕ
stored_size m path none = m.size_of path
stored_size m path (some n) = some n

-- `register_file`: the new table, and the row's id.
unfoldable pub register_file : Machine → Registration → Table → Table × ℕ
register_file m a t =
    let path = m.absolute a.file_path in
    let size = stored_size m path a.file_size_bytes in
    elim (find_path path t.rows) [
      | some old ↦ (record t { rows = update_id (refreshed a size m.now) old.id t.rows }, old.id)
      | none ↦ (
        record {
          rows = t.rows ++ created a size m.now t.next_id path ∷ [];
          next_id = suc t.next_id;
        },
        t.next_id,
      )
    ]

-- The optional arguments of `query_available`, with `start` and `end` in microseconds.
pub record Filter : Type 0 where
  pub symbol : Option Text
  pub timeframe : Option Timeframe
  pub start : Option ℕ
  pub stop : Option ℕ
  pub storage_format : Option Text

-- `if text: ... AND column = ?`, where no text and the empty text set no condition.
abbrev pub text_condition : Option Text → Text → Bool
text_condition none column = true
text_condition (some []) column = true
text_condition (some (c ∷ text)) column = text_beq column (c ∷ text)

-- `timeframe = ?`, which no row with NULL meets.
abbrev pub timeframe_condition : Option Timeframe → Option Text → Bool
timeframe_condition none column = true
timeframe_condition (some t) column = option_beq column (some (name t))

abbrev pub start_condition : Option ℕ → ℕ → Bool
start_condition none max_timestamp = true
start_condition (some start) max_timestamp = leb start max_timestamp

abbrev pub stop_condition : Option ℕ → ℕ → Bool
stop_condition none min_timestamp = true
stop_condition (some stop) min_timestamp = ltb min_timestamp stop

unfoldable pub selects : Filter → Entry → Bool
selects f r =
    text_condition f.symbol r.symbol
    && timeframe_condition f.timeframe r.timeframe
    && start_condition f.start r.max_timestamp
    && stop_condition f.stop r.min_timestamp
    && text_condition f.storage_format r.storage_format

-- NULL comes first.
unfoldable pub null_leb : Option Text → Option Text → Bool
null_leb none b = true
null_leb (some a) none = false
null_leb (some a) (some b) = text_leb a b

-- `ORDER BY symbol, timeframe, partition`
unfoldable pub entry_leb : Entry → Entry → Bool
entry_leb a b =
    if text_beq a.symbol b.symbol
    then if option_beq a.timeframe b.timeframe
      then text_leb a.partition b.partition
      else null_leb a.timeframe b.timeframe
    else text_leb a.symbol b.symbol

unfoldable pub query_available : Filter → Table → List Entry
query_available f t = sort entry_leb (keep (selects f) t.rows)

-- `symbol = ? AND timeframe IS ? AND partition = ?`
unfoldable pub is_at : Text → Option Timeframe → Text → Entry → Bool
is_at symbol timeframe partition r =
    text_beq r.symbol symbol
    && option_beq r.timeframe (timeframe_str timeframe)
    && text_beq r.partition partition

unfoldable pub first_of_rows : (Entry → Bool) → List Entry → Option Entry
first_of_rows p [] = none
first_of_rows p (r ∷ rows) = if p r then some r else first_of_rows p rows

unfoldable pub get_metadata : Text → Option Timeframe → Text → Table → Result Entry
get_metadata symbol timeframe partition t =
    elim (first_of_rows (is_at symbol timeframe partition) t.rows) [
      | none ↦ raise key_error
      | some r ↦ ok r
    ]

unfoldable pub get_file_path : Text → Option Timeframe → Text → Table → Result Text
unfolding get_metadata
get_file_path symbol timeframe partition t = do
  metadata ← get_metadata symbol timeframe partition t
  ok metadata.file_path

-- `DELETE`: the new table, and `rowcount > 0`.
unfoldable pub delete_entry : Text → Option Timeframe → Text → Table → Table × Bool
delete_entry symbol timeframe partition t = (
  record t { rows = keep (λ r. not (is_at symbol timeframe partition r)) t.rows },
  ltb 0 (count_if (is_at symbol timeframe partition) t.rows),
)

-- `SELECT partition ... WHERE symbol = ? AND timeframe IS ? ORDER BY partition`
unfoldable pub list_partitions : Text → Option Timeframe → Table → List Text
list_partitions symbol timeframe t = sort text_leb (
    map (λ (r : Entry). r.partition)
      (keep (λ r. text_beq r.symbol symbol && option_beq r.timeframe (timeframe_str timeframe))
        t.rows))
