-- ===== src/Store.antt =====
-- The abstract class `DataStore` of src/hqt/data/storage/base.py, over a state type and a type of rows.
-- A datetime of a range is its microsecond since the epoch.
pub mod Files
pub mod Listing
pub mod Parquet
pub mod Hdf5
pub mod Contents
pub mod Separate
pub mod Ranges
pub mod Deleting
mod Tests
use haru_quant_cbot.Prelude.{none, [], some, ◌∷◌, Result, ℕ, Option, List}
use haru_quant_cbot.Prelude.Text.{str, Text}
use haru_quant_cbot.Validation.{Frame}
use haru_quant_cbot.Timeframe.{Timeframe, name}

-- `get_file_info`: the path, the number of rows and the range of the times.
pub record FileInfo : Type 0 where
  pub path : Text
  pub row_count : ℕ
  pub date_range : Option (ℕ × ℕ)

pub record DataStore (S R : Type 0) : Type 0 where
  pub write_bars : Text → Timeframe → Frame (List R) → Option Text → S → S × Result Text
  pub write_ticks : Text → Frame (List R) → Option Text → S → S × Result Text
  pub read_bars :
      Text
      → Timeframe
      → Option ℕ
      → Option ℕ
      → Option (List Text)
      → Option Text
      → S
      → Result (Frame (List R))
  pub read_ticks :
      Text → Option ℕ → Option ℕ → Option (List Text) → Option Text → S → Result (Frame (List R))
  pub list_symbols : S → List Text
  pub list_timeframes : Text → S → List Timeframe
  pub list_partitions : Text → Option Timeframe → S → List Text
  pub delete_data : Text → Option Timeframe → Option Text → S → S × ℕ
  pub get_file_info : Text → Option Timeframe → Option Text → S → Result FileInfo

-- `timeframe.name`, or "ticks": the name of the directory.
unfoldable pub directory_of : Option Timeframe → Text
directory_of none = str "ticks"
directory_of (some timeframe) = name timeframe

abbrev pub bar_columns : List Text
bar_columns =
    str "timestamp"
    ∷ str "open"
    ∷ str "high"
    ∷ str "low"
    ∷ str "close"
    ∷ str "tick_volume"
    ∷ str "real_volume"
    ∷ str "spread"
    ∷ []

abbrev pub tick_columns : List Text
tick_columns = str "timestamp" ∷ str "bid" ∷ str "ask" ∷ str "bid_volume" ∷ str "ask_volume" ∷ []
