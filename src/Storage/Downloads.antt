-- ===== src/Storage/Downloads.antt =====
-- `download_and_store` and `compact` of the class `StorageManager` of src/hqt/data/storage/manager.py,
-- over a store, a catalog and a pipeline. The provider's answers, the conversion of times to dates,
-- the bytes of the hashed columns and SHA-256 are parameters.
use haru_quant_cbot.Prelude.Sort.{sort}
use haru_quant_cbot.Timeframe.{Timeframe}
use haru_quant_cbot.Prelude.Text.{text_leb, text_beq, str, ends_with, Text}
use haru_quant_cbot.Prelude.{
  true, false, coded, map, ◌&&◌, ◌++◌, ◌>>=◌, none, min, nat_beq, [], max, keep, ok, raise, some,
  ◌∷◌, length, if◌then◌else◌, Bool, distinct, List, ℕ, Option, Result,
}
use haru_quant_cbot.Store.{DataStore}
use haru_quant_cbot.Catalog.{Table, register_file, Registration, Machine}
use haru_quant_cbot.Partition.{get_partition, Moment}
use haru_quant_cbot.Validation.{
  Frame, Validator, ValidationReport, validate_bars, validate_ticks, has_critical_issues,
  has_column,
}
use haru_quant_cbot.Hasher.{Bytes}

-- What is used of a `DataProvider`: its answer to the fetch, and its name.
pub record Provider (R : Type 0) : Type 0 where
  pub fetched : Result (Frame (List R))
  pub provider_name : Text

-- Rows, dates and hashes.
pub record Tools (R : Type 0) : Type 0 where
  pub timestamp : R → ℕ
  pub date_of : ℕ → Moment
  pub sort_rows : List R → List R
  pub close_bytes : List R → Bytes
  pub ask_bytes : List R → Bytes
  pub time_bytes : List R → Bytes
  pub sha256 : Bytes → Text

pub record Downloaded : Type 0 where
  pub partitions : List Text
  pub total_rows : ℕ
  pub validation_report : Option ValidationReport
  pub version_hash : Option Text

pub record Compacted : Type 0 where
  pub rows_before : ℕ
  pub rows_after : ℕ
  pub files_merged : ℕ
  pub new_file_path : Text

module _ {R : Type 0} (tools : Tools R) where
  -- The rows of a frame, and how many they are.
  abbrev pub with_rows : Frame (List R) → List R → Frame (List R)
  with_rows df rows = record df { rows = length rows; content = rows }

  unfoldable pub partition_of : Option Timeframe → R → Text
  unfolding get_partition
  partition_of timeframe row = get_partition timeframe (tools.date_of (tools.timestamp row))

  -- The groups of `groupby`, for keys in order.
  unfoldable pub groups :
      Option Timeframe → Frame (List R) → List Text → List (Text × Frame (List R))
  unfolding partition_of
  groups timeframe df [] = []
  groups timeframe df (p ∷ keys) =
      (p, with_rows df (keep (λ row. text_beq (partition_of timeframe row) p) df.content))
      ∷ groups timeframe df keys

  unfoldable pub partition_keys : Option Timeframe → List R → List Text
  unfolding partition_of
  partition_keys timeframe rows =
      sort text_leb (distinct text_beq (map (partition_of timeframe) rows))

  -- `_partition_data`
  unfoldable pub partition_data : Option Timeframe → Frame (List R) → List (Text × Frame (List R))
  unfolding groups partition_keys
  partition_data timeframe df = groups timeframe df (partition_keys timeframe df.content)

  -- `_compute_hash`
  unfoldable pub compute_hash : Frame (List R) → Text
  unfolding has_column
  compute_hash df = tools.sha256 (
      if has_column df (str "close")
      then tools.close_bytes df.content
      else if has_column df (str "ask")
      then tools.ask_bytes df.content
      else tools.time_bytes df.content)

  -- `data["timestamp"].min()` and `.max()`, of rows that are there.
  unfoldable pub min_timestamp : List R → ℕ
  min_timestamp [] = 0
  min_timestamp (row ∷ []) = tools.timestamp row
  min_timestamp (row ∷ next ∷ rows) = min (tools.timestamp row) (min_timestamp (next ∷ rows))

  unfoldable pub max_timestamp : List R → ℕ
  max_timestamp [] = 0
  max_timestamp (row ∷ rows) = max (tools.timestamp row) (max_timestamp rows)

  -- The arguments of `register_file` for a file that was written.
  unfoldable pub registration :
      Text → Option Timeframe → Text → Text → Frame (List R) → Option Text → Registration
  unfolding ends_with min_timestamp max_timestamp compute_hash
  registration symbol timeframe partition path df source = record {
    symbol = symbol;
    timeframe = timeframe;
    partition = partition;
    file_path = path;
    storage_format = if ends_with path (str ".parquet") then str "parquet" else str "hdf5";
    row_count = df.rows;
    min_timestamp = min_timestamp df.content;
    max_timestamp = max_timestamp df.content;
    data_source = source;
    version_hash = some (compute_hash df);
    file_size_bytes = none;
  }

  module _ {S : Type 0} (store : DataStore S R) (m : Machine) where
    abbrev pub write_to : Option Timeframe → Text → Frame (List R) → Text → S → S × Result Text
    write_to none symbol df partition s = store.write_ticks symbol df (some partition) s
    write_to (some timeframe) symbol df partition s =
        store.write_bars symbol timeframe df (some partition) s

    abbrev pub read_from : Option Timeframe → Text → Text → S → Result (Frame (List R))
    read_from none symbol partition s = store.read_ticks symbol none none none (some partition) s
    read_from (some timeframe) symbol partition s =
        store.read_bars symbol timeframe none none none (some partition) s

    -- The loop over the partitions, with those that are stored and the hash of the last one.
    unfoldable pub store_partitions :
        Text
        → Option Timeframe
        → Option Text
        → List (Text × Frame (List R))
        → List Text
        → Option Text
        → S × Table
        → (S × Table) × Result (List Text × Option Text)
    unfolding registration
    store_partitions symbol timeframe source [] stored_partitions version_hash (s, t) =
        ((s, t), ok (stored_partitions, version_hash))
    store_partitions symbol timeframe source ((p, df) ∷ parts) stored_partitions version_hash
          (s, t) =
        let (s', answer) = write_to timeframe symbol df p s in
        elim answer [
          | raise e ↦ ((s', t), raise e)
          | ok path ↦
              store_partitions symbol timeframe source parts (stored_partitions ++ p ∷ [])
                (some (compute_hash df))
                (s', (register_file m (registration symbol timeframe p path df source) t).0)
        ]

    -- `data_source if data_source else provider.get_provider_name()`
    abbrev pub source_or : Option Text → Text → Text
    source_or none name = name
    source_or (some []) name = name
    source_or (some (c ∷ cs)) name = c ∷ cs

    -- `version_hash if len(stored_partitions) == 1 else None`
    abbrev pub single_hash : List Text → Option Text → Option Text
    single_hash (p ∷ []) hash = hash
    single_hash parts hash = none

    abbrev pub downloaded :
        ℕ → Option ValidationReport → Result (List Text × Option Text) → Result Downloaded
    downloaded total report (raise e) = raise e
    downloaded total report (ok (parts, hash)) = ok (record {
      partitions = parts;
      total_rows = total;
      validation_report = report;
      version_hash = single_hash parts hash;
    })

    -- The part after the validation.
    unfoldable pub store_data :
        Text
        → Option Timeframe
        → Option Text
        → Text
        → Frame (List R)
        → Option ValidationReport
        → S × Table
        → (S × Table) × Result Downloaded
    unfolding store_partitions partition_data
    store_data symbol timeframe source name df report state =
        let (state', answer) =
          store_partitions symbol timeframe (some (source_or source name))
            (partition_data timeframe df) [] none state in
        (state', downloaded df.rows report answer)

    -- The validation of what was fetched: no report, the report, or its exception.
    unfoldable pub validated :
        (Text → Text)
        → List (Validator (List R))
        → Bool
        → Bool
        → Text
        → Option Timeframe
        → Frame (List R)
        → Result (Option ValidationReport)
    unfolding validate_bars validate_ticks has_critical_issues
    validated lower validators false critical_only symbol timeframe df = ok none
    validated lower validators true critical_only symbol timeframe df = do
      report ← elim timeframe [
        | none ↦ validate_ticks lower validators df symbol
        | some tf ↦ validate_bars lower validators df symbol
      ]
      if has_critical_issues report && critical_only then raise (coded 40) else ok (some report)

    -- What is done with the answer of the provider.
    unfoldable pub download_and_store :
        (Text → Text)
        → List (Validator (List R))
        → Provider R
        → Text
        → Option Timeframe
        → Bool
        → Bool
        → Option Text
        → S × Table
        → (S × Table) × Result Downloaded
    unfolding validated store_data
    download_and_store lower validators provider symbol timeframe validate critical_only source
          state =
        elim provider.fetched [
          | raise e ↦ (state, raise e)
          | ok df ↦
              if nat_beq df.rows 0
              then (
                state,
                ok (record {
                  partitions = [];
                  total_rows = 0;
                  validation_report = none;
                  version_hash = none;
                }),
              )
              else elim (validated lower validators validate critical_only symbol timeframe df) [
                | raise e ↦ (state, raise e)
                | ok report ↦
                    store_data symbol timeframe source provider.provider_name df report state
              ]
        ]

    -- `drop_duplicates(subset=["timestamp"], keep="last")` and the sort.
    unfoldable pub compacted_rows : Frame (List R) → Frame (List R)
    compacted_rows df = with_rows df (
        tools.sort_rows
          (distinct (λ a b. nat_beq (tools.timestamp a) (tools.timestamp b)) df.content))

    -- After the write of the compacted data.
    abbrev pub after_compact :
        Text
        → Option Timeframe
        → Text
        → Frame (List R)
        → Frame (List R)
        → ℕ
        → S × Result Text
        → Table
        → (S × Table) × Result Compacted
    after_compact symbol timeframe partition before after deleted (s, raise e) t = ((s, t), raise e)
    after_compact symbol timeframe partition before after deleted (s, ok path) t = (
      (s, (register_file m (registration symbol timeframe partition path after none) t).0),
      ok (record {
        rows_before = before.rows;
        rows_after = after.rows;
        files_merged = deleted;
        new_file_path = path;
      }),
    )

    abbrev pub compact_data :
        Text
        → Option Timeframe
        → Text
        → Result (Frame (List R))
        → S × Table
        → (S × Table) × Result Compacted
    compact_data symbol timeframe partition (raise e) state = (state, raise e)
    compact_data symbol timeframe partition (ok df) (s, t) =
        let after = compacted_rows df in
        let (s', deleted) = store.delete_data symbol timeframe (some partition) s in
        after_compact symbol timeframe partition df after deleted
          (write_to timeframe symbol after partition s') t

    unfoldable pub compact :
        Text → Option Timeframe → Text → S × Table → (S × Table) × Result Compacted
    compact symbol timeframe partition state =
        compact_data symbol timeframe partition (read_from timeframe symbol partition state.0) state
