-- ===== src/Lineage.antt =====
-- The class `DataLineage` of src/hqt/data/versioning/lineage.py: the SQLite table `lineage` as the
-- list of its rows in row order, and each method with its SQL statement.
pub mod Recorded
pub mod Reproduce
pub mod Versions
mod Tests
use haru_quant_cbot.Prelude.{
  ℕ, suc, ◌+◌, Bool, true, false, not, Option, none, some, List, [], ◌∷◌, ◌++◌, map, length, keep,
  count_if, distinct, nat_beq, leb, Error, Result, ok, raise, key_error, ◌>>=◌, if◌then◌else◌,
  option_beq,
}
use haru_quant_cbot.Prelude.Text.{Text, text_beq, text_eq, text_leb}
use haru_quant_cbot.Prelude.Sort.{sort}
use haru_quant_cbot.Catalog.{null_leb}
use haru_quant_cbot.Hasher.{Bytes, Disk, verify_file_hash}

-- A row of the table.
pub record Row : Type 0 where
  pub id : ℕ
  pub backtest_id : ℕ
  pub data_file_path : Text
  pub data_version_hash : Text
  pub symbol : Text
  pub timeframe : Option Text
  pub partition : Option Text
  pub recorded_at : ℕ

pub record Table : Type 0 where
  pub rows : List Row
  pub next_id : ℕ

unfoldable pub init_database : Table
init_database = record { rows = []; next_id = 1 }

-- One dictionary of `data_files`; `none` is a missing key.
pub record DataFile : Type 0 where
  pub file_path : Option Text
  pub version_hash : Option Text
  pub symbol : Option Text
  pub timeframe : Option Text
  pub partition : Option Text

-- `data_file["key"]`
abbrev pub required : {A : Type 0} → Option A → Result A
required none = raise key_error
required (some a) = ok a

-- The row of one `INSERT`, or the `KeyError` of a missing key.
unfoldable pub row_of : ℕ → ℕ → ℕ → DataFile → Result Row
row_of backtest_id now id f = do
  file_path ← required f.file_path
  version_hash ← required f.version_hash
  symbol ← required f.symbol
  ok (record {
    id = id;
    backtest_id = backtest_id;
    data_file_path = file_path;
    data_version_hash = version_hash;
    symbol = symbol;
    timeframe = f.timeframe;
    partition = f.partition;
    recorded_at = now;
  })

-- The loop of `INSERT`s inside the transaction.
unfoldable pub insert_files : ℕ → ℕ → List DataFile → Table → Result Table
insert_files backtest_id now [] t = ok t
insert_files backtest_id now (f ∷ files) t = elim (row_of backtest_id now t.next_id f) [
  | ok row ↦
      insert_files backtest_id now files
        (record { rows = t.rows ++ row ∷ []; next_id = suc t.next_id })
  | raise e ↦ raise e
]

-- `record_backtest_lineage`: the table is committed, or rolled back when an exception leaves the
-- `with` block; the answer is the number of files, or the exception.
unfoldable pub record_backtest_lineage : ℕ → ℕ → List DataFile → Table → Table × Result ℕ
record_backtest_lineage backtest_id now files t = elim (insert_files backtest_id now files t) [
  | ok t' ↦ (t', ok (length files))
  | raise e ↦ (t, raise e)
]

-- `ORDER BY symbol, timeframe, partition`
unfoldable pub row_leb : Row → Row → Bool
row_leb a b =
    if text_beq a.symbol b.symbol
    then if option_beq a.timeframe b.timeframe
      then null_leb a.partition b.partition
      else null_leb a.timeframe b.timeframe
    else text_leb a.symbol b.symbol

pub record LineageInfo : Type 0 where
  pub backtest_id : ℕ
  pub data_files : List Row
  pub total_files : ℕ
  pub recorded_at : ℕ

abbrev of_backtest : ℕ → Row → Bool
of_backtest backtest_id r = nat_beq r.backtest_id backtest_id

-- From `rows = cursor.fetchall()` on.
unfoldable pub lineage_of : ℕ → List Row → Result LineageInfo
lineage_of backtest_id [] = raise key_error
lineage_of backtest_id (row ∷ rows) = ok (record {
  backtest_id = backtest_id;
  data_files = row ∷ rows;
  total_files = suc (length rows);
  recorded_at = row.recorded_at;
})

unfoldable pub get_lineage : ℕ → Table → Result LineageInfo
unfolding lineage_of
get_lineage backtest_id t =
    lineage_of backtest_id (sort row_leb (keep (of_backtest backtest_id) t.rows))

-- The texts of `issues`, by what they say.
pub data Issue : Type 0 where
  no_lineage : ℕ → Issue
  missing_file : Row → Issue
  hash_mismatch : Row → Issue
  verification_failed : Row → Error → Issue

pub record Report : Type 0 where
  pub reproducible : Bool
  pub issues : List Issue
  pub verified_files : ℕ
  pub total_files : ℕ

module _ (hexdigest : Bytes → Text) (disk : Disk) where
  -- One round of the loop of `can_reproduce`: the issue, or none if the file is verified.
  unfoldable pub check_file : Row → Option Issue
  check_file r =
      if not (disk.exists r.data_file_path)
      then some (missing_file r)
      else elim (verify_file_hash hexdigest disk r.data_file_path r.data_version_hash) [
        | ok same ↦ if not same then some (hash_mismatch r) else none
        | raise e ↦ some (verification_failed r e)
      ]

  unfoldable pub check_files : List Row → List Issue → ℕ → List Issue × ℕ
  check_files [] issues verified = (issues, verified)
  check_files (r ∷ rows) issues verified = elim (check_file r) [
    | none ↦ check_files rows issues (verified + 1)
    | some issue ↦ check_files rows (issues ++ issue ∷ []) verified
  ]

  unfoldable pub can_reproduce : ℕ → Table → Report
  can_reproduce backtest_id t = elim (get_lineage backtest_id t) [
    | raise e ↦ record {
      reproducible = false;
      issues = no_lineage backtest_id ∷ [];
      verified_files = 0;
      total_files = 0;
    }
    | ok info ↦
        let (issues, verified) = check_files info.data_files [] 0 in
        record {
          reproducible = nat_beq (length issues) 0;
          issues = issues;
          verified_files = verified;
          total_files = info.total_files;
        }
  ]

-- `SELECT DISTINCT data_version_hash ... ORDER BY data_version_hash`
unfoldable pub get_data_versions : ℕ → Table → List Text
get_data_versions backtest_id t = sort text_leb (
    distinct text_beq
      (map (λ (r : Row). r.data_version_hash) (keep (of_backtest backtest_id) t.rows)))

-- `SELECT DISTINCT backtest_id ... ORDER BY backtest_id`
unfoldable pub find_backtests_using_data : Text → Table → List ℕ
find_backtests_using_data version_hash t = sort leb (
    distinct nat_beq (
      map (λ (r : Row). r.backtest_id)
        (keep (λ r. text_beq r.data_version_hash version_hash) t.rows)))

-- `DELETE`, and `rowcount`.
unfoldable pub delete_lineage : ℕ → Table → Table × ℕ
delete_lineage backtest_id t = (
  record t { rows = keep (λ r. not (of_backtest backtest_id r)) t.rows },
  count_if (of_backtest backtest_id) t.rows,
)

pub record Stats : Type 0 where
  pub total_backtests : ℕ
  pub total_records : ℕ
  pub total_data_versions : ℕ

unfoldable pub get_stats : Table → Stats
get_stats t = record {
  total_backtests = length (distinct nat_beq (map (λ (r : Row). r.backtest_id) t.rows));
  total_records = length t.rows;
  total_data_versions = length (distinct text_beq (map (λ (r : Row). r.data_version_hash) t.rows));
}
