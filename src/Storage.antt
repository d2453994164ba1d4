-- ===== src/Storage.antt =====
-- `delete` of the class `StorageManager` of src/hqt/data/storage/manager.py, over the catalog. What
-- the store answers to `delete_data` is an argument.
mod Deletion
mod Tests
pub mod Downloads
pub mod Grouped
pub mod Compaction
mod DownloadTests
use haru_quant_cbot.Catalog.{list_partitions, delete_entry, Table}
use haru_quant_cbot.Timeframe.{Timeframe}
use haru_quant_cbot.Prelude.{
  [], if◌then◌else◌, none, ◌+◌, ok, raise, some, ◌∷◌, List, Option, Result, ℕ,
}
use haru_quant_cbot.Prelude.Text.{Text}

pub record Deleted : Type 0 where
  pub files_deleted : ℕ
  pub entries_deleted : ℕ

-- The loop over the partitions, with the counter.
unfoldable pub delete_partitions : Text → Option Timeframe → List Text → Table → ℕ → Table × ℕ
delete_partitions symbol timeframe [] t entries_deleted = (t, entries_deleted)
delete_partitions symbol timeframe (p ∷ partitions) t entries_deleted =
    let (t', deleted) = delete_entry symbol timeframe p t in
    delete_partitions symbol timeframe partitions t' (entries_deleted + (if deleted then 1 else 0))

-- What is deleted from the catalog: `if partition` is false for the empty text too.
unfoldable pub delete_entries : Text → Option Timeframe → Option Text → Table → Table × ℕ
unfolding delete_partitions
delete_entries symbol timeframe (some (c ∷ cs)) t =
    ((delete_entry symbol timeframe (c ∷ cs) t).0, 1)
delete_entries symbol timeframe (some []) t =
    delete_partitions symbol timeframe (list_partitions symbol timeframe t) t 0
delete_entries symbol timeframe none t =
    delete_partitions symbol timeframe (list_partitions symbol timeframe t) t 0

-- `delete`, after the answer of the store.
unfoldable pub delete :
    Result ℕ → Text → Option Timeframe → Option Text → Table → Table × Result Deleted
unfolding delete_entries
delete (raise e) symbol timeframe partition t = (t, raise e)
delete (ok files_deleted) symbol timeframe partition t =
    let (t', entries_deleted) = delete_entries symbol timeframe partition t in
    (t', ok (record { files_deleted = files_deleted; entries_deleted = entries_deleted }))
