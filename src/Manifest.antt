-- ===== src/Manifest.antt =====
-- The class `DataManifest` of src/hqt/data/versioning/manifest.py. The manifest files of the disk are
-- a dict from paths to documents, all of them documents that this class writes: every key is there,
-- and JSON gives back what it was given.
pub mod Verification
pub mod Difference
mod Maps
mod Update
mod Compare
mod Check
mod Tests
use haru_quant_cbot.Prelude.{
  Result, ok, raise, file_not_found, ℕ, ◌+◌, Bool, not, Option, none, some, List, [], ◌∷◌, ◌++◌,
  map, length, any_of, if◌then◌else◌, option_eq, option_beq, pair_eq, HasEq,
}
use haru_quant_cbot.Prelude.Text.{Text, text_eq}
use haru_quant_cbot.Prelude.Dict.{Dict, lookup, insert}
use haru_quant_cbot.Catalog.{Entry, Table, Filter, query_available}

-- `file_info`, an element of the list `files`.
pub record FileInfo : Type 0 where
  pub symbol : Text
  pub timeframe : Option Text
  pub partition : Text
  pub file_path : Text
  pub version_hash : Option Text
  pub row_count : ℕ
  pub min_timestamp : ℕ
  pub max_timestamp : ℕ
  pub file_size_bytes : Option ℕ
  pub data_source : Option Text

pub record Manifest : Type 0 where
  pub generated_at : ℕ
  pub hqt_version : Text
  pub total_files : ℕ
  pub total_size_bytes : ℕ
  pub files : List FileInfo

-- The manifests on the disk by their paths.
abbrev pub Folder : Type 0
Folder = Dict Text Manifest

abbrev pub file_info : Entry → FileInfo
file_info entry = record {
  symbol = entry.symbol;
  timeframe = entry.timeframe;
  partition = entry.partition;
  file_path = entry.file_path;
  version_hash = entry.version_hash;
  row_count = entry.row_count;
  min_timestamp = entry.min_timestamp;
  max_timestamp = entry.max_timestamp;
  file_size_bytes = entry.file_size_bytes;
  data_source = entry.data_source;
}

-- `size if size else 0`
abbrev pub size_or_zero : Option ℕ → ℕ
size_or_zero none = 0
size_or_zero (some size) = size

-- The loop that sums the sizes.
unfoldable pub total_size : List Entry → ℕ → ℕ
total_size [] total = total
total_size (entry ∷ entries) total = total_size entries (total + size_or_zero entry.file_size_bytes)

-- `self.catalog.query_available()`
abbrev pub every_entry : Filter
every_entry = record {
  symbol = none;
  timeframe = none;
  start = none;
  stop = none;
  storage_format = none;
}

unfoldable pub catalog_entries : Table → List Entry
catalog_entries t = query_available every_entry t

pub record Summary : Type 0 where
  pub manifest_path : Text
  pub total_files : ℕ
  pub total_size_bytes : ℕ

-- The document that `generate` writes.
unfoldable pub generated_manifest : Table → ℕ → Text → Manifest
unfolding catalog_entries total_size
generated_manifest catalog now hqt_version =
    let files = map file_info (catalog_entries catalog) in
    record {
      generated_at = now;
      hqt_version = hqt_version;
      total_files = length files;
      total_size_bytes = total_size (catalog_entries catalog) 0;
      files = files;
    }

unfoldable pub generate : Table → ℕ → Text → Text → Folder → Folder × Summary
unfolding generated_manifest
generate catalog now output_path hqt_version folder =
    let manifest = generated_manifest catalog now hqt_version in
    (
      insert output_path manifest folder,
      record {
        manifest_path = output_path;
        total_files = manifest.total_files;
        total_size_bytes = manifest.total_size_bytes;
      },
    )

-- The key of the file maps.
abbrev pub Key : Type 0
Key = Text × (Option Text × Text)

abbrev pub key : FileInfo → Key
key f = (f.symbol, (f.timeframe, f.partition))

instance abbrev pub key_eq : HasEq Key
key_eq = pair_eq {A = Text} {B = Option Text × Text}

unfoldable pub same_key : Key → Key → Bool
same_key j k = key_eq.beq j k

-- `{key: f for f in files}`, from a dict on: a later file takes the place of an earlier one.
unfoldable pub file_map_from : Dict Key FileInfo → List FileInfo → Dict Key FileInfo
file_map_from d [] = d
file_map_from d (f ∷ files) = file_map_from (insert (key f) f d) files

unfoldable pub file_map : List FileInfo → Dict Key FileInfo
unfolding file_map_from
file_map files = file_map_from [] files

-- `existing_files`
unfoldable pub existing_files : Text → Folder → Dict Key FileInfo
unfolding file_map
existing_files manifest_path folder = elim (lookup manifest_path folder) [
  | none ↦ []
  | some manifest ↦ file_map manifest.files
]

-- The counters `added` and `updated` after the loop over the catalog.
unfoldable pub count_changes : Dict Key FileInfo → List Entry → ℕ → ℕ → ℕ × ℕ
count_changes old [] added updated = (added, updated)
count_changes old (entry ∷ entries) added updated = elim (lookup (key (file_info entry)) old) [
  | none ↦ count_changes old entries (added + 1) updated
  | some f ↦
      let changed = not (option_beq f.version_hash entry.version_hash) in
      count_changes old entries added (updated + (if changed then 1 else 0))
]

-- The loop that appends the files that the catalog does not have any more.
unfoldable pub preserve : List FileInfo → Dict Key FileInfo → List FileInfo
preserve files [] = files
preserve files ((k, f) ∷ old) =
    preserve (if any_of (λ g. same_key (key g) k) files then files else files ++ f ∷ []) old

pub record Changes : Type 0 where
  pub added : ℕ
  pub updated : ℕ
  pub total_files : ℕ

-- The document that `update` writes.
unfoldable pub updated_manifest : Table → ℕ → Text → Dict Key FileInfo → Manifest
unfolding preserve catalog_entries total_size
updated_manifest catalog now hqt_version old =
    let entries = catalog_entries catalog in
    let files = preserve (map file_info entries) old in
    record {
      generated_at = now;
      hqt_version = hqt_version;
      total_files = length files;
      total_size_bytes = total_size entries 0;
      files = files;
    }

-- `has_directory` tells whether the directory of the path is there; `open` raises where it is not.
unfoldable pub update : Bool → Table → ℕ → Text → Text → Folder → Folder × Result Changes
unfolding existing_files count_changes catalog_entries updated_manifest
update has_directory catalog now manifest_path hqt_version folder =
    let old = existing_files manifest_path folder in
    let manifest = updated_manifest catalog now hqt_version old in
    let (added, updated) = count_changes old (catalog_entries catalog) 0 0 in
    if has_directory
    then (
      insert manifest_path manifest folder,
      ok (record { added = added; updated = updated; total_files = length manifest.files }),
    )
    else (folder, raise file_not_found)
