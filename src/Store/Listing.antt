-- ===== src/Store/Listing.antt =====
-- The lists, the deletion and the file information of the stores of src/hqt/data/storage.
use haru_quant_cbot.Prelude.Sort.{sort}
use haru_quant_cbot.Prelude.Dict.{Dict, insert, contains, erase, lookup}
use haru_quant_cbot.Store.{FileInfo, directory_of}
use haru_quant_cbot.Prelude.Text.{text_eq, str, text_leb, Text, text_beq, starts_with}
use haru_quant_cbot.Prelude.{
  other_error, file_not_found, raise, ◌&&◌, map, none, ok, ◌||◌, ltb, not, ◌-◌, keep, nat_beq, [],
  some, Result, length, if◌then◌else◌, Bool, ℕ, take, ◌∷◌, List, Option,
}
use haru_quant_cbot.Timeframe.{Timeframe, parse_timeframe, name}
use haru_quant_cbot.Store.Files.{
  Folder, Tree, Format, folder_at, put_folder, file_name, path_of, glob,
}

-- The timeframes that directories are named after.
unfoldable pub timeframes_of : List Text → List Timeframe
unfolding text_beq parse_timeframe
timeframes_of [] = []
timeframes_of (item ∷ items) =
    let later = timeframes_of items in
    if text_beq item (str "ticks")
    then later
    else elim (parse_timeframe item) [ ok tf ↦ tf ∷ later | raise e ↦ later ]

-- `key=lambda x: x.value`: the value is the name.
unfoldable pub value_leb : Timeframe → Timeframe → Bool
unfolding name
value_leb a b = text_leb (name a) (name b)

-- `file_path.stem` of a name that ends in the suffix.
unfoldable pub stem : Text → Text → Text
stem suffix file = take (length file - length suffix) file

module _ {D : Type 0} where
  -- Names in order, those of hidden directories left out.
  unfoldable pub list_symbols : Tree D → List Text
  unfolding starts_with
  list_symbols tree =
      sort text_leb (keep (λ item. not (starts_with item (str "."))) (map (λ e. e.0) tree))

  unfoldable pub list_timeframes : Text → Tree D → List Timeframe
  unfolding timeframes_of value_leb
  list_timeframes symbol tree = elim (lookup symbol tree) [
    | none ↦ []
    | some folders ↦ sort value_leb (timeframes_of (map (λ e. e.0) folders))
  ]

  -- `file_path.unlink()` for each of the names.
  unfoldable pub unlink : List Text → Folder D → Folder D
  unlink [] files = files
  unlink (file ∷ names) files = unlink names (erase file files)

  abbrev pub without_folder : Text → Text → Option (Dict Text (Folder D)) → Tree D → Tree D
  without_folder symbol directory none tree = tree
  without_folder symbol directory (some folders) tree = insert symbol (erase directory folders) tree

  -- `data_dir.rmdir()`
  unfoldable pub remove_folder : Text → Text → Tree D → Tree D
  remove_folder symbol directory tree = without_folder symbol directory (lookup symbol tree) tree

module _ {R D : Type 0} (fmt : Format R D) where
  unfoldable pub list_partitions : Text → Option Timeframe → Tree D → List Text
  unfolding folder_at directory_of glob stem
  list_partitions symbol timeframe tree = elim (folder_at symbol (directory_of timeframe) tree) [
    | none ↦ []
    | some files ↦ sort text_leb (
        keep (λ partition. not (text_beq partition (str "all")))
          (map (stem fmt.suffix) (glob fmt files)))
  ]

  -- The files of a directory that exists: without a partition all go, and the directory with them if
  -- it is empty then.
  unfoldable pub delete_files : Text → Text → Option Text → Folder D → Tree D → Tree D × ℕ
  unfolding put_folder glob unlink remove_folder file_name
  delete_files symbol directory (some (c ∷ partition)) files tree =
      let file = file_name fmt.suffix (some (c ∷ partition)) in
      if contains file files
      then (put_folder symbol directory (erase file files) tree, 1)
      else (tree, 0)
  delete_files symbol directory partition files tree =
      let deleted = length (glob fmt files) in
      let left = unlink (glob fmt files) files in
      if ltb 0 deleted && nat_beq (length left) 0
      then (remove_folder symbol directory tree, deleted)
      else (put_folder symbol directory left tree, deleted)

  abbrev pub delete_at : Text → Text → Option Text → Option (Folder D) → Tree D → Tree D × ℕ
  delete_at symbol directory partition none tree = (tree, 0)
  delete_at symbol directory partition (some files) tree =
      delete_files symbol directory partition files tree

  unfoldable pub delete_data : Text → Option Timeframe → Option Text → Tree D → Tree D × ℕ
  unfolding folder_at directory_of
  delete_data symbol timeframe partition tree =
      let directory = directory_of timeframe in
      delete_at symbol directory partition (folder_at symbol directory tree) tree

  -- `(min_ts, max_ts) if min_ts and max_ts else None`: zero counts as missing.
  unfoldable pub range_or_none : Option ℕ → Option ℕ → Option (ℕ × ℕ)
  range_or_none (some min_ts) (some max_ts) =
      if nat_beq min_ts 0 || nat_beq max_ts 0 then none else some (min_ts, max_ts)
  range_or_none min_ts max_ts = none

  -- `get_file_info`, for a way to take the two times from the rows of a file.
  unfoldable pub file_info :
      (List D → Option ℕ)
      → (List D → Option ℕ)
      → Text
      → Option Timeframe
      → Option Text
      → Tree D
      → Result FileInfo
  unfolding folder_at directory_of file_name path_of range_or_none
  file_info first_time last_time symbol timeframe partition tree =
      let directory = directory_of timeframe in
      let file = file_name fmt.suffix partition in
      elim (folder_at symbol directory tree) [
        | none ↦ raise file_not_found
        | some files ↦ elim (lookup file files) [
          | none ↦ raise file_not_found
          | some none ↦ raise other_error
          | some (some rows) ↦ ok (record {
            path = path_of fmt.base_path symbol directory file;
            row_count = length rows;
            date_range = range_or_none (first_time rows) (last_time rows);
          })
        ]
      ]
