-- ===== src/Store/Files.antt =====
-- The directories of a store of src/hqt/data/storage: parquet_store.py and hdf5_store.py differ in the
-- suffix of a file and in the codes of their errors. The file formats, the scaling of the prices of a
-- row and the sort by time are parameters. A symbol and a partition have no slash.
use haru_quant_cbot.Prelude.Sort.{sort}
use haru_quant_cbot.Validation.{Frame, has_column}
use haru_quant_cbot.Prelude.{
  ◌&&◌, nat_beq, key_error, ltb, value_error, leb, length, ◌>>=◌, not, true, any_of, coded, none,
  file_not_found, ◌∷◌, ok, map, if◌then◌else◌, some, raise, [], ◌++◌, ℕ, keep, Result, List, Option,
  Bool,
}
use haru_quant_cbot.Prelude.Dict.{insert, lookup, Dict}
use haru_quant_cbot.Prelude.Text.{text_beq, text_eq, text_leb, str, ends_with, Text}

-- What a file holds, if it can be read.
abbrev pub File : Type 0 → Type 0
File D = Option (List D)

-- The files of a directory, the directories of a symbol, and the symbols of the base directory.
abbrev pub Folder : Type 0 → Type 0
Folder D = Dict Text (File D)

abbrev pub Tree : Type 0 → Type 0
Tree D = Dict Text (Dict Text (Folder D))

-- A file format, with rows R in memory and D on the disk.
pub record Format (R D : Type 0) : Type 0 where
  pub base_path : Text
  pub suffix : Text
  pub write_error : ℕ
  pub read_error : ℕ
  pub to_fixed : R → D
  pub to_float : D → R
  pub timestamp : D → ℕ
  pub sort_rows : List D → List D
  -- `columns` as the reading takes them
  pub selected : Option (List Text) → Option (List Text)

-- What becomes of a write: it is done, or it raises and leaves something in place of the file, or the
-- scaling of a missing price raises before it (`astype("int64")` of a pandas column).
pub data Written (D : Type 0) : Type 0 where
  done : Written D
  unscaled : Written D
  failed : Option (File D) → Written D

abbrev pub or_empty : {A B : Type 0} → Option (Dict A B) → Dict A B
or_empty none = []
or_empty (some d) = d

-- `if partition: ... else "all"`, with the suffix.
unfoldable pub file_name : Text → Option Text → Text
file_name suffix none = str "all" ++ suffix
file_name suffix (some []) = str "all" ++ suffix
file_name suffix (some (c ∷ partition)) = (c ∷ partition) ++ suffix

unfoldable pub path_of : Text → Text → Text → Text → Text
path_of base symbol directory file =
    base ++ str "/" ++ symbol ++ str "/" ++ directory ++ str "/" ++ file

module _ {D : Type 0} where
  abbrev pub in_folders : Text → Option (Dict Text (Folder D)) → Option (Folder D)
  in_folders directory none = none
  in_folders directory (some folders) = lookup directory folders

  unfoldable pub folder_at : Text → Text → Tree D → Option (Folder D)
  folder_at symbol directory tree = in_folders directory (lookup symbol tree)

  unfoldable pub put_folder : Text → Text → Folder D → Tree D → Tree D
  put_folder symbol directory files tree =
      insert symbol (insert directory files (or_empty (lookup symbol tree))) tree

module _ {R D : Type 0} (fmt : Format R D) where
  -- The folder after the write of a file.
  abbrev pub after_write : Written D → Text → List R → Folder D → Folder D
  after_write done file rows files = insert file (some (map fmt.to_fixed rows)) files
  after_write unscaled file rows files = files
  after_write (failed none) file rows files = files
  after_write (failed (some left)) file rows files = insert file left files

  abbrev pub write_answer : Written D → Text → Result Text
  write_answer done path = ok path
  write_answer unscaled path = raise value_error
  write_answer (failed left) path = raise (coded fmt.write_error)

  unfoldable pub write_rows :
      Written D
      → List Text
      → Text
      → Text
      → Frame (List R)
      → Option Text
      → Tree D
      → Tree D × Result Text
  unfolding has_column folder_at put_folder file_name path_of
  write_rows written required symbol directory df partition tree =
      let file = file_name fmt.suffix partition in
      let files = or_empty (folder_at symbol directory tree) in
      if any_of (λ c. not (has_column df c)) required
      then (tree, raise value_error)
      else if nat_beq df.rows 0
      then (tree, raise value_error)
      else (
        put_folder symbol directory (after_write written file df.content files) tree,
        write_answer written (path_of fmt.base_path symbol directory file),
      )

  -- `symbol_dir.glob("*" + suffix)`
  unfoldable pub glob : Folder D → List Text
  unfolding ends_with
  glob files = keep (λ file. ends_with file fmt.suffix) (map (λ e. e.0) files)

  unfoldable pub files_to_read : Option Text → Folder D → List Text
  unfolding glob file_name
  files_to_read none files = sort text_leb (glob files)
  files_to_read (some []) files = sort text_leb (glob files)
  files_to_read (some (c ∷ partition)) files = file_name fmt.suffix (some (c ∷ partition)) ∷ []

  -- The filters on the times.
  unfoldable pub in_range : Option ℕ → Option ℕ → D → Bool
  in_range none none row = true
  in_range (some start) none row = leb start (fmt.timestamp row)
  in_range none (some stop) row = ltb (fmt.timestamp row) stop
  in_range (some start) (some stop) row =
      leb start (fmt.timestamp row) && ltb (fmt.timestamp row) stop

  -- One file of the loop.
  unfoldable pub read_file : Option (File D) → Result (List D)
  read_file none = raise (coded fmt.read_error)
  read_file (some none) = raise (coded fmt.read_error)
  read_file (some (some rows)) = ok rows

  -- The rows of the files, one after the other.
  unfoldable pub read_files : (D → Bool) → List Text → Folder D → Result (List D)
  unfolding read_file
  read_files wanted [] files = ok []
  read_files wanted (file ∷ names) files =
      let later = read_files wanted names files in
      (read_file (lookup file files)
        >>= (λ rows. later >>= (λ others. ok (keep wanted rows ++ others))))

  -- The frame of the rows that were read: no rows give an empty frame, and a selection of columns
  -- without the times cannot be sorted.
  unfoldable pub frame_of : List Text → Option (List Text) → List D → Result (Frame (List R))
  frame_of columns wanted [] =
      ok (record { columns = or_columns wanted columns; rows = 0; content = [] })
    where
      or_columns : Option (List Text) → List Text → List Text
      or_columns none every = every
      or_columns (some []) every = every
      or_columns (some (c ∷ some_columns)) every = c ∷ some_columns
  frame_of columns none (row ∷ rows) = ok (record {
    columns = columns;
    rows = length (row ∷ rows);
    content = map fmt.to_float (fmt.sort_rows (row ∷ rows));
  })
  frame_of columns (some wanted) (row ∷ rows) =
      if any_of (text_beq (str "timestamp")) wanted
      then ok (record {
        columns = wanted;
        rows = length (row ∷ rows);
        content = map fmt.to_float (fmt.sort_rows (row ∷ rows));
      })
      else raise key_error

  -- The files of a folder that exists.
  unfoldable pub read_folder :
      List Text
      → Option ℕ
      → Option ℕ
      → Option (List Text)
      → List Text
      → Folder D
      → Result (Frame (List R))
  unfolding read_files in_range frame_of
  read_folder columns start stop wanted [] files = raise file_not_found
  read_folder columns start stop wanted (file ∷ names) files =
      read_files (in_range start stop) (file ∷ names) files
      >>= (λ rows. frame_of columns (fmt.selected wanted) rows)

  -- `if not symbol_dir.exists()`
  unfoldable pub read_at :
      List Text
      → Option ℕ
      → Option ℕ
      → Option (List Text)
      → Option Text
      → Option (Folder D)
      → Result (Frame (List R))
  unfolding files_to_read read_folder
  read_at columns start stop wanted partition none = raise file_not_found
  read_at columns start stop wanted partition (some files) =
      read_folder columns start stop wanted (files_to_read partition files) files

  unfoldable pub read_rows :
      List Text
      → Text
      → Text
      → Option ℕ
      → Option ℕ
      → Option (List Text)
      → Option Text
      → Tree D
      → Result (Frame (List R))
  unfolding folder_at read_at
  read_rows columns symbol directory start stop wanted partition tree =
      read_at columns start stop wanted partition (folder_at symbol directory tree)
