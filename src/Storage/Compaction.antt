-- ===== src/Storage/Compaction.antt =====
-- What `compact` of src/hqt/data/storage/manager.py does to a store of Parquet files when the write fails.
use haru_quant_cbot.Prelude.Dict.{
  lookup-insert_self, lookup-erase_self, lookup, erase, contains, IsDistinct,
}
use haru_quant_cbot.Timeframe.{Timeframe}
use haru_quant_cbot.Catalog.{Table, Machine}
use haru_quant_cbot.Validation.{has_column, Frame}
use haru_quant_cbot.Prelude.Text.{text_eq, str, Text}
use haru_quant_cbot.Prelude.{
  sym, Option-cases, ◌⊎◌, coded, nat_beq, value_error, inr, ok, not, true, any_of, ◌∙◌, Bool-cases,
  ◌∷◌, ap, inl, raise, refl, some, none, Error, ◌≡◌, ℕ, Option, List,
}
use haru_quant_cbot.Storage.Downloads.{
  Tools, compact, compact_data, compacted_rows, write_to, read_from, after_compact,
}
use haru_quant_cbot.Store.{DataStore, directory_of, bar_columns, tick_columns}
use haru_quant_cbot.Store.Files.{
  after_write, File, or_empty, Tree, Folder, Format, failed, folder_at, write_rows, file_name,
}
use haru_quant_cbot.Store.Parquet.{parquet_store, parquet_format}
use haru_quant_cbot.Store.Listing.{delete_at, delete_data, delete_files}
use haru_quant_cbot.Store.Separate.{write_rows-cases}
use haru_quant_cbot.Store.Contents.{folder_at-put_folder}

module _ {R D : Type 0} (fmt : Format R D) (left : Option (File D)) where
  write_rows-fails :
      (required : List Text) (symbol directory : Text) (df : Frame (List R))
      (partition : Option Text) (tree : Tree D)
      → (e : Error) × ((write_rows fmt (failed left) required symbol directory df partition tree).1
          ≡ raise e)
  unfolding write_rows
  write_rows-fails required symbol directory df partition tree =
      elim (Bool-cases (any_of (λ c. not (has_column df c)) required)) [
        | inl missing ↦ (value_error, rw missing refl)
        | inr there ↦ elim (Bool-cases (nat_beq df.rows 0)) [
          | inl empty ↦ (value_error, rw (there, empty) refl)
          | inr full ↦ (coded fmt.write_error, rw (there, full) refl)
        ]
      ]

  left_there :
      (file : Text) (rows : List R) (files : Folder D)
      → lookup file files ≡ none
      → (lookup file (after_write fmt (failed left) file rows files) ≡ none)
        ⊎ (lookup file (after_write fmt (failed left) file rows files) ≡ left)
  left_there file rows files gone = elim (Option-cases left) [
    | inl e ↦ inl (ap (λ l. lookup file (after_write fmt (failed l) file rows files)) e ∙ gone)
    | inr (spoiled, e) ↦ inr (
        ap (λ l. lookup file (after_write fmt (failed l) file rows files)) e
        ∙ (lookup-insert_self file spoiled files ∙ sym e))
  ]

  -- Where no file stood, a failing write leaves nothing, or what it spoiled.
  write_rows-leaves :
      (required : List Text) (symbol directory : Text) (df : Frame (List R))
      (partition : Option Text) (tree : Tree D) (files : Folder D)
      → folder_at symbol directory tree ≡ some files
      → lookup (file_name fmt.suffix partition) files ≡ none
      → (after : Folder D) × (folder_at symbol directory
            (write_rows fmt (failed left) required symbol directory df partition tree).0
          ≡ some after)
        × ((lookup (file_name fmt.suffix partition) after ≡ none)
            ⊎ (lookup (file_name fmt.suffix partition) after ≡ left))
  write_rows-leaves required symbol directory df partition tree files h gone =
      let file = file_name fmt.suffix partition in
      elim (write_rows-cases fmt (failed left) required symbol directory df partition tree) [
        | inl same ↦ (files, ap (folder_at symbol directory) same ∙ h, inl gone)
        | inr put ↦ (
          after_write fmt (failed left) file df.content files,
          ap (folder_at symbol directory) put
              ∙ (folder_at-put_folder symbol directory
                    (after_write fmt (failed left) file df.content
                      (or_empty (folder_at symbol directory tree)))
                    tree
                  ∙ ap (λ o. some (after_write fmt (failed left) file df.content (or_empty o))) h),
          left_there file df.content files gone,
        )
      ]

module _ {R D : Type 0} (fmt : Format R D) where
  deleted_folder :
      (symbol : Text) (timeframe : Option Timeframe) (c : ℕ) (p : Text) (tree : Tree D)
      (files : Folder D)
      → folder_at symbol (directory_of timeframe) tree ≡ some files
      → contains (file_name fmt.suffix (some (c ∷ p))) files ≡ true
      → folder_at symbol
          (directory_of timeframe)
          (delete_data fmt symbol timeframe (some (c ∷ p)) tree).0
        ≡ some (erase (file_name fmt.suffix (some (c ∷ p))) files)
  unfolding delete_data delete_files
  deleted_folder symbol timeframe c p tree files h there =
      let directory = directory_of timeframe in
      let file = file_name fmt.suffix (some (c ∷ p)) in
      ap (λ o. folder_at symbol directory (delete_at fmt symbol directory (some (c ∷ p)) o tree).0)
        h
      ∙ rw there (folder_at-put_folder symbol directory (erase file files) tree)

module _ {R D : Type 0} (tools : Tools R) (base : Text) (to_fixed : R → D) (to_float : D → R)
    (timestamp : D → ℕ) (sort_rows : List D → List D) (m : Machine) (left : Option (File D)) where
  abbrev pub fmt : Format R D
  fmt = parquet_format base to_fixed to_float timestamp sort_rows

  abbrev pub failing_store : DataStore (Tree D) R
  failing_store = parquet_store base to_fixed to_float timestamp sort_rows (failed left)

  columns_of : Option Timeframe → List Text
  columns_of none = tick_columns
  columns_of (some timeframe) = bar_columns

  write_to-parquet :
      (timeframe : Option Timeframe) (symbol : Text) (df : Frame (List R)) (p : Text)
      (tree : Tree D)
      → write_to tools failing_store m timeframe symbol df p tree
        ≡ write_rows fmt
            (failed left)
            (columns_of timeframe)
            symbol
            (directory_of timeframe)
            df
            (some p)
            tree
  unfolding parquet_store directory_of columns_of parquet_format
  write_to-parquet none symbol df p tree = refl
  write_to-parquet (some timeframe) symbol df p tree = refl

  -- The tree after the deletion and the failed write.
  left_tree : Text → Option Timeframe → ℕ → Text → Tree D → Frame (List R) → Tree D
  left_tree symbol timeframe c p tree df =
      (write_rows fmt (failed left) (columns_of timeframe) symbol (directory_of timeframe)
        (compacted_rows tools failing_store m df) (some (c ∷ p))
        (delete_data fmt symbol timeframe (some (c ∷ p)) tree).0).0

  compacted :
      (symbol : Text) (timeframe : Option Timeframe) (c : ℕ) (p : Text) (tree : Tree D) (t : Table)
      (df : Frame (List R)) (e : Error)
      → read_from tools failing_store m timeframe symbol (c ∷ p) tree ≡ ok df
      → (write_rows fmt
          (failed left)
          (columns_of timeframe)
          symbol
          (directory_of timeframe)
          (compacted_rows tools failing_store m df)
          (some (c ∷ p))
          (delete_data fmt symbol timeframe (some (c ∷ p)) tree).0).1
        ≡ raise e
      → compact tools failing_store m symbol timeframe (c ∷ p) (tree, t)
        ≡ ((left_tree symbol timeframe c p tree df, t), raise e)
  unfolding compact left_tree parquet_store
  compacted symbol timeframe c p tree t df e read fails =
      let after = compacted_rows tools failing_store m df in
      let deletion = delete_data fmt symbol timeframe (some (c ∷ p)) tree in
      ap (λ r. compact_data tools failing_store m symbol timeframe (c ∷ p) r (tree, t)) read
      ∙ ap
          (λ w.
            after_compact tools failing_store m symbol timeframe (c ∷ p) df after deletion.1 w t)
          (write_to-parquet timeframe symbol after (c ∷ p) deletion.0)
      ∙ ap
          (λ a.
            after_compact tools failing_store m symbol timeframe (c ∷ p) df after deletion.1
              (left_tree symbol timeframe c p tree df, a) t)
          fails

  -- In a Parquet store, where the file of the partition is read and the write of the compacted rows
  -- fails, compact raises and the catalog stays as it was, but the rows are gone: the file was deleted
  -- before the write, and in its place stands nothing, or what the failed write left there.
  pub compact-failed_write :
      (symbol : Text) (timeframe : Option Timeframe) (c : ℕ) (p : Text) (tree : Tree D) (t : Table)
      (files : Folder D) (df : Frame (List R))
      → folder_at symbol (directory_of timeframe) tree ≡ some files
      → IsDistinct files
      → contains (file_name (str ".parquet") (some (c ∷ p))) files ≡ true
      → read_from tools failing_store m timeframe symbol (c ∷ p) tree ≡ ok df
      → let after = compact tools failing_store m symbol timeframe (c ∷ p) (tree, t) in
        let file = file_name (str ".parquet") (some (c ∷ p)) in
        ((e : Error) × (after.1 ≡ raise e))
        × (after.0.1 ≡ t)
        × ((folder : Folder D) × (folder_at symbol (directory_of timeframe) after.0.0 ≡ some folder)
            × ((lookup file folder ≡ none) ⊎ (lookup file folder ≡ left)))
  unfolding left_tree parquet_format
  compact-failed_write symbol timeframe c p tree t files df h distinct_files there read =
      let after = compacted_rows tools failing_store m df in
      let file = file_name (str ".parquet") (some (c ∷ p)) in
      let tree' = (delete_data fmt symbol timeframe (some (c ∷ p)) tree).0 in
      let (e, fails) =
        write_rows-fails fmt left (columns_of timeframe) symbol (directory_of timeframe) after
          (some (c ∷ p)) tree' in
      let gone = deleted_folder fmt symbol timeframe c p tree files h there in
      let (folder, is, leaves) =
        write_rows-leaves fmt left (columns_of timeframe) symbol (directory_of timeframe) after
          (some (c ∷ p)) tree' (erase file files) gone
          (lookup-erase_self file files distinct_files) in
      let whole = compacted symbol timeframe c p tree t df e read fails in
      (
        (e, ap (λ r. r.1) whole),
        ap (λ r. r.0.1) whole,
        (folder, ap (λ r. folder_at symbol (directory_of timeframe) r.0.0) whole ∙ is, leaves),
      )
