-- ===== src/Store/Contents.antt =====
-- What the stores of src/hqt/data/storage read back.
use haru_quant_cbot.Validation.{has_column, Frame}
use haru_quant_cbot.Prelude.{
  nat_beq, ℕ, not, any_of, ◌>>=◌, ok, ◌∷◌, [], length, ◌++◌, map, keep, List, ap, refl, ◌∙◌, none,
  false, some, Option, ◌≡◌,
}
use haru_quant_cbot.Prelude.Text.{text_eq, text_beq, Text}
use haru_quant_cbot.Prelude.Dict.{lookup-insert_other, lookup-insert_self, insert, Dict, lookup}
use haru_quant_cbot.Store.Files.{
  path_of, files_to_read, read_at, done, read_rows, write_rows, file_name, after_write, read_file,
  read_files, frame_of, read_folder, in_range, Format, in_folders, Folder, Tree, folder_at,
  put_folder, or_empty,
}

module _ {D : Type 0} where
  pub folder_at-put_folder :
      (s d : Text) (files : Folder D) (tree : Tree D)
      → folder_at s d (put_folder s d files tree) ≡ some files
  unfolding folder_at put_folder
  folder_at-put_folder s d files tree =
      let folders = insert d files (or_empty (lookup s tree)) in
      ap (in_folders d) (lookup-insert_self s folders tree)
      ∙ lookup-insert_self d files (or_empty (lookup s tree))

  lookup-or_empty :
      (d : Text) (o : Option (Dict Text (Folder D))) → lookup d (or_empty o) ≡ in_folders d o
  unfolding lookup
  lookup-or_empty d none = refl
  lookup-or_empty d (some folders) = refl

  pub put_other_symbol :
      (s d s' d' : Text) (files : Folder D) (tree : Tree D)
      → text_beq s s' ≡ false
      → folder_at s' d' (put_folder s d files tree) ≡ folder_at s' d' tree
  unfolding folder_at put_folder
  put_other_symbol s d s' d' files tree h =
      let folders = insert d files (or_empty (lookup s tree)) in
      ap (in_folders d') (lookup-insert_other s s' folders tree h)

  pub put_other_folder :
      (s d d' : Text) (files : Folder D) (tree : Tree D)
      → text_beq d d' ≡ false
      → folder_at s d' (put_folder s d files tree) ≡ folder_at s d' tree
  unfolding folder_at put_folder
  put_other_folder s d d' files tree h =
      let folders = insert d files (or_empty (lookup s tree)) in
      ap (in_folders d') (lookup-insert_self s folders tree)
      ∙ lookup-insert_other d d' files (or_empty (lookup s tree)) h
      ∙ lookup-or_empty d' (lookup s tree)

module _ {R D : Type 0} (fmt : Format R D) where
  -- The frame that is read back from rows: scaled, in the order of their times, and scaled back.
  abbrev pub read_back : List Text → List R → Frame (List R)
  read_back columns rows = record {
    columns = columns;
    rows = length (map fmt.to_fixed rows);
    content = map fmt.to_float (fmt.sort_rows (map fmt.to_fixed rows));
  }

  keep-everything : (rows : List D) → keep (in_range fmt none none) rows ≡ rows
  unfolding in_range
  keep-everything [] = refl
  keep-everything (row ∷ rows) = ap (◌∷◌ row) (keep-everything rows)

  append-nil : {A : Type 0} (xs : List A) → xs ++ [] ≡ xs
  append-nil [] = refl
  append-nil (x ∷ xs) = ap (◌∷◌ x) (append-nil xs)

  read_one :
      (columns : List Text) (file : Text) (rows : List D) (files : Folder D)
      → lookup file files ≡ some (some rows)
      → read_folder fmt columns none none none (file ∷ []) files
        ≡ frame_of fmt columns (fmt.selected none) rows
  unfolding read_folder read_files
  read_one columns file rows files e =
      ap
        (λ o.
          read_file fmt o
          >>= (λ xs. ok [] >>= (λ others. ok (keep (in_range fmt none none) xs ++ others)))
          >>= (λ xs. frame_of fmt columns (fmt.selected none) xs))
        e
      ∙ ap (frame_of fmt columns (fmt.selected none))
          (append-nil (keep (in_range fmt none none) rows) ∙ keep-everything rows)

  framed :
      (columns : List Text) (row : R) (rows : List R)
      → fmt.selected none ≡ none
      → frame_of fmt columns (fmt.selected none) (map fmt.to_fixed (row ∷ rows))
        ≡ ok (read_back columns (row ∷ rows))
  unfolding frame_of
  framed columns row rows h = ap (λ w. frame_of fmt columns w (map fmt.to_fixed (row ∷ rows))) h

  written_folder :
      (symbol directory : Text) (df : Frame (List R)) (partition : Option Text) (tree : Tree D)
      → Folder D
  written_folder symbol directory df partition tree =
      after_write fmt done (file_name fmt.suffix partition) df.content
        (or_empty (folder_at symbol directory tree))

  write_rows-done :
      (required : List Text) (symbol directory : Text) (df : Frame (List R))
      (partition : Option Text) (tree : Tree D)
      → any_of (λ c. not (has_column df c)) required ≡ false
      → nat_beq df.rows 0 ≡ false
      → write_rows fmt done required symbol directory df partition tree ≡ (
        put_folder symbol directory (written_folder symbol directory df partition tree) tree,
        ok (path_of fmt.base_path symbol directory (file_name fmt.suffix partition)),
      )
  unfolding write_rows written_folder
  write_rows-done required symbol directory df partition tree has full = rw (has, full) refl

  stored_rows :
      (symbol directory : Text) (df : Frame (List R)) (partition : Option Text) (tree : Tree D)
      {rows : List R}
      → df.content ≡ rows
      → lookup (file_name fmt.suffix partition) (written_folder symbol directory df partition tree)
        ≡ some (some (map fmt.to_fixed rows))
  unfolding written_folder
  stored_rows symbol directory df partition tree e =
      lookup-insert_self (file_name fmt.suffix partition) (some (map fmt.to_fixed df.content))
        (or_empty (folder_at symbol directory tree))
      ∙ ap (λ rs. some (some (map fmt.to_fixed rs))) e

  -- Where a frame with rows and the required columns is written to a partition and the write is done,
  -- the path of the file is the answer, and a read of the partition gives the rows of the frame,
  -- scaled and scaled back and in the order of their times, whatever stood in the file before.
  pub read_rows-write_rows :
      fmt.selected none ≡ none
      → (columns required : List Text) (symbol directory : Text) (df : Frame (List R)) (row : R)
        (rows : List R) (c : ℕ) (partition : Text) (tree : Tree D)
      → any_of (λ column. not (has_column df column)) required ≡ false
      → nat_beq df.rows 0 ≡ false
      → df.content ≡ row ∷ rows
      → ((write_rows fmt done required symbol directory df (some (c ∷ partition)) tree).1
          ≡ ok (
              path_of fmt.base_path symbol directory (file_name fmt.suffix (some (c ∷ partition)))))
        × (read_rows fmt columns symbol directory none none none
              (some (c ∷ partition))
              (write_rows fmt done required symbol directory df (some (c ∷ partition)) tree).0
            ≡ ok (read_back columns (row ∷ rows)))
  unfolding read_rows read_at files_to_read
  read_rows-write_rows all columns required symbol directory df row rows c partition tree has full
        e =
      let file = file_name fmt.suffix (some (c ∷ partition)) in
      let files = written_folder symbol directory df (some (c ∷ partition)) tree in
      let written =
        write_rows-done required symbol directory df (some (c ∷ partition)) tree has full in
      (
        ap (λ r. r.1) written,
        ap
              (λ r.
                read_at fmt columns none none none (some (c ∷ partition))
                  (folder_at symbol directory r.0))
              written
            ∙ ap (read_at fmt columns none none none (some (c ∷ partition)))
                (folder_at-put_folder symbol directory files tree)
            ∙ read_one columns file (map fmt.to_fixed (row ∷ rows)) files
                (stored_rows symbol directory df (some (c ∷ partition)) tree e)
            ∙ framed columns row rows all,
      )
