-- ===== src/Store/Separate.antt =====
-- A write to a store of src/hqt/data/storage changes one file, and a deletion one directory.
use mathlib.Core.Path.{subst}
use haru_quant_cbot.Store.Contents.{put_other_folder, folder_at-put_folder, put_other_symbol}
use haru_quant_cbot.Prelude.Dict.{lookup-insert_other, lookup}
use haru_quant_cbot.Validation.{has_column, Frame}
use haru_quant_cbot.Prelude.{
  ◌++◌, keep, [], ok, nat_beq, refl, ◌>>=◌, ◌∙◌, ap, inr, not, map, none, ◌≢◌, any_of, inl,
  Bool-cases, ◌∷◌, ◌⊎◌, false, some, ℕ, ◌≡◌, Option, List,
}
use haru_quant_cbot.Prelude.Text.{text_beq_iff, text_eq, text_beq, Text}
use haru_quant_cbot.Store.Files.{
  frame_of, read_at, Folder, Tree, Format, folder_at, put_folder, file_name, write_rows, read_rows,
  or_empty, read_folder, read_files, files_to_read, read_file, in_range, Written, after_write,
}

module _ {R D : Type 0} (fmt : Format R D) where
  -- The tree after a write, whatever becomes of it.
  pub write_rows-cases :
      (written : Written D) (required : List Text) (symbol directory : Text) (df : Frame (List R))
      (partition : Option Text) (tree : Tree D)
      → ((write_rows fmt written required symbol directory df partition tree).0 ≡ tree)
        ⊎ ((write_rows fmt written required symbol directory df partition tree).0
            ≡ put_folder symbol directory
                (after_write fmt written
                  (file_name fmt.suffix partition)
                  df.content
                  (or_empty (folder_at symbol directory tree)))
                tree)
  unfolding write_rows
  write_rows-cases written required symbol directory df partition tree =
      elim (Bool-cases (any_of (λ c. not (has_column df c)) required)) [
        | inl missing ↦ inl (rw missing refl)
        | inr there ↦ elim (Bool-cases (nat_beq df.rows 0)) [
          | inl empty ↦ inl (rw (there, empty) refl)
          | inr full ↦ inr (rw (there, full) refl)
        ]
      ]

  after_write-other :
      (written : Written D) (file other : Text) (rows : List R) (files : Folder D)
      → text_beq file other ≡ false
      → lookup other (after_write fmt written file rows files) ≡ lookup other files
  after_write-other Written.done file other rows files h =
      lookup-insert_other file other (some (map fmt.to_fixed rows)) files h
  after_write-other Written.unscaled file other rows files h = refl
  after_write-other (Written.failed none) file other rows files h = refl
  after_write-other (Written.failed (some left)) file other rows files h =
      lookup-insert_other file other left files h

  other_folder :
      (symbol directory symbol' directory' : Text) (files : Folder D) (tree : Tree D)
      → (text_beq symbol symbol' ≡ false) ⊎ (text_beq directory directory' ≡ false)
      → folder_at symbol' directory' (put_folder symbol directory files tree)
        ≡ folder_at symbol' directory' tree
  other_folder symbol directory symbol' directory' files tree (inl h) =
      put_other_symbol symbol directory symbol' directory' files tree h
  other_folder symbol directory symbol' directory' files tree (inr h) =
      elim (Bool-cases (text_beq symbol symbol')) [
        | inl same ↦
            subst
              (λ s.
                folder_at s directory' (put_folder symbol directory files tree)
                ≡ folder_at s directory' tree)
              ((text_beq_iff symbol symbol').0 same)
              (put_other_folder symbol directory directory' files tree h)
        | inr other ↦ put_other_symbol symbol directory symbol' directory' files tree other
      ]

  same_folder :
      (written : Written D) (file : Text) (rows : List R) (columns : List Text)
      (start stop : Option ℕ) (wanted : Option (List Text)) (c : ℕ) (p : Text)
      → text_beq file (file_name fmt.suffix (some (c ∷ p))) ≡ false
      → (o : Option (Folder D)) → o ≢ none
      → read_at fmt columns start stop wanted
          (some (c ∷ p))
          (some (after_write fmt written file rows (or_empty o)))
        ≡ read_at fmt columns start stop wanted (some (c ∷ p)) o
  unfolding read_at files_to_read read_folder read_files
  same_folder written file rows columns start stop wanted c p apart none there = absurd (there refl)
  same_folder written file rows columns start stop wanted c p apart (some files) there =
      ap
        (λ o.
          read_file fmt o
          >>= (λ xs. ok [] >>= (λ others. ok (keep (in_range fmt start stop) xs ++ others)))
          >>= (λ xs. frame_of fmt columns (fmt.selected wanted) xs))
        (after_write-other written file (file_name fmt.suffix (some (c ∷ p))) rows files apart)

  -- A write, even one that fails and spoils its file, changes nothing of what is read of another symbol
  -- or another directory, and nothing of what is read of another partition of a directory that exists.
  pub write_rows-others :
      (written : Written D) (required : List Text) (symbol directory : Text) (df : Frame (List R))
      (partition : Option Text) (tree : Tree D) (symbol' directory' : Text) (columns : List Text)
      (start stop : Option ℕ) (wanted : Option (List Text))
      → let tree' = (write_rows fmt written required symbol directory df partition tree).0 in
        ((text_beq symbol symbol' ≡ false) ⊎ (text_beq directory directory' ≡ false)
          → (p : Option Text)
          → read_rows fmt columns symbol' directory' start stop wanted p tree'
            ≡ read_rows fmt columns symbol' directory' start stop wanted p tree)
        × ((c : ℕ) (p : Text)
            → text_beq (file_name fmt.suffix partition) (file_name fmt.suffix (some (c ∷ p)))
              ≡ false
            → folder_at symbol directory tree ≢ none
            → read_rows fmt columns symbol directory start stop wanted (some (c ∷ p)) tree'
              ≡ read_rows fmt columns symbol directory start stop wanted (some (c ∷ p)) tree)
  unfolding read_rows
  write_rows-others written required symbol directory df partition tree symbol' directory' columns
        start stop wanted =
      elim (write_rows-cases written required symbol directory df partition tree) [
        | inl same ↦ (
          λ apart p.
              ap (λ t. read_at fmt columns start stop wanted p (folder_at symbol' directory' t))
                same,
          λ c p apart there.
              ap
                (λ t.
                  read_at fmt columns start stop wanted (some (c ∷ p))
                    (folder_at symbol directory t))
                same,
        )
        | inr put ↦ (
          λ apart p.
              ap (λ t. read_at fmt columns start stop wanted p (folder_at symbol' directory' t)) put
              ∙ ap (read_at fmt columns start stop wanted p) (
                  other_folder symbol directory symbol' directory'
                    (after_write fmt written (file_name fmt.suffix partition) df.content
                      (or_empty (folder_at symbol directory tree)))
                    tree apart),
          λ c p apart there.
              ap
                (λ t.
                  read_at fmt columns start stop wanted (some (c ∷ p))
                    (folder_at symbol directory t))
                put
              ∙ ap (read_at fmt columns start stop wanted (some (c ∷ p))) (
                  folder_at-put_folder symbol directory
                    (after_write fmt written (file_name fmt.suffix partition) df.content
                      (or_empty (folder_at symbol directory tree)))
                    tree)
              ∙ same_folder written (file_name fmt.suffix partition) df.content columns start stop
                  wanted c p apart (folder_at symbol directory tree) there,
        )
      ]
