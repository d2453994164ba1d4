-- ===== src/Store/Deleting.antt =====
-- Deletions from the stores of src/hqt/data/storage.
use haru_quant_cbot.Store.{directory_of}
use haru_quant_cbot.Prelude.Sort.{sort}
use haru_quant_cbot.Timeframe.{Timeframe}
use haru_quant_cbot.Prelude.{
  false, true, if◌then◌else◌, not, List, keep, ℕ, Bool, refl, inr, inl, Bool-cases, ap, [], ◌∷◌,
  none, ◌≢◌, map, some, ◌≡◌, Option,
}
use haru_quant_cbot.Prelude.Dict.{erase, Dict, insert, lookup}
use haru_quant_cbot.Prelude.Text.{str, starts_with, text_leb, text_eq, text_beq, Text}
use haru_quant_cbot.Store.Files.{in_folders, or_empty, Folder, Tree, Format, folder_at, put_folder}
use haru_quant_cbot.Store.Listing.{
  delete_at, without_folder, delete_data, delete_files, remove_folder, list_symbols,
}

-- To put a value under a key that is there changes no key.
insert-keys :
    {V : Type 0} (k : Text) (v : V) (d : Dict Text V)
    → lookup k d ≢ none
    → map (λ e. e.0) (insert k v d) ≡ map (λ e. e.0) d
unfolding lookup insert
insert-keys k v [] h = absurd (h refl)
insert-keys k v ((j, w) ∷ d) h = elim (Bool-cases (text_beq j k)) [
  | inl e ↦ rw e refl
  | inr e ↦ rw e (ap (◌∷◌ j) (insert-keys k v d (λ q. h (rw e q))))
]

module _ {D : Type 0} where
  symbol-there :
      (symbol directory : Text) (files : Folder D) (tree : Tree D)
      → folder_at symbol directory tree ≡ some files
      → lookup symbol tree ≢ none
  unfolding folder_at
  symbol-there symbol directory files tree h e = let q = ap (in_folders directory) e in cc

  put_folder-symbols :
      (symbol directory : Text) (files new : Folder D) (tree : Tree D)
      → folder_at symbol directory tree ≡ some files
      → map (λ e. e.0) (put_folder symbol directory new tree) ≡ map (λ e. e.0) tree
  unfolding put_folder
  put_folder-symbols symbol directory files new tree h =
      insert-keys symbol (insert directory new (or_empty (lookup symbol tree))) tree
        (symbol-there symbol directory files tree h)

  without_folder-symbols :
      (symbol directory : Text) (o : Option (Dict Text (Folder D))) (tree : Tree D)
      → lookup symbol tree ≢ none
      → map (λ e. e.0) (without_folder symbol directory o tree) ≡ map (λ e. e.0) tree
  without_folder-symbols symbol directory none tree h = refl
  without_folder-symbols symbol directory (some folders) tree h =
      insert-keys symbol (erase directory folders) tree h

  if-symbols :
      (b : Bool) (x y : Tree D × ℕ) (names : List Text)
      → map (λ e. e.0) x.0 ≡ names
      → map (λ e. e.0) y.0 ≡ names
      → map (λ e. e.0) (if b then x else y).0 ≡ names
  if-symbols true x y names h k = h
  if-symbols false x y names h k = k

module _ {R D : Type 0} (fmt : Format R D) where
  delete_files-symbols :
      (symbol directory : Text) (partition : Option Text) (files : Folder D) (tree : Tree D)
      → folder_at symbol directory tree ≡ some files
      → map (λ e. e.0) (delete_files fmt symbol directory partition files tree).0
        ≡ map (λ e. e.0) tree
  unfolding delete_files remove_folder
  delete_files-symbols symbol directory (some (c ∷ p)) files tree h =
      if-symbols _ _ (tree, 0) _ (put_folder-symbols symbol directory files _ tree h) refl
  delete_files-symbols symbol directory (some []) files tree h =
      if-symbols _ _ _ _
        (without_folder-symbols symbol directory (lookup symbol tree) tree
          (symbol-there symbol directory files tree h))
        (put_folder-symbols symbol directory files _ tree h)
  delete_files-symbols symbol directory none files tree h =
      if-symbols _ _ _ _
        (without_folder-symbols symbol directory (lookup symbol tree) tree
          (symbol-there symbol directory files tree h))
        (put_folder-symbols symbol directory files _ tree h)

  delete_at-symbols :
      (symbol directory : Text) (partition : Option Text) (tree : Tree D) (o : Option (Folder D))
      → folder_at symbol directory tree ≡ o
      → map (λ e. e.0) (delete_at fmt symbol directory partition o tree).0 ≡ map (λ e. e.0) tree
  delete_at-symbols symbol directory partition tree none h = refl
  delete_at-symbols symbol directory partition tree (some files) h =
      delete_files-symbols symbol directory partition files tree h

  -- No deletion takes a symbol out of the list of symbols, not even that of all the data of its last
  -- directory.
  pub delete_data-symbols :
      (symbol : Text) (timeframe : Option Timeframe) (partition : Option Text) (tree : Tree D)
      → list_symbols (delete_data fmt symbol timeframe partition tree).0 ≡ list_symbols tree
  unfolding list_symbols delete_data
  delete_data-symbols symbol timeframe partition tree =
      ap (λ items. sort text_leb (keep (λ item. not (starts_with item (str "."))) items))
        (delete_at-symbols symbol (directory_of timeframe) partition tree
          (folder_at symbol (directory_of timeframe) tree) refl)
