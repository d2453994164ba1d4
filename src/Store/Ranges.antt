-- ===== src/Store/Ranges.antt =====
-- What the stores of src/hqt/data/storage read of a range of times.
use haru_quant_cbot.Prelude.Counts.{SameElements}
use haru_quant_cbot.Prelude.Dict.{lookup}
use haru_quant_cbot.Prelude.Sort.{IsSorted}
use haru_quant_cbot.Prelude.Text.{text_eq, Text}
use haru_quant_cbot.Prelude.{
  ltb, ◌&&◌, leb, ◌++◌, keep, ◌∷◌, true, ℕ, some, [], ◌≡◌, Option, In, none, Bool, List,
}
use haru_quant_cbot.Store.Files.{File, Folder, Format}

-- A time from the start on, if there is one, and before the end, if there is one.
abbrev pub is_from : Option ℕ → ℕ → Bool
is_from none time = true
is_from (some start) time = leb start time

abbrev pub is_before : Option ℕ → ℕ → Bool
is_before none time = true
is_before (some stop) time = ltb time stop

-- What a file holds that can be read.
abbrev pub rows_of : {D : Type 0} → Option (File D) → List D
rows_of none = []
rows_of (some none) = []
rows_of (some (some rows)) = rows

-- The rows of files, one after the other.
abbrev pub file_rows : {D : Type 0} → List Text → Folder D → List D
file_rows [] files = []
file_rows (file ∷ names) files = rows_of (lookup file files) ++ file_rows names files

module _ {R D : Type 0} (fmt : Format R D) where
  -- Each of the files can be read.
  abbrev pub Readable : List Text → Folder D → Type 0
  Readable names files =
      (file : Text) → In file names → (stored : List D) × (lookup file files ≡ some (some stored))

  -- The rows come in the order of their times.
  abbrev pub ByTime : List D → Type 0
  ByTime rows = IsSorted (λ a b. leb (fmt.timestamp a) (fmt.timestamp b)) rows

  -- What the sort of a format does.
  pub record SortLaws : Type 0 where
    pub same_rows : (rows : List D) → SameElements (fmt.sort_rows rows) rows
    pub by_time : (rows : List D) → ByTime (fmt.sort_rows rows)

  -- The rows of files in the range.
  abbrev pub rows_between : Option ℕ → Option ℕ → List Text → Folder D → List D
  rows_between start stop names files =
      keep (λ d. is_from start (fmt.timestamp d) && is_before stop (fmt.timestamp d))
        (file_rows names files)
