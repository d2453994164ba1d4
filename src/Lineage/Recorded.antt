-- ===== src/Lineage/Recorded.antt =====
-- `record_backtest_lineage` is atomic, and `delete_lineage` undoes it.
use haru_quant_cbot.Prelude.{
  ℕ, suc, ◌+◌, ◌≡◌, ◌≢◌, ◌⊎◌, inl, inr, refl, ap, Bool, not, none, some, List, [], ◌∷◌, ◌++◌,
  length, keep, count_if, In, arith, Error, Result, ok, raise, key_error, Result-cases, nat_beq,
}
use mathlib.Core.List.{append-nil, append_assoc}
use haru_quant_cbot.Prelude.Sort.{sort}
use haru_quant_cbot.Lineage.{
  Row, Table, DataFile, row_of, insert_files, record_backtest_lineage, row_leb, get_lineage,
  lineage_of, delete_lineage,
}

-- The row stores the file for the backtest, under the id.
pub record Stores (backtest_id now id : ℕ) (f : DataFile) (r : Row) : Type 0 where
  pub path : f.file_path ≡ some r.data_file_path
  pub hash : f.version_hash ≡ some r.data_version_hash
  pub symbol : f.symbol ≡ some r.symbol
  pub timeframe : f.timeframe ≡ r.timeframe
  pub partition : f.partition ≡ r.partition
  pub numbered : r.id ≡ id
  pub backtest : r.backtest_id ≡ backtest_id
  pub time : r.recorded_at ≡ now

-- One row for each file, in order, with consecutive ids.
abbrev pub StoresAll : ℕ → ℕ → ℕ → List DataFile → List Row → Type 0
StoresAll b now id [] [] = Unit
StoresAll b now id [] (r ∷ rows) = ⊥
StoresAll b now id (f ∷ files) [] = ⊥
StoresAll b now id (f ∷ files) (r ∷ rows) =
    Stores b now id f r × StoresAll b now (suc id) files rows

-- A key that the code reads without a default is missing.
abbrev pub Lacks : DataFile → Type 0
Lacks f = (f.file_path ≡ none) ⊎ (f.version_hash ≡ none) ⊎ (f.symbol ≡ none)

row_of-Stores :
    (b now id : ℕ) (f : DataFile) (r : Row) → row_of b now id f ≡ ok r → Stores b now id f r
unfolding row_of
row_of-Stores b now id f r h = ground arith

row_of-raises :
    (b now id : ℕ) (f : DataFile) (e : Error)
    → row_of b now id f ≡ raise e
    → Lacks f × (e ≡ key_error)
unfolding row_of
row_of-raises b now id f e h = ground arith

abbrev Outcome : ℕ → ℕ → List DataFile → Table → Result Table → Type 0
Outcome b now files t (ok t') =
    (new : List Row) × StoresAll b now t.next_id files new
    × (t' ≡ record { rows = t.rows ++ new; next_id = t.next_id + length files })
Outcome b now files t (raise e) = (e ≡ key_error) × ((f : DataFile) × In f files × Lacks f)

-- What holds of the rest holds of the whole list, if the first row was stored.
extend-Outcome :
    (b now : ℕ) (f : DataFile) (row : Row) (files : List DataFile) (t : Table) (r : Result Table)
    → Stores b now t.next_id f row
    → Outcome b now files (record { rows = t.rows ++ row ∷ []; next_id = suc t.next_id }) r
    → Outcome b now (f ∷ files) t r
extend-Outcome b now f row files t (ok t') first (new, stored, e) =
    (row ∷ new, (first, stored), ground (arith, e, append_assoc t.rows (row ∷ []) new))
extend-Outcome b now f row files t (raise x) first (key, (g, i, lacks)) = (key, (g, inr i, lacks))

insert_files-Outcome :
    (b now : ℕ) (files : List DataFile) (t : Table)
    → Outcome b now files t (insert_files b now files t)
unfolding insert_files
insert_files-Outcome b now [] t = ([], tt, ground (arith, append-nil t.rows))
insert_files-Outcome b now (f ∷ files) t = elim (Result-cases (row_of b now t.next_id f)) [
  | inl (row, stored) ↦
      rw (stored, insert_files)
        (extend-Outcome b now f row files t _ (row_of-Stores b now t.next_id f row stored) (
          insert_files-Outcome b now files
            (record { rows = t.rows ++ row ∷ []; next_id = suc t.next_id })))
  | inr (e, failed) ↦
      let (lacks, key) = row_of-raises b now t.next_id f e failed in
      rw (failed, insert_files) (key, (f, inl refl, lacks))
]

-- All files recorded, or one lacking a key and nothing changed.
abbrev pub AllOrNothing : ℕ → ℕ → List DataFile → Table → Table × Result ℕ → Type 0
AllOrNothing b now files t answer =
    ((new : List Row) × StoresAll b now t.next_id files new
      × (answer ≡ (
        record { rows = t.rows ++ new; next_id = t.next_id + length files },
        ok (length files),
      )))
    ⊎ (((f : DataFile) × In f files × Lacks f) × (answer ≡ (t, raise key_error)))

commit-AllOrNothing :
    (b now : ℕ) (files : List DataFile) (t : Table) (r : Result Table)
    → insert_files b now files t ≡ r
    → Outcome b now files t r
    → AllOrNothing b now files t (record_backtest_lineage b now files t)
unfolding record_backtest_lineage
commit-AllOrNothing b now files t (ok t') e (new, stored, same) =
    inl (new, stored, ground (arith, e, same))
commit-AllOrNothing b now files t (raise x) e (key, lacks) = inr (lacks, ground (arith, e, key))

-- Recording is atomic. Either every file has its three required keys, one row for each is added at
-- the end of the table, in order and with consecutive ids, and the answer is the number of files;
-- or some file lacks a key, `KeyError` is raised, and the table is as it was.
pub record_backtest_lineage-atomic :
    (b now : ℕ) (files : List DataFile) (t : Table)
    → AllOrNothing b now files t (record_backtest_lineage b now files t)
record_backtest_lineage-atomic b now files t =
    commit-AllOrNothing b now files t _ refl (insert_files-Outcome b now files t)

keep-none : (p : Row → Bool) (rows : List Row) → keep p (keep (λ r. not (p r)) rows) ≡ []
keep-none p [] = refl
keep-none p (r ∷ rows) = ground (arith, keep-none p rows)

keep-others :
    (b c : ℕ) (rows : List Row)
    → b ≢ c
    → keep
        (λ (r : Row). nat_beq r.backtest_id c)
        (keep (λ (r : Row). not (nat_beq r.backtest_id b)) rows)
      ≡ keep (λ (r : Row). nat_beq r.backtest_id c) rows
keep-others b c [] ne = refl
keep-others b c (r ∷ rows) ne = ground (arith, keep-others b c rows)

count-removed :
    (p : Row → Bool) (rows : List Row)
    → count_if p rows + length (keep (λ r. not (p r)) rows) ≡ length rows
count-removed p [] = refl
count-removed p (r ∷ rows) = ground (arith, count-removed p rows)

-- After a deletion the backtest has no lineage, every other backtest has the lineage it had, and the
-- answer is the number of rows that went.
pub delete_lineage-exact :
    (b : ℕ) (t : Table)
    → let (t', deleted) = delete_lineage b t in
      (get_lineage b t' ≡ raise key_error)
      × ((c : ℕ) → b ≢ c → get_lineage c t' ≡ get_lineage c t)
      × (deleted + length t'.rows ≡ length t.rows)
unfolding delete_lineage get_lineage sort
delete_lineage-exact b t =
    let p = λ (r : Row). nat_beq r.backtest_id b in
    (
      ap (λ rows. lineage_of b (sort row_leb rows)) (keep-none p t.rows),
      λ c ne. ap (λ rows. lineage_of c (sort row_leb rows)) (keep-others b c t.rows ne),
      count-removed p t.rows,
    )
