-- ===== src/Catalog/Invariant.antt =====
-- The well-formed catalogs: ids are distinct and below the counter, file paths are distinct.
use haru_quant_cbot.Prelude.{
  ℕ, suc, ◌≤◌, ◌<◌, ◌≡◌, ◌≢◌, refl, Bool, none, some, List, [], ◌∷◌, ◌++◌, keep, All, arith,
  if◌then◌else◌, nat_beq,
}
use haru_quant_cbot.Prelude.Text.{Text, text_beq_iff}
use haru_quant_cbot.Catalog.{Entry, Table, init_database, find_path, update_id}

-- The rows' ids, or paths, are distinct.
abbrev pub DistinctIds : List Entry → Type 0
DistinctIds [] = Unit
DistinctIds (r ∷ rows) = All (λ (q : Entry). q.id ≢ r.id) rows × DistinctIds rows

abbrev pub DistinctPaths : List Entry → Type 0
DistinctPaths [] = Unit
DistinctPaths (r ∷ rows) = (find_path r.file_path rows ≡ none) × DistinctPaths rows

pub record IsValid (t : Table) : Type 0 where
  pub ids_below : All (λ (r : Entry). r.id < t.next_id) t.rows
  pub distinct_ids : DistinctIds t.rows
  pub distinct_paths : DistinctPaths t.rows

-- A new catalog is well formed.
pub init_database-IsValid : IsValid init_database
unfolding init_database
init_database-IsValid = record { ids_below = tt; distinct_ids = tt; distinct_paths = tt }

-- A function on rows that keeps what the invariant speaks of.
abbrev pub Keeps : (Entry → Entry) → Type 0
Keeps f = (r : Entry) → ((f r).id ≡ r.id) × ((f r).file_path ≡ r.file_path)

All-weaken :
    (n m : ℕ) (rows : List Entry)
    → n ≤ m
    → All (λ (r : Entry). r.id < n) rows
    → All (λ (r : Entry). r.id < m) rows
All-weaken n m [] le h = tt
All-weaken n m (r ∷ rows) le h = (omega arith, All-weaken n m rows le h.1)

pub below_suc :
    (n : ℕ) (rows : List Entry)
    → All (λ (r : Entry). r.id < n) rows
    → All (λ (r : Entry). r.id < suc n) rows
below_suc n rows h = All-weaken n (suc n) rows (omega arith) h

pub below-append :
    (n : ℕ) (rows : List Entry) (e : Entry)
    → All (λ (r : Entry). r.id < n) rows
    → e.id < n
    → All (λ (r : Entry). r.id < n) (rows ++ e ∷ [])
below-append n [] e h k = (k, tt)
below-append n (r ∷ rows) e h k = (h.0, below-append n rows e h.1 k)

ne-append :
    (i : ℕ) (rows : List Entry) (e : Entry)
    → All (λ (q : Entry). q.id ≢ i) rows
    → e.id ≢ i
    → All (λ (q : Entry). q.id ≢ i) (rows ++ e ∷ [])
ne-append i [] e h k = (k, tt)
ne-append i (r ∷ rows) e h k = (h.0, ne-append i rows e h.1 k)

pub append-DistinctIds :
    (rows : List Entry) (e : Entry)
    → All (λ (r : Entry). r.id < e.id) rows
    → DistinctIds rows
    → DistinctIds (rows ++ e ∷ [])
append-DistinctIds [] e below h = (tt, tt)
append-DistinctIds (r ∷ rows) e below h =
    (ne-append r.id rows e h.0 (omega arith), append-DistinctIds rows e below.1 h.1)

-- A search for a path in a table with a new row at its end.
pub find_path-append :
    (path : Text) (rows : List Entry) (e : Entry)
    → find_path path (rows ++ e ∷ [])
      ≡ elim (find_path path rows) [ some r ↦ some r | none ↦ find_path path (e ∷ []) ]
unfolding find_path
find_path-append path [] e = refl
find_path-append path (r ∷ rows) e = ground (arith, find_path-append path rows e)

pub append-DistinctPaths :
    (rows : List Entry) (e : Entry)
    → find_path e.file_path rows ≡ none
    → DistinctPaths rows
    → DistinctPaths (rows ++ e ∷ [])
unfolding find_path
append-DistinctPaths [] e fresh h = (refl, tt)
append-DistinctPaths (r ∷ rows) e fresh h = ground (
  arith,
  find_path-append r.file_path rows e,
  text_beq_iff r.file_path e.file_path,
  text_beq_iff e.file_path r.file_path,
  append-DistinctPaths rows e,
)

module _ (f : Entry → Entry) (keeps : Keeps f) (id : ℕ) where
  pub update_id-below :
      (n : ℕ) (rows : List Entry)
      → All (λ (r : Entry). r.id < n) rows
      → All (λ (r : Entry). r.id < n) (update_id f id rows)
  unfolding update_id
  update_id-below n [] h = tt
  update_id-below n (r ∷ rows) h = ground (arith, keeps r, update_id-below n rows h.1)

  update_id-ne :
      (i : ℕ) (rows : List Entry)
      → All (λ (r : Entry). r.id ≢ i) rows
      → All (λ (r : Entry). r.id ≢ i) (update_id f id rows)
  unfolding update_id
  update_id-ne i [] h = tt
  update_id-ne i (r ∷ rows) h = ground (arith, keeps r, update_id-ne i rows h.1)

  pub update_id-DistinctIds :
      (rows : List Entry) → DistinctIds rows → DistinctIds (update_id f id rows)
  unfolding update_id
  update_id-DistinctIds [] h = tt
  update_id-DistinctIds (r ∷ rows) h =
      let same : (if nat_beq r.id id then f r else r).id ≡ r.id = ground (arith, keeps r) in
      (rw same (update_id-ne r.id rows h.0), update_id-DistinctIds rows h.1)

  -- The row that a search finds is the updated one, or the old one, by its id.
  pub find_path-update_id :
      (path : Text) (rows : List Entry)
      → find_path path (update_id f id rows) ≡ elim (find_path path rows) [
        | some r ↦ some (if nat_beq r.id id then f r else r)
        | none ↦ none
      ]
  unfolding find_path update_id
  find_path-update_id path [] = refl
  find_path-update_id path (r ∷ rows) = ground (arith, keeps r, find_path-update_id path rows)

  pub update_id-DistinctPaths :
      (rows : List Entry) → DistinctPaths rows → DistinctPaths (update_id f id rows)
  unfolding update_id
  update_id-DistinctPaths [] h = tt
  update_id-DistinctPaths (r ∷ rows) h =
      ground
        (arith, keeps r, find_path-update_id r.file_path rows, update_id-DistinctPaths rows h.1)

module _ (p : Entry → Bool) where
  pub keep-below :
      (n : ℕ) (rows : List Entry)
      → All (λ (r : Entry). r.id < n) rows
      → All (λ (r : Entry). r.id < n) (keep p rows)
  keep-below n [] h = tt
  keep-below n (r ∷ rows) h = ground (arith, keep-below n rows h.1)

  keep-ne :
      (i : ℕ) (rows : List Entry)
      → All (λ (r : Entry). r.id ≢ i) rows
      → All (λ (r : Entry). r.id ≢ i) (keep p rows)
  keep-ne i [] h = tt
  keep-ne i (r ∷ rows) h = ground (arith, keep-ne i rows h.1)

  pub keep-DistinctIds : (rows : List Entry) → DistinctIds rows → DistinctIds (keep p rows)
  keep-DistinctIds [] h = tt
  keep-DistinctIds (r ∷ rows) h = ground (arith, keep-ne r.id rows h.0, keep-DistinctIds rows h.1)

  keep-find_none :
      (path : Text) (rows : List Entry)
      → find_path path rows ≡ none
      → find_path path (keep p rows) ≡ none
  unfolding find_path
  keep-find_none path [] h = refl
  keep-find_none path (r ∷ rows) h = ground (arith, keep-find_none path rows)

  pub keep-DistinctPaths : (rows : List Entry) → DistinctPaths rows → DistinctPaths (keep p rows)
  keep-DistinctPaths [] h = tt
  keep-DistinctPaths (r ∷ rows) h =
      ground (arith, keep-find_none r.file_path rows h.0, keep-DistinctPaths rows h.1)
