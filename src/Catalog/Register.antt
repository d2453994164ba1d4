-- ===== src/Catalog/Register.antt =====
-- What `register_file` leaves in the catalog.
use haru_quant_cbot.Prelude.{
  ◌⊎◌, ℕ, suc, ◌≡◌, ◌≢◌, refl, Option, none, some, List, [], ◌∷◌, ◌++◌, length, length-append, All,
  In, arith, Option-cases, inl, inr, sym, ap, ◌∙◌,
}
use haru_quant_cbot.Prelude.Text.{Text, text_beq_iff}
use haru_quant_cbot.Catalog.{
  timeframe_str, Entry, Table, Registration, Machine, find_path, refreshed, created, update_id,
  stored_size, register_file,
}
use haru_quant_cbot.Catalog.Invariant.{
  DistinctIds, IsValid, below_suc, below-append, append-DistinctIds, find_path-append,
  append-DistinctPaths, update_id-below, update_id-DistinctIds, find_path-update_id,
  update_id-DistinctPaths,
}

-- A row that a search finds has the path, and stands in the table.
pub find_path-some :
    (path : Text) (rows : List Entry) (r : Entry)
    → find_path path rows ≡ some r
    → (r.file_path ≡ path) × In r rows
unfolding find_path
find_path-some path [] r h = cc
find_path-some path (q ∷ rows) r h =
    ground (arith, text_beq_iff q.file_path path, find_path-some path rows r)

id-ne :
    (rows : List Entry) (i : ℕ) (b : Entry)
    → All (λ (q : Entry). q.id ≢ i) rows
    → In b rows
    → b.id ≢ i
id-ne [] i b h j = absurd j
id-ne (r ∷ rows) i b h (inl e) = ground (arith, ap (λ (q : Entry). q.id) e)
id-ne (r ∷ rows) i b h (inr j) = id-ne rows i b h.1 j

-- Among distinct ids a row is known by its id.
ids-eq :
    (rows : List Entry) (a b : Entry)
    → DistinctIds rows
    → In a rows
    → In b rows
    → a.id ≡ b.id
    → a ≡ b
ids-eq [] a b d i j e = absurd i
ids-eq (r ∷ rows) a b d (inl p) (inl q) e = p ∙ sym q
ids-eq (r ∷ rows) a b d (inl p) (inr j) e =
    absurd (id-ne rows r.id b d.0 j (sym e ∙ ap (λ (q : Entry). q.id) p))
ids-eq (r ∷ rows) a b d (inr i) (inl q) e =
    absurd (id-ne rows r.id a d.0 i (e ∙ ap (λ (q : Entry). q.id) q))
ids-eq (r ∷ rows) a b d (inr i) (inr j) e = ids-eq rows a b d.1 i j e

length-update_id :
    (f : Entry → Entry) (id : ℕ) (rows : List Entry) → length (update_id f id rows) ≡ length rows
unfolding update_id
length-update_id f id [] = refl
length-update_id f id (r ∷ rows) = ap suc (length-update_id f id rows)

module _ (m : Machine) (a : Registration) (t : Table) where
  abbrev path : Text
  path = m.absolute a.file_path

  abbrev size : Option ℕ
  size = stored_size m path a.file_size_bytes

  abbrev update : Entry → Entry
  update = refreshed a size m.now

  register_file_new :
      find_path path t.rows ≡ none
      → register_file m a t ≡ (
        record {
          rows = t.rows ++ created a size m.now t.next_id path ∷ [];
          next_id = suc t.next_id;
        },
        t.next_id,
      )
  unfolding register_file
  register_file_new fresh = rw (fresh, register_file)

  register_file_known :
      (old : Entry)
      → find_path path t.rows ≡ some old
      → register_file m a t ≡ (record t { rows = update_id update old.id t.rows }, old.id)
  unfolding register_file
  register_file_known old found = rw (found, register_file)

  -- Registration keeps the catalog well formed: no id and no file path ever stands twice.
  pub register_file-IsValid : IsValid t → IsValid (register_file m a t).0
  register_file-IsValid v = elim (Option-cases (find_path path t.rows)) [
    | inl fresh ↦
        let e = created a size m.now t.next_id path in
        rw (register_file_new fresh) (record {
          ids_below =
              below-append (suc t.next_id) t.rows e (below_suc t.next_id t.rows v.ids_below)
                (omega arith);
          distinct_ids = append-DistinctIds t.rows e v.ids_below v.distinct_ids;
          distinct_paths = append-DistinctPaths t.rows e fresh v.distinct_paths;
        })
    | inr (old, found) ↦ rw (register_file_known old found) (record {
      ids_below = update_id-below update (λ r. (refl, refl)) old.id t.next_id t.rows v.ids_below;
      distinct_ids = update_id-DistinctIds update (λ r. (refl, refl)) old.id t.rows v.distinct_ids;
      distinct_paths =
          update_id-DistinctPaths update (λ r. (refl, refl)) old.id t.rows v.distinct_paths;
    })
  ]

  -- A row with all that the registration says, at the time of the registration.
  pub record HasArguments (row : Entry) : Type 0 where
    pub is_path : row.file_path ≡ path
    pub is_symbol : row.symbol ≡ a.symbol
    pub is_timeframe : row.timeframe ≡ timeframe_str a.timeframe
    pub is_partition : row.partition ≡ a.partition
    pub is_format : row.storage_format ≡ a.storage_format
    pub is_count : row.row_count ≡ a.row_count
    pub is_first : row.min_timestamp ≡ a.min_timestamp
    pub is_last : row.max_timestamp ≡ a.max_timestamp
    pub is_source : row.data_source ≡ a.data_source
    pub is_hash : row.version_hash ≡ a.version_hash
    pub is_size :
        row.file_size_bytes
        ≡ (elim a.file_size_bytes [ none ↦ m.size_of path | some size ↦ some size ])
    pub is_updated : row.updated_at ≡ m.now

  size_is : size ≡ (elim a.file_size_bytes [ none ↦ m.size_of path | some n ↦ some n ])
  size_is = elim (Option-cases a.file_size_bytes) [
    | inl e ↦ ground (arith, e)
    | inr (n, e) ↦ ground (arith, e)
  ]

  created-HasArguments : HasArguments (created a size m.now t.next_id path)
  created-HasArguments = record {
    is_path = refl;
    is_symbol = refl;
    is_timeframe = refl;
    is_partition = refl;
    is_format = refl;
    is_count = refl;
    is_first = refl;
    is_last = refl;
    is_source = refl;
    is_hash = refl;
    is_size = size_is;
    is_updated = refl;
  }

  refreshed-HasArguments : (old : Entry) → old.file_path ≡ path → HasArguments (update old)
  refreshed-HasArguments old same = record {
    is_path = same;
    is_symbol = refl;
    is_timeframe = refl;
    is_partition = refl;
    is_format = refl;
    is_count = refl;
    is_first = refl;
    is_last = refl;
    is_source = refl;
    is_hash = refl;
    is_size = size_is;
    is_updated = refl;
  }

  -- After a registration the search for the file's absolute path finds a row with every argument of the
  -- registration, its size and its time, under the id that is returned. Where the path is new, the row
  -- has the next id and is created and downloaded now, and the table is longer by one; a known file
  -- keeps its id, its creation and its download time, and the table its length.
  pub register_file-upserts :
      let (t', id) = register_file m a t in
      (row : Entry) × (find_path path t'.rows ≡ some row)
      × (id ≡ row.id)
      × HasArguments row
      × (((find_path path t.rows ≡ none)
            × (row.id ≡ t.next_id)
            × (row.created_at ≡ m.now)
            × (row.download_timestamp ≡ m.now)
            × (length t'.rows ≡ suc (length t.rows)))
          ⊎ ((old : Entry) × (find_path path t.rows ≡ some old)
              × (row.id ≡ old.id)
              × (row.created_at ≡ old.created_at)
              × (row.download_timestamp ≡ old.download_timestamp)
              × (length t'.rows ≡ length t.rows)))
  unfolding find_path
  register_file-upserts = elim (Option-cases (find_path path t.rows)) [
    | inl fresh ↦
        let e = created a size m.now t.next_id path in
        (
          e,
          ground (
            arith,
            fresh,
            register_file_new fresh,
            find_path-append path t.rows e,
            text_beq_iff path path,
          ),
          ap (λ r. r.1) (register_file_new fresh),
          created-HasArguments,
          inl (
            fresh,
            refl,
            refl,
            refl,
            ap (λ r. length r.0.rows) (register_file_new fresh)
                ∙ omega (arith, length-append t.rows (e ∷ [])),
          ),
        )
    | inr (old, found) ↦ (
      update old,
      ground (
        arith,
        found,
        register_file_known old found,
        find_path-update_id update (λ r. (refl, refl)) old.id path t.rows,
      ),
      ap (λ r. r.1) (register_file_known old found),
      refreshed-HasArguments old (find_path-some path t.rows old found).0,
      inr (
        old,
        found,
        refl,
        refl,
        refl,
        ap (λ r. length r.0.rows) (register_file_known old found)
            ∙ length-update_id update old.id t.rows,
      ),
    )
  ]

  other_id :
      {q : Text}
      → DistinctIds t.rows
      → q ≢ path
      → (old : Entry) → find_path path t.rows ≡ some old
      → (r : Entry) → find_path q t.rows ≡ some r
      → r.id ≢ old.id
  other_id {q} d ne old found r h e =
      let (r_path, r_in) = find_path-some q t.rows r h in
      let (old_path, old_in) = find_path-some path t.rows old found in
      let same = ids-eq t.rows r old d r_in old_in e in
      ne (sym r_path ∙ ap (λ (x : Entry). x.file_path) same ∙ old_path)

  -- A registration changes no row of another path.
  pub register_file-others :
      (q : Text)
      → IsValid t
      → q ≢ path
      → find_path q (register_file m a t).0.rows ≡ find_path q t.rows
  unfolding find_path
  register_file-others q v ne = elim (Option-cases (find_path path t.rows)) [
    | inl fresh ↦
        let e = created a size m.now t.next_id path in
        ground (arith, register_file_new fresh, find_path-append q t.rows e, text_beq_iff path q)
    | inr (old, found) ↦
        let searched = find_path-update_id update (λ r. (refl, refl)) old.id q t.rows in
        elim (Option-cases (find_path q t.rows)) [
          | inl absent ↦ ground (arith, register_file_known old found, searched)
          | inr (r, there) ↦ ground (
            arith,
            register_file_known old found,
            searched,
            other_id v.distinct_ids ne old found r there,
          )
        ]
  ]
