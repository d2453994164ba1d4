-- ===== src/Manifest/Update.antt =====
-- `update`: what the manifest lists afterwards, and a second update.
use haru_quant_cbot.Prelude.{
  Bool, false, ◌⊎◌, ok, raise, file_not_found, ℕ, ◌+◌, ◌≡◌, ◌≢◌, inl, inr, refl, sym, ap, ◌∙◌, true,
  Option, some, List, [], ◌∷◌, map, In, In-map_iff, any_of_iff, option_beq_iff, Option-cases, arith,
}
use haru_quant_cbot.Prelude.Text.{Text, text_eq}
use haru_quant_cbot.Prelude.Dict.{Dict, lookup, contains, lookup-insert}
use haru_quant_cbot.Catalog.{Entry, Table}
use haru_quant_cbot.Manifest.{
  Changes, FileInfo, Folder, Manifest, Key, key, key_eq, same_key, file_info, file_map,
  catalog_entries, existing_files, count_changes, preserve, update, updated_manifest,
}
use haru_quant_cbot.Manifest.Maps.{
  or_else, file_map-IsKeyed, file_map-IsDistinct, file_map-found, contains-file_map,
  lookup-preserve,
}

-- What the manifest at a path lists under a key.
unfoldable pub listed : Text → Key → Folder → Option FileInfo
unfolding existing_files
listed path k folder = lookup k (existing_files path folder)

-- What the catalog holds under a key.
unfoldable pub in_catalog : Key → Table → Option FileInfo
in_catalog k t = lookup k (file_map (map file_info (catalog_entries t)))

lookup-preserved :
    (path : Text) (folder : Folder) (k : Key) (files : List FileInfo)
    → lookup k (file_map (preserve files (existing_files path folder)))
      ≡ or_else (lookup k (file_map files)) (listed path k folder)
unfolding listed existing_files
lookup-preserved path folder k files = elim (Option-cases (lookup path folder)) [
  | inl absent ↦ rw (absent, existing_files) (lookup-preserve k files [] tt tt)
  | inr (m, e) ↦
      rw (e, existing_files)
        (lookup-preserve k files (file_map m.files) (file_map-IsKeyed m.files)
          (file_map-IsDistinct m.files))
]

listed-at :
    (path : Text) (k : Key) (folder : Folder) (m : Manifest)
    → lookup path folder ≡ some m
    → listed path k folder ≡ lookup k (file_map m.files)
unfolding listed existing_files
listed-at path k folder m h = rw (h, existing_files) refl

-- The manifest that an update leaves at the path.
abbrev left : Table → ℕ → Text → Text → Folder → Manifest
left t now path hqt_version folder = updated_manifest t now hqt_version (existing_files path folder)

update-leaves :
    (t : Table) (now : ℕ) (path hqt_version : Text) (folder : Folder)
    → lookup path (update true t now path hqt_version folder).0
      ≡ some (left t now path hqt_version folder)
unfolding update
update-leaves t now path hqt_version folder = ground (
  arith,
  lookup-insert path path (left t now path hqt_version folder) folder,
  text_eq.beq_iff path path,
)

lists-after :
    (t : Table) (now : ℕ) (path hqt_version : Text) (folder : Folder) (k : Key)
    → listed path k (update true t now path hqt_version folder).0
      ≡ or_else (in_catalog k t) (listed path k folder)
unfolding in_catalog updated_manifest
lists-after t now path hqt_version folder k =
    listed-at path k (update true t now path hqt_version folder).0
      (left t now path hqt_version folder) (update-leaves t now path hqt_version folder)
    ∙ lookup-preserved path folder k (map file_info (catalog_entries t))

-- Where the directory of its path is there, an update succeeds, and the manifest then lists under each
-- key the last file that the catalog has there, or else what it listed before; the other manifests
-- stay as they are. Where the directory is missing, a FileNotFoundError is raised and every manifest
-- stays as it is.
pub update-keeps_history :
    (has_directory : Bool) (t : Table) (now : ℕ) (path hqt_version : Text) (folder : Folder)
    → let (folder', answer) = update has_directory t now path hqt_version folder in
      ((has_directory ≡ true)
        × ((changes : Changes) × (answer ≡ ok changes))
        × ((k : Key) → listed path k folder' ≡ or_else (in_catalog k t) (listed path k folder))
        × ((other : Text) → path ≢ other → lookup other folder' ≡ lookup other folder))
      ⊎ ((has_directory ≡ false) × (answer ≡ raise file_not_found) × (folder' ≡ folder))
unfolding update in_catalog updated_manifest
update-keeps_history true t now path hqt_version folder = inl (
  refl,
  (_, refl),
  lists-after t now path hqt_version folder,
  λ other h. ground (
    arith,
    lookup-insert path other (left t now path hqt_version folder) folder,
    text_eq.beq_iff path other,
  ),
)
update-keeps_history false t now path hqt_version folder = inr (refl, refl, refl)

count_changes-none :
    (old : Dict Key FileInfo) (entries : List Entry) (added updated : ℕ)
    → ((e : Entry) → In e entries → lookup (key (file_info e)) old ≡ some (file_info e))
    → count_changes old entries added updated ≡ (added, updated)
unfolding count_changes
count_changes-none old [] added updated h = refl
count_changes-none old (e ∷ entries) added updated h = ground (
  arith,
  h e (inl refl),
  (option_beq_iff e.version_hash e.version_hash).1 refl,
  count_changes-none old entries added (updated + 0) (λ d i. h d (inr i)),
)

-- The catalog has one entry under each key.
abbrev pub OneEach : Table → Type 0
OneEach t =
    (d e : Entry)
    → In d (catalog_entries t)
    → In e (catalog_entries t)
    → key (file_info d) ≡ key (file_info e)
    → d ≡ e

in_catalog-entry :
    (t : Table)
    → OneEach t
    → (e : Entry) → In e (catalog_entries t)
    → in_catalog (key (file_info e)) t ≡ some (file_info e)
unfolding in_catalog same_key
in_catalog-entry t one e i = elim (Option-cases (lookup (key (file_info e)) (file_map infos))) [
  | inl absent ↦ ground (arith, absent, listed_key)
  | inr (f, there) ↦
      let (j, k) = file_map-found (key (file_info e)) f infos there in
      let (d, m, eq) = (In-map_iff file_info f (catalog_entries t)).0 j in
      there ∙ ap some (eq ∙ ap file_info (one d e m i (sym (ap key eq) ∙ k)))
]
  where
    infos : List FileInfo
    infos = map file_info (catalog_entries t)

    listed_key : contains (key (file_info e)) (file_map infos) ≡ true
    listed_key =
        contains-file_map (key (file_info e)) infos
        ∙ (any_of_iff (λ g. same_key (key g) (key (file_info e))) infos).1 (
          file_info e,
          (In-map_iff file_info (file_info e) (catalog_entries t)).1 (e, i, refl),
          (key_eq.beq_iff (key (file_info e)) (key (file_info e))).1 refl,
        )

-- If the catalog has one entry under each key, a second update of the same manifest finds nothing
-- added and nothing updated.
pub update-again :
    (t : Table) (now later : ℕ) (path hqt_version newer_version : Text) (folder : Folder)
    → OneEach t
    → let folder' = (update true t now path hqt_version folder).0 in
      (changes : Changes) × ((update true t later path newer_version folder').1 ≡ ok changes)
      × (changes.added ≡ 0)
      × (changes.updated ≡ 0)
unfolding update listed
update-again t now later path hqt_version newer_version folder one =
    (_, refl, ap (λ (p : ℕ × ℕ). p.0) nothing, ap (λ (p : ℕ × ℕ). p.1) nothing)
  where
    folder' : Folder
    folder' = (update true t now path hqt_version folder).0

    known :
        (e : Entry)
        → In e (catalog_entries t)
        → lookup (key (file_info e)) (existing_files path folder') ≡ some (file_info e)
    known e i =
        lists-after t now path hqt_version folder (key (file_info e))
        ∙ ap (λ o. or_else o (listed path (key (file_info e)) folder)) (in_catalog-entry t one e i)

    nothing : count_changes (existing_files path folder') (catalog_entries t) 0 0 ≡ (0, 0)
    nothing = count_changes-none (existing_files path folder') (catalog_entries t) 0 0 known
