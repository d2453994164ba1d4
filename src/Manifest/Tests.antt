-- ===== src/Manifest/Tests.antt =====
-- Concrete manifests of a catalog with one row.
use haru_quant_cbot.Prelude.Sort.{place, sort}
use haru_quant_cbot.Manifest.Compare.{diff-exact, IsModified}
use haru_quant_cbot.Manifest.Check.{verify-exact, verify-generate, Intact}
use haru_quant_cbot.Manifest.Maps.{or_else}
use haru_quant_cbot.Prelude.{
  raise, file_not_found, ok, false, pair_beq, option_beq, ◌+◌, refl, ◌⊎◌, ◌≢◌, length, ◌↔◌, In,
  false, ◌≡◌, some, true, arith, none, ok, [],
}
use haru_quant_cbot.Manifest.Update.{update-keeps_history, in_catalog, listed, OneEach}
use haru_quant_cbot.Prelude.Text.{str, text_beq, Text}
use haru_quant_cbot.Prelude.Dict.{insert, lookup}
use haru_quant_cbot.Hasher.{Bytes, Disk}
use haru_quant_cbot.Catalog.{selects, query_available, Table, Entry}
use haru_quant_cbot.Manifest.{
  Changes, key_eq, total_size, same_key, file_map_from, preserve, key, Key, existing_files, text_eq,
  ◌∷◌, file_info, Folder, file_map, update, FileInfo, Manifest, updated_manifest, generate,
  catalog_entries,
}
use haru_quant_cbot.Manifest.Difference.{Modified, diff, Diff}
use haru_quant_cbot.Manifest.Verification.{manifest_not_found, verify}

abbrev row : Entry
row = record {
  id = 1;
  symbol = str "EU";
  timeframe = some (str "H1");
  partition = str "2024";
  file_path = str "b";
  storage_format = str "parquet";
  row_count = 10;
  min_timestamp = 5;
  max_timestamp = 50;
  data_source = none;
  download_timestamp = 60;
  version_hash = some (9 ∷ []);
  file_size_bytes = some 1;
  created_at = 60;
  updated_at = 60;
}

abbrev catalog : Table
catalog = record { rows = row ∷ []; next_id = 2 }

abbrev gone : FileInfo
gone = record (file_info row) { partition = str "2023"; file_path = str "z" }

-- A manifest with the row's file under another hash, and a file that the catalog does not have.
abbrev old_manifest : Manifest
old_manifest = record {
  generated_at = 40;
  hqt_version = str "1";
  total_files = 2;
  total_size_bytes = 2;
  files = gone ∷ record (file_info row) { version_hash = none } ∷ [];
}

abbrev new_manifest : Manifest
new_manifest = record {
  generated_at = 70;
  hqt_version = str "1";
  total_files = 1;
  total_size_bytes = 1;
  files = file_info row ∷ [];
}

abbrev folder : Folder
folder = (str "o", old_manifest) ∷ (str "n", new_manifest) ∷ []

abbrev disk : Disk
disk = record { exists = λ p. text_beq p (str "b"); content = λ p. ok (9 ∷ []) }

abbrev show : Bytes → Text
show bytes = bytes

-- The size counts the catalog's file only, and the number of files all of them.
updated-size : updated_manifest catalog 80 (str "1") (existing_files (str "o") folder) ≡ record {
  generated_at = 80;
  hqt_version = str "1";
  total_files = 2;
  total_size_bytes = 1;
  files = file_info row ∷ gone ∷ [];
}
unfolding updated_manifest existing_files preserve catalog_entries query_available selects sort
    place lookup text_beq insert file_map_from file_map same_key option_beq pair_beq total_size
updated-size = refl

one_each : OneEach catalog
unfolding catalog_entries query_available selects sort place
one_each d e i j k = ground arith

update-keeps_history_example :
    let (folder', answer) = update true catalog 80 (str "o") (str "1") folder in
    ((true ≡ true)
      × ((changes : Changes) × (answer ≡ ok changes))
      × ((k : Key)
          → listed (str "o") k folder' ≡ or_else (in_catalog k catalog) (listed (str "o") k folder))
      × ((other : Text) → str "o" ≢ other → lookup other folder' ≡ lookup other folder))
    ⊎ ((true ≡ false) × (answer ≡ raise file_not_found) × (folder' ≡ folder))
update-keeps_history_example = update-keeps_history true catalog 80 (str "o") (str "1") folder

verify-exact_example :
    let verdict = verify show disk (str "o") true folder in
    ((lookup (str "o") folder ≡ none)
      × (verdict.valid ≡ false)
      × (verdict.issues ≡ manifest_not_found (str "o") ∷ []))
    ⊎ ((m : Manifest) × (lookup (str "o") folder ≡ some m)
        × ((verdict.valid ≡ true) ↔ ((f : FileInfo) → In f m.files → Intact show disk true f))
        × (verdict.verified_files + length verdict.issues ≡ length m.files)
        × (verdict.total_files ≡ length m.files))
verify-exact_example = verify-exact show disk (str "o") true folder

verify-generate_example :
    let (folder', summary) = generate catalog 80 (str "g") (str "1") folder in
    let verdict = verify show disk (str "g") true folder' in
    ((verdict.valid ≡ true)
      ↔ ((e : Entry) → In e (catalog_entries catalog) → Intact show disk true (file_info e)))
    × (verdict.total_files ≡ length (catalog_entries catalog))
    × (summary.total_files ≡ length (catalog_entries catalog))
verify-generate_example = verify-generate show disk catalog 80 (str "g") (str "1") folder true

at_o : lookup (str "o") folder ≡ some old_manifest
unfolding lookup text_beq
at_o = refl

at_n : lookup (str "n") folder ≡ some new_manifest
unfolding lookup text_beq
at_n = refl

diff-exact_example :
    let files1 = file_map old_manifest.files in
    let files2 = file_map new_manifest.files in
    (d : Diff) × (diff (str "o") (str "n") folder ≡ ok d)
    × ((f : FileInfo)
        → In f d.added ↔ ((lookup (key f) files2 ≡ some f) × (lookup (key f) files1 ≡ none)))
    × ((f : FileInfo)
        → In f d.removed ↔ ((lookup (key f) files1 ≡ some f) × (lookup (key f) files2 ≡ none)))
    × ((x : Modified) → In x d.modified ↔ IsModified files1 files2 x)
    × (length d.added + length d.modified + d.unchanged ≡ length files2)
diff-exact_example = diff-exact (str "o") (str "n") folder old_manifest new_manifest at_o at_n
