-- ===== src/Manifest/Compare.antt =====
-- `diff`.
use haru_quant_cbot.Prelude.{
  ◌+◌, ◌≡◌, ◌↔◌, inl, inr, refl, Option, none, some, [], ◌∷◌, length, ◌≢◌, option_beq_iff, In,
  Option-cases, ok, arith,
}
use haru_quant_cbot.Prelude.Text.{Text, text_eq}
use haru_quant_cbot.Prelude.Dict.{Dict, lookup, IsDistinct}
use haru_quant_cbot.Manifest.{Folder, Manifest, file_map, FileInfo, Key, key, key_eq}
use haru_quant_cbot.Manifest.Difference.{Modified, Diff, diff, load, only_in, compare}
use haru_quant_cbot.Manifest.Maps.{file_map-IsKeyed, file_map-IsDistinct, IsKeyed}

only_in-exact :
    (f : FileInfo) (d other : Dict Key FileInfo)
    → IsKeyed d
    → IsDistinct d
    → In f (only_in d other) ↔ ((lookup (key f) d ≡ some f) × (lookup (key f) other ≡ none))
unfolding only_in lookup
only_in-exact f [] other keyed distinct = ground arith
only_in-exact f ((k, g) ∷ d) other keyed distinct = ground (
  arith,
  only_in-exact f d other keyed.1 distinct.1,
  key_eq.beq_iff k (key f),
  keyed.0,
  distinct.0,
)

compare-counts :
    (files1 files2 : Dict Key FileInfo)
    → let (modified, unchanged) = compare files1 files2 in
      length (only_in files2 files1) + length modified + unchanged ≡ length files2
unfolding only_in compare
compare-counts files1 [] = refl
compare-counts files1 ((k, f2) ∷ files2) = elim (Option-cases (lookup k files1)) [
  | inl absent ↦ ground (arith, absent, compare-counts files1 files2)
  | inr (f1, e) ↦ ground (arith, e, compare-counts files1 files2)
]

abbrev pub hash_of : Option FileInfo → Option (Option Text)
hash_of none = none
hash_of (some f) = some f.version_hash

-- What an element of `modified` says: the file under its key in the second map, whose hash is not
-- that of the file under the same key in the first, and both hashes.
abbrev pub IsModified : Dict Key FileInfo → Dict Key FileInfo → Modified → Type 0
IsModified files1 files2 x =
    (lookup (key x.file) files2 ≡ some x.file)
    × (x.new_hash ≡ x.file.version_hash)
    × (hash_of (lookup (key x.file) files1) ≡ some x.old_hash)
    × (x.old_hash ≢ x.new_hash)

compare-exact :
    (x : Modified) (files1 files2 : Dict Key FileInfo)
    → IsKeyed files2
    → IsDistinct files2
    → In x (compare files1 files2).0 ↔ IsModified files1 files2 x
unfolding compare lookup
compare-exact x files1 [] keyed distinct = ground arith
compare-exact x files1 ((k, f2) ∷ files2) keyed distinct = elim (Option-cases (lookup k files1)) [
  | inl absent ↦ ground (
    arith,
    absent,
    compare-exact x files1 files2 keyed.1 distinct.1,
    key_eq.beq_iff k (key x.file),
    keyed.0,
    distinct.0,
  )
  | inr (f1, e) ↦ ground (
    arith,
    e,
    compare-exact x files1 files2 keyed.1 distinct.1,
    key_eq.beq_iff k (key x.file),
    keyed.0,
    distinct.0,
    option_beq_iff f1.version_hash f2.version_hash,
  )
]

-- Of two manifests that are there, `diff` lists as added exactly the files of the second whose key
-- the first does not have, as removed those of the first whose key the second does not have, and as
-- modified the common keys with different hashes, with both; added, modified and unchanged are
-- together as many as the keys of the second.
pub diff-exact :
    (path1 path2 : Text) (folder : Folder) (m1 m2 : Manifest)
    → lookup path1 folder ≡ some m1
    → lookup path2 folder ≡ some m2
    → let files1 = file_map m1.files in
      let files2 = file_map m2.files in
      (d : Diff) × (diff path1 path2 folder ≡ ok d)
      × ((f : FileInfo)
          → In f d.added ↔ ((lookup (key f) files2 ≡ some f) × (lookup (key f) files1 ≡ none)))
      × ((f : FileInfo)
          → In f d.removed ↔ ((lookup (key f) files1 ≡ some f) × (lookup (key f) files2 ≡ none)))
      × ((x : Modified) → In x d.modified ↔ IsModified files1 files2 x)
      × (length d.added + length d.modified + d.unchanged ≡ length files2)
unfolding diff load
diff-exact path1 path2 folder m1 m2 there1 there2 = (
  d,
  rw (there1, there2, diff, load) refl,
  λ f. only_in-exact f files2 files1 (file_map-IsKeyed m2.files) (file_map-IsDistinct m2.files),
  λ f. only_in-exact f files1 files2 (file_map-IsKeyed m1.files) (file_map-IsDistinct m1.files),
  λ x. compare-exact x files1 files2 (file_map-IsKeyed m2.files) (file_map-IsDistinct m2.files),
  compare-counts files1 files2,
)
  where
    files1 : Dict Key FileInfo
    files1 = file_map m1.files

    files2 : Dict Key FileInfo
    files2 = file_map m2.files

    d : Diff
    d = record {
      added = only_in files2 files1;
      removed = only_in files1 files2;
      modified = (compare files1 files2).0;
      unchanged = (compare files1 files2).1;
    }
