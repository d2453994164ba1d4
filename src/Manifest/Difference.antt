-- ===== src/Manifest/Difference.antt =====
-- `DataManifest.diff` of src/hqt/data/versioning/manifest.py, over the file maps.
use haru_quant_cbot.Prelude.Dict.{contains, lookup, Dict}
use haru_quant_cbot.Prelude.{
  [], ◌∷◌, none, some, ◌+◌, option_beq, not, file_not_found, if◌then◌else◌, raise, ok, ◌>>=◌, ℕ,
  Option, List, Result,
}
use haru_quant_cbot.Manifest.{file_map, FileInfo, Folder, Manifest, Key, key_eq}
use haru_quant_cbot.Prelude.Text.{Text, text_eq}

-- An element of `modified`.
pub record Modified : Type 0 where
  pub file : FileInfo
  pub old_hash : Option Text
  pub new_hash : Option Text

pub record Diff : Type 0 where
  pub added : List FileInfo
  pub removed : List FileInfo
  pub modified : List Modified
  pub unchanged : ℕ

-- `[d[k] for k in (keys(d) - keys(other))]`; of the orders of a set the one of the dict is taken.
unfoldable pub only_in : Dict Key FileInfo → Dict Key FileInfo → List FileInfo
only_in [] other = []
only_in ((k, f) ∷ d) other = if contains k other then only_in d other else f ∷ only_in d other

-- The loop over the common keys.
unfoldable pub compare : Dict Key FileInfo → Dict Key FileInfo → List Modified × ℕ
compare files1 [] = ([], 0)
compare files1 ((k, f2) ∷ files2) =
    let (modified, unchanged) = compare files1 files2 in
    elim (lookup k files1) [
      | none ↦ (modified, unchanged)
      | some f1 ↦
          if not (option_beq f1.version_hash f2.version_hash)
          then (
            record { file = f2; old_hash = f1.version_hash; new_hash = f2.version_hash } ∷ modified,
            unchanged,
          )
          else (modified, unchanged + 1)
    ]

unfoldable pub load : Text → Folder → Result Manifest
load path folder = elim (lookup path folder) [
  | none ↦ raise file_not_found
  | some manifest ↦ ok manifest
]

unfoldable pub diff : Text → Text → Folder → Result Diff
unfolding load file_map only_in compare
diff manifest1_path manifest2_path folder = do
  manifest1 ← load manifest1_path folder
  manifest2 ← load manifest2_path folder
  let files1 = file_map manifest1.files
  let files2 = file_map manifest2.files
  let (modified, unchanged) = compare files1 files2
  ok (record {
    added = only_in files2 files1;
    removed = only_in files1 files2;
    modified = modified;
    unchanged = unchanged;
  })
