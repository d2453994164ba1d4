-- ===== src/Manifest/Verification.antt =====
-- `DataManifest.verify` of src/hqt/data/versioning/manifest.py, with the files and SHA-256 of `Hasher`.
use haru_quant_cbot.Prelude.Dict.{lookup}
use haru_quant_cbot.Prelude.{
  raise, ok, some, true, length, nat_beq, ◌++◌, [], not, false, ◌+◌, ◌∷◌, none, if◌then◌else◌, ℕ,
  Option, List, Error, Bool,
}
use haru_quant_cbot.Hasher.{verify_file_hash, Disk, Bytes}
use haru_quant_cbot.Manifest.{FileInfo, Folder, key_eq}
use haru_quant_cbot.Prelude.Text.{Text, text_eq}

-- What a message in `issues` says.
pub data Issue : Type 0 where
  manifest_not_found : Text → Issue
  missing_file hash_mismatch : FileInfo → Issue
  verification_failed : FileInfo → Error → Issue

pub record Verdict : Type 0 where
  pub valid : Bool
  pub issues : List Issue
  pub verified_files : ℕ
  pub total_files : ℕ
  pub manifest_generated_at : Option ℕ

module _ (hexdigest : Bytes → Text) (disk : Disk) where
  -- The second check, which a missing or an empty hash skips.
  unfoldable pub check_hash : FileInfo → Bool → Option Text → Option Issue
  check_hash f false hash = none
  check_hash f true none = none
  check_hash f true (some []) = none
  check_hash f true (some (c ∷ cs)) = elim (verify_file_hash hexdigest disk f.file_path (c ∷ cs)) [
    | ok same ↦ if not same then some (hash_mismatch f) else none
    | raise e ↦ some (verification_failed f e)
  ]

  -- A round of the loop: the issue it appends, or none if it counts the file as verified.
  unfoldable pub check_file : Bool → FileInfo → Option Issue
  unfolding check_hash
  check_file check_hashes f =
      if not (disk.exists f.file_path)
      then some (missing_file f)
      else check_hash f check_hashes f.version_hash

  unfoldable pub check_files : Bool → List FileInfo → List Issue → ℕ → List Issue × ℕ
  check_files check_hashes [] issues verified = (issues, verified)
  check_files check_hashes (f ∷ files) issues verified = elim (check_file check_hashes f) [
    | none ↦ check_files check_hashes files issues (verified + 1)
    | some issue ↦ check_files check_hashes files (issues ++ issue ∷ []) verified
  ]

  unfoldable pub verify : Text → Bool → Folder → Verdict
  verify manifest_path check_hashes folder = elim (lookup manifest_path folder) [
    | none ↦ record {
      valid = false;
      issues = manifest_not_found manifest_path ∷ [];
      verified_files = 0;
      total_files = 0;
      manifest_generated_at = none;
    }
    | some manifest ↦
        let (issues, verified) = check_files check_hashes manifest.files [] 0 in
        record {
          valid = nat_beq (length issues) 0;
          issues = issues;
          verified_files = verified;
          total_files = length manifest.files;
          manifest_generated_at = some manifest.generated_at;
        }
  ]
