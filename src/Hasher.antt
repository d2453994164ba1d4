-- ===== src/Hasher.antt =====
-- The functions of src/hqt/data/versioning/hasher.py over bytes and files. SHA-256 is a parameter:
-- a hash object is the bytes fed to it so far, and `hexdigest` is a function of these.
pub mod Chunks
mod Tests
use haru_quant_cbot.Prelude.{
  ℕ, zero, suc, Bool, List, [], ◌∷◌, ◌++◌, length, take, drop, Result, ok, raise, file_not_found,
  ◌>>=◌, if◌then◌else◌,
}
use haru_quant_cbot.Prelude.Text.{Text, text_beq}

abbrev pub Bytes : Type 0
Bytes = List ℕ

-- The files: which paths exist, and what opening and reading one gives.
pub record Disk : Type 0 where
  pub exists : Text → Bool
  pub content : Text → Result Bytes

-- `while True: chunk = f.read(chunk_size); if not chunk: break; sha256.update(chunk)`, from the rest
-- of the file and the bytes fed so far. Each round but the last reads a byte, so the length of the
-- rest and one are fuel enough.
unfoldable pub feed : ℕ → ℕ → Bytes → Bytes → Bytes
feed zero chunk_size rest fed = fed
feed (suc fuel) chunk_size rest fed = elim (take chunk_size rest) [
  | [] ↦ fed
  | b ∷ bs ↦ feed fuel chunk_size (drop chunk_size rest) (fed ++ b ∷ bs)
]

-- The hash object after one file.
unfoldable pub feed_file : Disk → ℕ → Text → Bytes → Result Bytes
unfolding feed
feed_file disk chunk_size path fed =
    if disk.exists path
    then (do bytes ← disk.content path; ok (feed (suc (length bytes)) chunk_size bytes fed))
    else raise file_not_found

unfoldable pub feed_files : Disk → ℕ → List Text → Bytes → Result Bytes
unfolding feed_file
feed_files disk chunk_size [] fed = ok fed
feed_files disk chunk_size (path ∷ paths) fed = elim (feed_file disk chunk_size path fed) [
  | ok fed' ↦ feed_files disk chunk_size paths fed'
  | raise e ↦ raise e
]

module _ (hexdigest : Bytes → Text) where
  unfoldable pub compute_hash : Bytes → Text
  compute_hash bytes = hexdigest bytes

  unfoldable pub compute_file_hash : Disk → Text → ℕ → Result Text
  unfolding feed_file
  compute_file_hash disk path chunk_size = do
    fed ← feed_file disk chunk_size path []
    ok (hexdigest fed)

  unfoldable pub compute_hash_incremental : Disk → List Text → ℕ → Result Text
  unfolding feed_files
  compute_hash_incremental disk paths chunk_size = do
    fed ← feed_files disk chunk_size paths []
    ok (hexdigest fed)

  unfoldable pub verify_hash : Bytes → Text → Bool
  unfolding compute_hash
  verify_hash bytes expected_hash = text_beq (compute_hash bytes) expected_hash

  -- The default chunk size is 8192.
  unfoldable pub verify_file_hash : Disk → Text → Text → Result Bool
  unfolding compute_file_hash
  verify_file_hash disk path expected_hash = do
    actual_hash ← compute_file_hash disk path 8192
    ok (text_beq actual_hash expected_hash)
