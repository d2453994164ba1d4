-- ===== src/Hasher/Tests.antt =====
-- A disk with two files, and a stand-in for SHA-256 that shows the bytes it was fed.
use haru_quant_cbot.Prelude.{◌≡◌, refl, ◌||◌, [], ◌∷◌, ok, ◌>>=◌, arith, if◌then◌else◌}
use haru_quant_cbot.Prelude.Text.{Text, str, text_beq}
use haru_quant_cbot.Hasher.{Bytes, Disk, compute_file_hash, compute_hash_incremental}
use haru_quant_cbot.Hasher.Chunks.{concatenated, compute_hash_incremental-content}

abbrev disk : Disk
disk = record {
  exists = λ p. text_beq p (str "a") || text_beq p (str "b");
  content = λ p. if text_beq p (str "a") then ok (1 ∷ 2 ∷ 3 ∷ []) else ok (9 ∷ []);
}

abbrev show : Bytes → Text
show bytes = bytes

hash-two : compute_hash_incremental show disk (str "a" ∷ str "b" ∷ []) 2 ≡ ok (1 ∷ 2 ∷ 3 ∷ 9 ∷ [])
unfolding compute_hash_incremental text_beq
hash-two = refl

-- With a chunk size of 0 nothing is read.
hash-zero : compute_file_hash show disk (str "a") 0 ≡ ok []
unfolding compute_file_hash text_beq
hash-zero = refl

compute_hash_incremental-content_example :
    compute_hash_incremental show disk (str "a" ∷ str "c" ∷ []) 2
    ≡ (concatenated disk (str "a" ∷ str "c" ∷ []) >>= λ bytes. ok (show bytes))
compute_hash_incremental-content_example =
    compute_hash_incremental-content show disk (str "a" ∷ str "c" ∷ []) 2 (omega arith)
