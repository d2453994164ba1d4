-- ===== src/Hasher/Chunks.antt =====
-- Reading in chunks feeds the whole file, whatever the chunk size.
use haru_quant_cbot.Prelude.{
  ℕ, zero, suc, ◌<◌, ◌≡◌, ◌↔◌, refl, sym, ap, ◌∙◌, true, List, [], ◌∷◌, ◌++◌, length, take, drop,
  take-append-drop, List-cases, inl, inr, if◌then◌else◌, length-drop, arith, ok, raise,
  file_not_found, Result, Result-cases, ◌>>=◌,
}
use mathlib.Core.List.{append-nil, append_assoc}
use haru_quant_cbot.Prelude.Text.{Text, text_beq_iff}
use haru_quant_cbot.Hasher.{
  Bytes, Disk, feed, feed_file, feed_files, compute_file_hash, compute_hash_incremental,
  verify_file_hash,
}

take-nil : (n : ℕ) (rest : Bytes) → 0 < n → take n rest ≡ [] → rest ≡ []
take-nil zero rest h e = absurd (omega arith)
take-nil (suc n) [] h e = refl
take-nil (suc n) (b ∷ rest) h e = cc

rest-pos : (n : ℕ) (rest : Bytes) (b : ℕ) (bs : Bytes) → take n rest ≡ b ∷ bs → 0 < length rest
rest-pos zero rest b bs e = cc
rest-pos (suc n) [] b bs e = cc
rest-pos (suc n) (x ∷ rest) b bs e = omega arith

feed-all :
    (fuel n : ℕ) (rest fed : Bytes)
    → 0 < n
    → length rest < fuel
    → feed fuel n rest fed ≡ fed ++ rest
unfolding feed
feed-all zero n rest fed h lt = absurd (omega arith)
feed-all (suc fuel) n rest fed h lt = elim (List-cases (take n rest)) [
  | inl end ↦ rw (end, feed, take-nil n rest h end, append-nil)
  | inr (b, bs, chunk) ↦
      let split = take-append-drop n rest in
      let short : length (drop n rest) < fuel =
        omega (arith, length-drop n rest, rest-pos n rest b bs chunk) in
      rw (chunk, feed)
        (feed-all fuel n (drop n rest) (fed ++ b ∷ bs) h short
          ∙ append_assoc fed (b ∷ bs) (drop n rest)
          ∙ ap (λ chunk'. fed ++ (chunk' ++ drop n rest)) (sym chunk)
          ∙ ap (λ all. fed ++ all) split)
]

-- One file, as the code reads it without chunks.
abbrev pub whole : Disk → Text → Result Bytes
whole disk path = if disk.exists path then disk.content path else raise file_not_found

feed_file-whole :
    (disk : Disk) (n : ℕ) (path : Text) (fed : Bytes)
    → 0 < n
    → feed_file disk n path fed ≡ (whole disk path >>= λ bytes. ok (fed ++ bytes))
unfolding feed_file
feed_file-whole disk n path fed h = elim (Result-cases (disk.content path)) [
  | inl (bytes, e) ↦ ground (arith, e, feed-all (suc (length bytes)) n bytes fed h (omega arith))
  | inr (x, e) ↦ ground (arith, e)
]

-- The files one after the other, or the first exception.
abbrev pub concatenated : Disk → List Text → Result Bytes
concatenated disk [] = ok []
concatenated disk (path ∷ paths) =
    whole disk path >>= λ bytes. concatenated disk paths >>= λ rest. ok (bytes ++ rest)

feed_files-concatenated :
    (disk : Disk) (n : ℕ) (paths : List Text) (fed : Bytes)
    → 0 < n
    → feed_files disk n paths fed ≡ (concatenated disk paths >>= λ bytes. ok (fed ++ bytes))
unfolding feed_files
feed_files-concatenated disk n [] fed h = ap ok (sym (append-nil fed))
feed_files-concatenated disk n (path ∷ paths) fed h = elim (Result-cases (whole disk path)) [
  | inl (bytes, e) ↦
      let first = feed_file-whole disk n path fed h in
      let rest = feed_files-concatenated disk n paths (fed ++ bytes) h in
      elim (Result-cases (concatenated disk paths)) [
        | inl (more, e') ↦ ground (arith, e, e', first, rest, append_assoc fed bytes more)
        | inr (x, e') ↦ ground (arith, e, e', first, rest)
      ]
  | inr (x, e) ↦ ground (arith, e, feed_file-whole disk n path fed h)
]

-- With a positive chunk size the hash of a file is the hash of its whole content, so it does not
-- depend on the chunk size. A missing file raises `FileNotFoundError`, a failed read its exception.
pub compute_file_hash-content :
    (hexdigest : Bytes → Text) (disk : Disk) (path : Text) (chunk_size : ℕ)
    → 0 < chunk_size
    → compute_file_hash hexdigest disk path chunk_size
      ≡ (whole disk path >>= λ bytes. ok (hexdigest bytes))
unfolding compute_file_hash
compute_file_hash-content hexdigest disk path n h = elim (Result-cases (whole disk path)) [
  | inl (bytes, e) ↦ rw (feed_file-whole disk n path [] h, e) refl
  | inr (x, e) ↦ rw (feed_file-whole disk n path [] h, e) refl
]

-- With a positive chunk size the incremental hash of several files is the hash of their contents put
-- together, or the first exception of a file in the order given.
pub compute_hash_incremental-content :
    (hexdigest : Bytes → Text) (disk : Disk) (paths : List Text) (chunk_size : ℕ)
    → 0 < chunk_size
    → compute_hash_incremental hexdigest disk paths chunk_size
      ≡ (concatenated disk paths >>= λ bytes. ok (hexdigest bytes))
unfolding compute_hash_incremental
compute_hash_incremental-content hexdigest disk paths n h =
    elim (Result-cases (concatenated disk paths)) [
      | inl (bytes, e) ↦ rw (feed_files-concatenated disk n paths [] h, e) refl
      | inr (x, e) ↦ rw (feed_files-concatenated disk n paths [] h, e) refl
    ]

-- A file is verified as intact exactly if it can be read and its content has the expected hash.
pub verify_file_hash-intact :
    (hexdigest : Bytes → Text) (disk : Disk) (path expected : Text)
    → (verify_file_hash hexdigest disk path expected ≡ ok true)
      ↔ ((bytes : Bytes) × (whole disk path ≡ ok bytes) × (hexdigest bytes ≡ expected))
unfolding verify_file_hash
verify_file_hash-intact hexdigest disk path expected =
    let hashed = compute_file_hash-content hexdigest disk path 8192 (omega arith) in
    elim (Result-cases (whole disk path)) [
      | inl (bytes, e) ↦ (
        λ h. (bytes, e, ground (arith, e, hashed, text_beq_iff (hexdigest bytes) expected)),
        λ h. ground (arith, e, h.1, h.2, hashed, text_beq_iff (hexdigest bytes) expected),
      )
      | inr (x, e) ↦ (λ h. absurd (ground (arith, e, hashed)), λ h. absurd (ground (arith, e, h.1)))
    ]
