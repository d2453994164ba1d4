-- ===== src/Manifest/Check.antt =====
-- `verify`: the verdict and the account of the files, and a manifest just generated.
use haru_quant_cbot.Catalog.{Entry, Table}
use haru_quant_cbot.Prelude.{
  ℕ, ◌+◌, ◌≡◌, ◌≢◌, ◌⊎◌, ◌↔◌, inl, ◌∙◌, sym, map, length-map, inr, refl, Bool, true, false, Option,
  none, some, List, [], ◌∷◌, ◌++◌, length, length-append, count_if, In, In-map_iff, arith, ok,
  Option-cases, count_if-zero_iff,
}
use mathlib.Core.Path.{subst}
use mathlib.Core.Option.{some-injective}
use haru_quant_cbot.Prelude.Text.{Text, text_eq}
use haru_quant_cbot.Prelude.Dict.{lookup-insert, insert, lookup}
use haru_quant_cbot.Hasher.{Bytes, Disk, verify_file_hash}
use haru_quant_cbot.Hasher.Chunks.{whole, verify_file_hash-intact}
use haru_quant_cbot.Manifest.{
  file_info, catalog_entries, generated_manifest, generate, FileInfo, Folder, Manifest,
}
use haru_quant_cbot.Manifest.Verification.{
  Issue, manifest_not_found, check_hash, check_file, check_files, verify,
}

module _ (hexdigest : Bytes → Text) (disk : Disk) where
  -- The file is there, and if hashes are checked and one is recorded, it can be read and has that
  -- hash.
  abbrev pub Intact : Bool → FileInfo → Type 0
  Intact check_hashes f =
      (disk.exists f.file_path ≡ true)
      × (check_hashes ≡ true
          → (hash : Text) → f.version_hash ≡ some hash
          → hash ≢ []
          → (bytes : Bytes) × (whole disk f.file_path ≡ ok bytes) × (hexdigest bytes ≡ hash))

  check_hash-Intact :
      (f : FileInfo) (check_hashes : Bool) (recorded : Option Text)
      → (check_hash hexdigest disk f check_hashes recorded ≡ none) ↔ (
          check_hashes ≡ true
          → (hash : Text) → recorded ≡ some hash
          → hash ≢ []
          → (bytes : Bytes) × (whole disk f.file_path ≡ ok bytes) × (hexdigest bytes ≡ hash))
  unfolding check_hash
  check_hash-Intact f false recorded = (λ _ e. cc, λ _. refl)
  check_hash-Intact f true none = (λ _ _ hash e. cc, λ _. refl)
  check_hash-Intact f true (some []) = (λ _ _ hash e given. ground (arith, given), λ _. refl)
  check_hash-Intact f true (some (c ∷ cs)) = (
    λ h _ hash e given. subst Same (some-injective _ _ e) (verified.0 (ground arith)),
    λ k. ground (arith, verified.1 (k refl (c ∷ cs) refl (λ e. cc))),
  )
    where
      Same : Text → Type 0
      Same hash = (bytes : Bytes) × (whole disk f.file_path ≡ ok bytes) × (hexdigest bytes ≡ hash)

      verified : (verify_file_hash hexdigest disk f.file_path (c ∷ cs) ≡ ok true) ↔ Same (c ∷ cs)
      verified = verify_file_hash-intact hexdigest disk f.file_path (c ∷ cs)

  check_file-Intact :
      (check_hashes : Bool) (f : FileInfo)
      → (check_file hexdigest disk check_hashes f ≡ none) ↔ Intact check_hashes f
  unfolding check_file
  check_file-Intact check_hashes f = ground (arith, check_hash-Intact f check_hashes f.version_hash)

  abbrev pub has_issue : Bool → FileInfo → Bool
  has_issue check_hashes f = elim (check_file hexdigest disk check_hashes f) [
    | none ↦ false
    | some _ ↦ true
  ]

  check_files-counts :
      (check_hashes : Bool) (files : List FileInfo) (issues : List Issue) (verified : ℕ)
      → let (issues', verified') = check_files hexdigest disk check_hashes files issues verified in
        (length issues' ≡ length issues + count_if (has_issue check_hashes) files)
        × (verified' + count_if (has_issue check_hashes) files ≡ verified + length files)
  unfolding check_files
  check_files-counts c [] issues verified = omega arith
  check_files-counts c (f ∷ files) issues verified =
      elim (Option-cases (check_file hexdigest disk c f)) [
        | inl fine ↦ ground (arith, fine, check_files-counts c files issues (verified + 1))
        | inr (issue, bad) ↦ ground (
          arith,
          bad,
          length-append issues (issue ∷ []),
          check_files-counts c files (issues ++ issue ∷ []) verified,
        )
      ]

  has_issue-Intact : (c : Bool) (f : FileInfo) → (has_issue c f ≡ false) ↔ Intact c f
  has_issue-Intact c f = (
    λ h. (check_file-Intact c f).0 (ground arith),
    λ i. let fine = (check_file-Intact c f).1 i in ground arith,
  )

  -- A manifest that is there is valid exactly if each of its files is there and, where hashes are
  -- checked and one is recorded, can be read and has it. Every file is either verified or raises
  -- one issue. A manifest that is not there is not valid, which is its one issue.
  pub verify-exact :
      (path : Text) (c : Bool) (folder : Folder)
      → let verdict = verify hexdigest disk path c folder in
        ((lookup path folder ≡ none)
          × (verdict.valid ≡ false)
          × (verdict.issues ≡ manifest_not_found path ∷ []))
        ⊎ ((m : Manifest) × (lookup path folder ≡ some m)
            × ((verdict.valid ≡ true) ↔ ((f : FileInfo) → In f m.files → Intact c f))
            × (verdict.verified_files + length verdict.issues ≡ length m.files)
            × (verdict.total_files ≡ length m.files))
  unfolding verify
  verify-exact path c folder = elim (Option-cases (lookup path folder)) [
    | inl absent ↦ rw (absent, verify) (inl (refl, refl, refl))
    | inr (m, found) ↦
        let (issues, verified) = check_files-counts c m.files [] 0 in
        rw (found, verify)
          (inr (
            m,
            refl,
            (
              λ h f i.
                  (has_issue-Intact c f).0
                    ((count_if-zero_iff (has_issue c) m.files).0 (ground (arith, issues)) f i),
              λ h.
                  let clean =
                    (count_if-zero_iff (has_issue c) m.files).1
                      (λ f i. (has_issue-Intact c f).1 (h f i)) in
                  ground (arith, issues, clean),
            ),
            ground (arith, issues, verified),
            refl,
          ))
  ]

  -- A manifest that was just generated is valid exactly if each file of the catalog is there and,
  -- where hashes are checked and one is recorded, can be read and has it; it lists all of them.
  pub verify-generate :
      (t : Table) (now : ℕ) (path hqt_version : Text) (folder : Folder) (c : Bool)
      → let (folder', summary) = generate t now path hqt_version folder in
        let verdict = verify hexdigest disk path c folder' in
        ((verdict.valid ≡ true) ↔ ((e : Entry) → In e (catalog_entries t) → Intact c (file_info e)))
        × (verdict.total_files ≡ length (catalog_entries t))
        × (summary.total_files ≡ length (catalog_entries t))
  unfolding generate generated_manifest verify
  verify-generate t now path hqt_version folder c = (
    (
      λ h e i.
          (counted.0 h) (file_info e) ((In-map_iff file_info (file_info e) entries).1 (e, i, refl)),
      λ h. counted.1 (λ f i.
          let (e, j, eq) = (In-map_iff file_info f entries).0 i in
          subst (Intact c) (sym eq) (h e j)),
    ),
    ground (arith, there, length-map file_info entries),
    length-map file_info entries,
  )
    where
      entries : List Entry
      entries = catalog_entries t

      m : Manifest
      m = generated_manifest t now hqt_version

      folder' : Folder
      folder' = insert path m folder

      there : lookup path folder' ≡ some m
      there = ground (arith, lookup-insert path path m folder, text_eq.beq_iff path path)

      counted :
          ((verify hexdigest disk path c folder').valid ≡ true)
          ↔ ((f : FileInfo) → In f (map file_info entries) → Intact c f)
      counted = elim (verify-exact path c folder') [
        | inl (absent, _, _) ↦ ground (arith, there, absent)
        | inr (n, found, valid, _, _) ↦
            subst
              (λ (k : Manifest).
                ((verify hexdigest disk path c folder').valid ≡ true)
                ↔ ((f : FileInfo) → In f k.files → Intact c f))
              (some-injective _ _ (sym found ∙ there)) valid
      ]
