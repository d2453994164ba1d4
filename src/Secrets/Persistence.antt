-- ===== src/Secrets/Persistence.antt =====
-- The encrypted file: what a new manager finds there.
use mathlib.Core.Path.{subst}
use haru_quant_cbot.Prelude.{
  some, coded, Option-cases, Error, sym, Option, [], ◌⊎◌, inl, inr, refl, arith, raise, ok, Result,
  ◌≡◌, false, ℕ, List,
}
use haru_quant_cbot.Prelude.Dict.{lookup-insert, lookup, erase, insert, Dict}
use haru_quant_cbot.Prelude.Text.{text_eq, Text}
use haru_quant_cbot.Secrets.{
  get, write_encrypted, saved, chmod_failed, write_failed, after_write, recoded, clear_all, Written,
  delete, load_file_secrets, init_manager, set, save_file_secrets, Keyring, SecretsManager, Machine,
}

-- What the cipher and JSON document: decrypting gives back what was encrypted.
abbrev pub Restores : Machine → Type 0
Restores m =
    (secrets : Dict Text Text) (bytes : List ℕ)
    → m.encrypted secrets ≡ ok bytes
    → m.decrypted bytes ≡ ok secrets

-- A manager started on the file is this one again.
abbrev pub IsPersistent : {W : Type 0} → Machine → SecretsManager W → Type 0
IsPersistent m s = init_manager m false s.file s.keyring ≡ ok s

-- The calls that change the secrets.
pub data Change : Type 0 where
  setting : Text → Text → Change
  deleting : Text → Change
  clearing : Change

module _ (m : Machine) {W : Type 0} (ring : Keyring W) where
  unfoldable pub change : Change → SecretsManager W → SecretsManager W × Result {0} Unit
  unfolding set delete clear_all
  change (setting key value) s = set m ring key value s
  change (deleting key) s = delete m ring key s
  change clearing s = clear_all m ring s

  after_write-IsPersistent :
      (s : SecretsManager W) (bytes : List ℕ) (w : Written)
      → s.use_keyring ≡ false
      → m.decrypted bytes ≡ ok s.file_secrets
      → (after_write m s bytes w).1 ≡ ok tt
      → IsPersistent m (after_write m s bytes w).0
  unfolding init_manager load_file_secrets
  after_write-IsPersistent s bytes saved h back done = ground (arith, h, back)
  after_write-IsPersistent s bytes (write_failed left e) h back done = cc
  after_write-IsPersistent s bytes (chmod_failed e) h back done = cc

  write_encrypted-IsPersistent :
      Restores m
      → (s : SecretsManager W) (r : Result (List ℕ)) → s.use_keyring ≡ false
      → m.encrypted s.file_secrets ≡ r
      → (write_encrypted m s r).1 ≡ ok tt
      → IsPersistent m (write_encrypted m s r).0
  write_encrypted-IsPersistent restores s (raise e) h fine done = cc
  write_encrypted-IsPersistent restores s (ok bytes) h fine done =
      after_write-IsPersistent s bytes (m.written bytes) h (restores s.file_secrets bytes fine) done

  recoded-ok : (code : ℕ) (r : Result {0} Unit) → recoded m code r ≡ ok tt → r ≡ ok tt
  recoded-ok code (ok a) h = refl
  recoded-ok code (raise e) h = cc

  save-IsPersistent :
      Restores m
      → (code : ℕ) (s : SecretsManager W) → s.use_keyring ≡ false
      → recoded m code (save_file_secrets m s).1 ≡ ok tt
      → IsPersistent m (save_file_secrets m s).0
  unfolding save_file_secrets
  save-IsPersistent restores code s h done =
      write_encrypted-IsPersistent restores s (m.encrypted s.file_secrets) h refl
        (recoded-ok code (save_file_secrets m s).1 done)

  -- The part of `set`, `delete` and `clear_all` that the file backend runs.
  abbrev rewritten : ℕ → Dict Text Text → SecretsManager W → SecretsManager W × Result {0} Unit
  rewritten code secrets s =
      let (s', done) = save_file_secrets m (record s { file_secrets = secrets }) in
      (s', recoded m code done)

  abbrev KeepsPersistent : SecretsManager W × Result {0} Unit → Type 0
  KeepsPersistent p = p.1 ≡ ok tt → IsPersistent m p.0

  rewritten-IsPersistent :
      Restores m
      → (code : ℕ) (secrets : Dict Text Text) (s : SecretsManager W) → s.use_keyring ≡ false
      → (p : SecretsManager W × Result {0} Unit) → p ≡ rewritten code secrets s
      → KeepsPersistent p
  rewritten-IsPersistent restores code secrets s h p e =
      subst KeepsPersistent (sym e)
        (save-IsPersistent restores code (record s { file_secrets = secrets }) h)

  set-on_file :
      (key value : Text) (s : SecretsManager W)
      → s.use_keyring ≡ false
      → set m ring key value s ≡ rewritten 104 (insert key value s.file_secrets) s
  unfolding set
  set-on_file key value s h = ground (arith, h)

  delete-on_file :
      (key : Text) (s : SecretsManager W)
      → s.use_keyring ≡ false
      → (delete m ring key s ≡ (s, ok tt))
        ⊎ (delete m ring key s ≡ rewritten 105 (erase key s.file_secrets) s)
  unfolding delete
  delete-on_file key s h = elim (Option-cases (lookup key s.file_secrets)) [
    | inl absent ↦ inl (ground (arith, h, absent))
    | inr (v, there) ↦ inr (ground (arith, h, there))
  ]

  clear_all-on_file :
      (s : SecretsManager W) → s.use_keyring ≡ false → clear_all m ring s ≡ rewritten 106 [] s
  unfolding clear_all
  clear_all-on_file s h = ground (arith, h)

  -- On the encrypted file, with a cipher that gives back what it encrypts, and for a manager that a new
  -- start on its file gives back with all its secrets, a `set`, `delete` or `clear_all` that raises
  -- nothing leaves such a manager.
  pub change-IsPersistent :
      Restores m
      → (c : Change) (s : SecretsManager W) → s.use_keyring ≡ false
      → IsPersistent m s
      → (change c s).1 ≡ ok tt
      → IsPersistent m (change c s).0
  unfolding change
  change-IsPersistent restores (setting key value) s h before done =
      rewritten-IsPersistent restores 104 (insert key value s.file_secrets) s h
        (set m ring key value s) (set-on_file key value s h) done
  change-IsPersistent restores (deleting key) s h before done = elim (delete-on_file key s h) [
    | inl same ↦
        subst (λ (p : SecretsManager W × Result {0} Unit). IsPersistent m p.0) (sym same) before
    | inr e ↦
        rewritten-IsPersistent restores 105 (erase key s.file_secrets) s h (delete m ring key s) e
          done
  ]
  change-IsPersistent restores clearing s h before done =
      rewritten-IsPersistent restores 106 [] s h (clear_all m ring s) (clear_all-on_file s h) done

  -- Where the write of the encrypted file fails, `set` raises the error CFG-104 and the file is what the
  -- write left of it, and yet `get` has the new value for the key.
  pub failed_set-visible :
      (key value : Text) (default : Option Text) (s : SecretsManager W) (bytes : List ℕ)
      (left : Option (List ℕ)) (e : Error)
      → s.use_keyring ≡ false
      → m.encrypted (insert key value s.file_secrets) ≡ ok bytes
      → m.written bytes ≡ write_failed left e
      → let (s', done) = set m ring key value s in
        (done ≡ raise (coded 104))
        × (s'.file ≡ left)
        × (get m ring key default s' ≡ ok (some value))
  unfolding set get save_file_secrets
  failed_set-visible key value default s bytes left e h fine bad =
      ground
        (arith, h, fine, bad, lookup-insert key key value s.file_secrets, text_eq.beq_iff key key)
