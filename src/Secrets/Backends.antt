-- ===== src/Secrets/Backends.antt =====
-- `get` after `set` and `delete`, on both backends.
use haru_quant_cbot.Prelude.Dict.{
  lookup-erase_ne, lookup-erase_self, erase, IsDistinct, lookup-insert, insert, lookup,
}
use haru_quant_cbot.Prelude.{
  sym, Option-cases, ℕ, arith, Bool-cases, false, List, Result, refl, password_delete_error, raise,
  none, inl, ◌≢◌, inr, some, Result-cases, Option, ok, ◌≡◌,
}
use haru_quant_cbot.Prelude.Text.{text_eq, Text}
use haru_quant_cbot.Secrets.{
  delete, deleted, saved, chmod_failed, write_failed, after_write, write_encrypted, Written,
  or_default, get, SecretsManager, set, save_file_secrets, Keyring, Machine,
}

-- What the package keyring documents: a password that was set is what is read for its key, one
-- that was deleted is not there any more, deleting one that is not there is the error
-- `PasswordDeleteError`, and other keys stay.
pub record KeyringLaws {W : Type 0} (ring : Keyring W) : Type 0 where
  pub read_after_set :
      (k v : Text) (w w' : W)
      → ring.set_password k v w ≡ ok w'
      → ring.get_password k w' ≡ ok (some v)
  pub read_other_after_set :
      (k v j : Text) (w w' : W)
      → ring.set_password k v w ≡ ok w'
      → k ≢ j
      → ring.get_password j w' ≡ ring.get_password j w
  pub read_after_delete :
      (k : Text) (w w' : W) → ring.delete_password k w ≡ ok w' → ring.get_password k w' ≡ ok none
  pub read_other_after_delete :
      (k j : Text) (w w' : W)
      → ring.delete_password k w ≡ ok w'
      → k ≢ j
      → ring.get_password j w' ≡ ring.get_password j w
  pub read_absent :
      (k : Text) (w : W)
      → ring.delete_password k w ≡ raise password_delete_error
      → ring.get_password k w ≡ ok none

module _ (m : Machine) {W : Type 0} (ring : Keyring W) (laws : KeyringLaws ring) where
  after_write-keeps :
      (s : SecretsManager W) (bytes : List ℕ) (w : Written)
      → ((after_write m s bytes w).0.file_secrets ≡ s.file_secrets)
        × ((after_write m s bytes w).0.use_keyring ≡ s.use_keyring)
  after_write-keeps s bytes saved = (refl, refl)
  after_write-keeps s bytes (write_failed left e) = (refl, refl)
  after_write-keeps s bytes (chmod_failed e) = (refl, refl)

  write_encrypted-keeps :
      (s : SecretsManager W) (r : Result (List ℕ))
      → ((write_encrypted m s r).0.file_secrets ≡ s.file_secrets)
        × ((write_encrypted m s r).0.use_keyring ≡ s.use_keyring)
  write_encrypted-keeps s (raise e) = (refl, refl)
  write_encrypted-keeps s (ok bytes) = after_write-keeps s bytes (m.written bytes)

  save_file_secrets-keeps :
      (s : SecretsManager W)
      → ((save_file_secrets m s).0.file_secrets ≡ s.file_secrets)
        × ((save_file_secrets m s).0.use_keyring ≡ s.use_keyring)
  unfolding save_file_secrets
  save_file_secrets-keeps s = write_encrypted-keeps s (m.encrypted s.file_secrets)

  get_of_file :
      (k : Text) (default : Option Text) (s : SecretsManager W)
      → s.use_keyring ≡ false
      → get m ring k default s ≡ ok (or_default m ring (lookup k s.file_secrets) default)
  unfolding get
  get_of_file k default s h = ground (arith, h)

  -- After a `set` that raises nothing, `get` has the value for the key, and for each other key what
  -- it had before, whichever backend is in use.
  pub get-set :
      (key value : Text) (default : Option Text) (s : SecretsManager W)
      → (set m ring key value s).1 ≡ ok tt
      → (get m ring key default (set m ring key value s).0 ≡ ok (some value))
        × ((other : Text)
            → key ≢ other
            → get m ring other default (set m ring key value s).0 ≡ get m ring other default s)
  unfolding set get
  get-set key value default s done = elim (Bool-cases s.use_keyring) [
    | inl ring_used ↦ elim (Result-cases (ring.set_password key value s.keyring)) [
      | inr (e, bad) ↦ ground (arith, ring_used, bad, done)
      | inl (w, set_there) ↦ (
        ground (arith, ring_used, set_there, laws.read_after_set key value s.keyring w set_there),
        λ other ne. ground (
          arith,
          ring_used,
          set_there,
          laws.read_other_after_set key value other s.keyring w set_there ne,
        ),
      )
    ]
    | inr file_used ↦
        let kept =
          save_file_secrets-keeps (record s { file_secrets = insert key value s.file_secrets }) in
        (
          ground (
            arith,
            file_used,
            kept,
            lookup-insert key key value s.file_secrets,
            text_eq.beq_iff key key,
          ),
          λ other ne. ground (
            arith,
            file_used,
            kept,
            lookup-insert key other value s.file_secrets,
            text_eq.beq_iff key other,
          ),
        )
  ]

  deleted-lem :
      (s : SecretsManager W) (k : Text) (r : Result W)
      → ring.delete_password k s.keyring ≡ r
      → (deleted m ring s r).1 ≡ ok tt
      → ((deleted m ring s r).0.use_keyring ≡ s.use_keyring)
        × (ring.get_password k (deleted m ring s r).0.keyring ≡ ok none)
        × ((other : Text)
            → k ≢ other
            → ring.get_password other (deleted m ring s r).0.keyring
              ≡ ring.get_password other s.keyring)
  deleted-lem s k (ok w) h done = (
    refl,
    laws.read_after_delete k s.keyring w h,
    λ other ne. laws.read_other_after_delete k other s.keyring w h ne,
  )
  deleted-lem s k (raise password_delete_error) h done =
      (refl, laws.read_absent k s.keyring h, λ other ne. refl)
  deleted-lem s k (raise e) h done = cc

  -- After a `delete` that raises nothing, `get` has the default for the key, and for each other key
  -- what it had before, whichever backend is in use. The key may have been absent.
  pub get-delete :
      (key : Text) (default : Option Text) (s : SecretsManager W)
      → IsDistinct s.file_secrets
      → (delete m ring key s).1 ≡ ok tt
      → (get m ring key default (delete m ring key s).0 ≡ ok default)
        × ((other : Text)
            → key ≢ other
            → get m ring other default (delete m ring key s).0 ≡ get m ring other default s)
  unfolding delete get
  get-delete key default s distinct done = elim (Bool-cases s.use_keyring) [
    | inl ring_used ↦
        let r =
          deleted-lem s key (ring.delete_password key s.keyring) refl
            (ground (arith, ring_used, done)) in
        (ground (arith, ring_used, r), λ other ne. ground (arith, ring_used, r.0, r.2 other ne))
    | inr file_used ↦ elim (Option-cases (lookup key s.file_secrets)) [
      | inl absent ↦
          (ground (arith, file_used, absent), λ other ne. ground (arith, file_used, absent))
      | inr (v, there) ↦
          let kept =
            save_file_secrets-keeps (record s { file_secrets = erase key s.file_secrets }) in
          (
            ground (arith, file_used, there, kept, lookup-erase_self key s.file_secrets distinct),
            λ other ne. ground (
              arith,
              file_used,
              there,
              kept,
              lookup-erase_ne key other s.file_secrets (λ e. ne (sym e)),
            ),
          )
    ]
  ]
