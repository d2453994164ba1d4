-- ===== src/Secrets.antt =====
-- The class `SecretsManager` of src/hqt/foundation/config/secrets.py. The package keyring, JSON with
-- the Fernet cipher, and the writes of the disk are parameters.
mod Backends
mod Persistence
mod Tests
use haru_quant_cbot.Prelude.Text.{text_eq, Text}
use haru_quant_cbot.Prelude.{
  false, true, ◌>>=◌, password_delete_error, none, map, [], coded, not_implemented, if◌then◌else◌,
  some, ok, raise, List, Option, Bool, ℕ, Error, Result,
}
use haru_quant_cbot.Prelude.Dict.{lookup, insert, erase, contains, Dict}

-- The package keyring, for one service name, over the states W of the system's keyring.
pub record Keyring (W : Type 0) : Type 0 where
  pub get_password : Text → W → Result (Option Text)
  pub set_password : Text → Text → W → Result W
  pub delete_password : Text → W → Result W

-- What writing the file and making it private can come to: the write fails and leaves what it leaves of
-- the file, which is truncated first, or `chmod` fails afterwards.
pub data Written : Type 0 where
  saved : Written
  write_failed : Option (List ℕ) → Error → Written
  chmod_failed : Error → Written

-- `encrypted` is `cipher.encrypt(json.dumps(...).encode())`, and `decrypted` the way back.
pub record Machine : Type 0 where
  pub encrypted : Dict Text Text → Result (List ℕ)
  pub decrypted : List ℕ → Result (Dict Text Text)
  pub written : List ℕ → Written

-- The manager with the parts of the system that it works on. `file` is the encrypted file, if there
-- is one.
pub record SecretsManager (W : Type 0) : Type 0 where
  pub use_keyring : Bool
  pub file_secrets : Dict Text Text
  pub file : Option (List ℕ)
  pub keyring : W

module _ (m : Machine) where
  -- `_load_file_secrets`
  unfoldable pub load_file_secrets : Option (List ℕ) → Result (Dict Text Text)
  load_file_secrets none = ok []
  load_file_secrets (some encrypted_data) = elim (m.decrypted encrypted_data) [
    | ok secrets ↦ ok secrets
    | raise e ↦ raise (coded 101)
  ]

  -- `__init__`, where the keyring is used exactly if it can be imported.
  unfoldable pub init_manager :
      {W : Type 0} → Bool → Option (List ℕ) → W → Result (SecretsManager W)
  unfolding load_file_secrets
  init_manager true file keyring =
      ok (record { use_keyring = true; file_secrets = []; file = file; keyring = keyring })
  init_manager false file keyring = do
    secrets ← load_file_secrets file
    ok (record { use_keyring = false; file_secrets = secrets; file = file; keyring = keyring })

  -- `_save_file_secrets` after the writes, and after the encryption: the manager, and what is raised.
  abbrev pub after_write :
      {W : Type 0} → SecretsManager W → List ℕ → Written → SecretsManager W × Result {0} Unit
  after_write s bytes saved = (record s { file = some bytes }, ok tt)
  after_write s bytes (write_failed left e) = (record s { file = left }, raise (coded 102))
  after_write s bytes (chmod_failed e) = (record s { file = some bytes }, raise (coded 102))

  abbrev pub write_encrypted :
      {W : Type 0} → SecretsManager W → Result (List ℕ) → SecretsManager W × Result {0} Unit
  write_encrypted s (raise e) = (s, raise (coded 102))
  write_encrypted s (ok bytes) = after_write s bytes (m.written bytes)

  unfoldable pub save_file_secrets :
      {W : Type 0} → SecretsManager W → SecretsManager W × Result {0} Unit
  save_file_secrets s = write_encrypted s (m.encrypted s.file_secrets)

  -- `except Exception as e: raise SecretError(...) from e`
  abbrev pub recoded : {A : Type 0} → ℕ → Result A → Result A
  recoded code (ok a) = ok a
  recoded code (raise e) = raise (coded code)

  module _ {W : Type 0} (ring : Keyring W) where
    -- The default where there is no value.
    abbrev pub or_default : Option Text → Option Text → Option Text
    or_default none default = default
    or_default (some value) default = some value

    unfoldable pub get : Text → Option Text → SecretsManager W → Result (Option Text)
    get key default s =
        if s.use_keyring
        then (do
          value ← recoded 103 (ring.get_password key s.keyring)
          ok (or_default value default))
        else ok (or_default (lookup key s.file_secrets) default)

    unfoldable pub set : Text → Text → SecretsManager W → SecretsManager W × Result {0} Unit
    unfolding save_file_secrets
    set key value s =
        if s.use_keyring
        then elim (ring.set_password key value s.keyring) [
          | ok keyring ↦ (record s { keyring = keyring }, ok tt)
          | raise e ↦ (s, raise (coded 104))
        ]
        else (let (s', done) =
              save_file_secrets (record s { file_secrets = insert key value s.file_secrets }) in
            (s', recoded 104 done))

    -- A `PasswordDeleteError` is passed over.
    abbrev pub deleted : SecretsManager W → Result W → SecretsManager W × Result {0} Unit
    deleted s (ok keyring) = (record s { keyring = keyring }, ok tt)
    deleted s (raise password_delete_error) = (s, ok tt)
    deleted s (raise e) = (s, raise (coded 105))

    unfoldable pub delete : Text → SecretsManager W → SecretsManager W × Result {0} Unit
    unfolding save_file_secrets
    delete key s =
        if s.use_keyring
        then deleted s (ring.delete_password key s.keyring)
        else if contains key s.file_secrets
        then (let (s', done) =
              save_file_secrets (record s { file_secrets = erase key s.file_secrets }) in
            (s', recoded 105 done))
        else (s, ok tt)

    unfoldable pub list_keys : SecretsManager W → Result (List Text)
    list_keys s =
        if s.use_keyring
        then raise not_implemented
        else ok (map (λ (kv : Text × Text). kv.0) s.file_secrets)

    unfoldable pub clear_all : SecretsManager W → SecretsManager W × Result {0} Unit
    unfolding save_file_secrets
    clear_all s =
        if s.use_keyring
        then (s, raise not_implemented)
        else (let (s', done) = save_file_secrets (record s { file_secrets = [] }) in
            (s', recoded 106 done))
