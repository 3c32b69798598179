-- ===== src/Storage/Vault.antt =====
-- crates/z8run-storage/src/credential_vault.rs: the credentials of the users, which are encrypted.
-- The two backends differ in the syntax of their parameters only.
pub mod Rows
pub mod Secrets
use Prim.Native.String.{◌++◌ as text_append}
use z8run.Base.{
  ℕ, String, Bool, true, false, ◌&&◌, not, Option, none, some, List, [], ◌∷◌, map, filter, find,
  length, if◌then◌else◌, ◌==◌, str_eq,
}
use z8run.Error.{Uuid}
use z8run.Storage.{StorageError, encryption, StorageResult, ok, err, ◌>>=◌, Failure, query}

abbrev pub Bytes : Type 0
Bytes = List ℕ

-- The crates aes_gcm and sha2, and the texts of `std`. A nonce is drawn by the caller.
pub record CryptoLib : Type 0 where
  pub digest : Bytes → Bytes
  pub seal : (key nonce plaintext : Bytes) → Option Bytes
  pub unseal : (key nonce ciphertext : Bytes) → Option Bytes
  pub as_bytes : String → Bytes
  pub from_utf8 : Bytes → Option String
  pub aead_error : String
  pub utf8_error : Bytes → String

pub record VaultCrypto : Type 0 where
  pub cipher_key : Bytes

-- A row of the table credentials, with the unique key (user_id, key).
pub record Credential : Type 0 where
  pub user_id : Uuid
  pub key : String
  pub encrypted_value : Bytes
  pub nonce : Bytes
  pub created_at : ℕ
  pub updated_at : ℕ

abbrev pub same_key : (user : Uuid) (key : String) (user' : Uuid) (key' : String) → Bool
same_key user key user' key' = (user == user') && str_eq key key'

-- `WHERE user_id = ? AND key = ?`
unfoldable pub owns : Uuid → (key : String) → Credential → Bool
owns user key row = same_key row.user_id row.key user key

-- `INSERT … ON CONFLICT(user_id, key) DO UPDATE`
unfoldable pub upsert : Credential → List Credential → List Credential
unfolding owns
upsert row [] = row ∷ []
upsert row (r ∷ rows) =
    let rest = upsert row rows in
    if owns row.user_id row.key r
    then record r {
      encrypted_value = row.encrypted_value;
      nonce = row.nonce;
      updated_at = row.updated_at;
    }
      ∷ rows
    else r ∷ rest

abbrev pub not_found : (key : String) → StorageError
not_found key = encryption (text_append "Credential not found: " key)

-- `ORDER BY key`, in the collation of the database.
unfoldable pub insert_by : (before : String → String → Bool) → String → List String → List String
insert_by before k [] = k ∷ []
insert_by before k (j ∷ ks) =
    let rest = insert_by before k ks in if before k j then k ∷ j ∷ ks else j ∷ rest

unfoldable pub sort_by : (before : String → String → Bool) → List String → List String
unfolding insert_by
sort_by before [] = []
sort_by before (k ∷ ks) = insert_by before k (sort_by before ks)

module _ (lib : CryptoLib) where
  -- `VaultCrypto::new`, where `none` is the panic of the assertion.
  unfoldable pub new_crypto : (key : Bytes) → Option VaultCrypto
  new_crypto key = if length key == 32 then some (record { cipher_key = key }) else none

  unfoldable pub from_secret : (secret : String) → Option VaultCrypto
  unfolding new_crypto
  from_secret secret = new_crypto (lib.digest (lib.as_bytes secret))

  abbrev pub encrypted : (nonce : Bytes) → Option Bytes → StorageResult (Bytes × Bytes)
  encrypted nonce none = err (encryption (text_append "Encryption failed: " lib.aead_error))
  encrypted nonce (some ciphertext) = ok (ciphertext, nonce)

  -- The nonce that `generate_nonce` draws is an argument.
  unfoldable pub encrypt : VaultCrypto → (nonce plaintext : Bytes) → StorageResult (Bytes × Bytes)
  encrypt c nonce plaintext = encrypted nonce (lib.seal c.cipher_key nonce plaintext)

  unfoldable pub decrypt : VaultCrypto → (ciphertext nonce : Bytes) → StorageResult Bytes
  decrypt c ciphertext nonce =
      if not (length nonce == 12)
      then err (encryption "Invalid nonce length")
      else elim (lib.unseal c.cipher_key nonce ciphertext) [
        | none ↦ err (encryption (text_append "Decryption failed: " lib.aead_error))
        | some plaintext ↦ ok plaintext
      ]

  abbrev pub sealed_row : Uuid → (key : String) → (now : ℕ) → Bytes × Bytes → Credential
  sealed_row user key now (ciphertext, nonce) = record {
    user_id = user;
    key = key;
    encrypted_value = ciphertext;
    nonce = nonce;
    created_at = now;
    updated_at = now;
  }

  unfoldable pub store :
      VaultCrypto
      → (nonce : Bytes) (now : ℕ) → Failure
      → Uuid
      → (key value : String) → List Credential
      → StorageResult (List Credential)
  unfolding encrypt upsert
  store c nonce now fails user key value rows =
      encrypt c nonce (lib.as_bytes value)
      >>= (λ pair. query fails (upsert (sealed_row user key now pair) rows))

  abbrev pub text_of : Bytes → StorageResult String
  text_of plaintext = elim (lib.from_utf8 plaintext) [
    | none ↦ err (encryption (text_append "Invalid UTF-8: " (lib.utf8_error plaintext)))
    | some text ↦ ok text
  ]

  abbrev pub opened : VaultCrypto → (key : String) → Option Credential → StorageResult String
  opened c key none = err (not_found key)
  opened c key (some row) = decrypt c row.encrypted_value row.nonce >>= text_of

  unfoldable pub retrieve :
      VaultCrypto → Failure → Uuid → (key : String) → List Credential → StorageResult String
  unfolding owns decrypt
  retrieve c fails user key rows = query fails (find (owns user key) rows) >>= opened c key

unfoldable pub delete :
    Failure → Uuid → (key : String) → List Credential → StorageResult (List Credential)
unfolding owns
delete fails user key rows = query fails (filter (λ r. not (owns user key r)) rows)

unfoldable pub list_keys :
    (before : String → String → Bool)
    → Failure
    → Uuid
    → List Credential
    → StorageResult (List String)
unfolding sort_by
list_keys before fails user rows =
    query fails (sort_by before (map (λ r. r.key) (filter (λ r. r.user_id == user) rows)))
