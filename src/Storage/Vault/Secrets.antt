-- ===== src/Storage/Vault/Secrets.antt =====
-- What a user reads from the vault is what the user stored in it: the table of encrypted rows
-- against a plain map of secrets.
use z8run.Base.{
  ℕ, ◌≤◌, String, Bool, true, false, Option, none, some, List, [], ◌∷◌, length, map, filter, find,
  passing, find-passing, if◌then◌else◌, ◌==◌, str_eq, is_some, ◌≡◌, refl, sym, ap, ◌∙◌, arith,
  Bool-cases, inl, inr,
}
use z8run.Error.{Uuid}
use z8run.Storage.{StorageResult, ok, err, ◌>>=◌, Failure, query}
use z8run.Storage.Vault.{
  Bytes, CryptoLib, VaultCrypto, Credential, sort_by, same_key, owns, upsert, not_found, encrypted,
  encrypt, decrypt, sealed_row, store, text_of, opened, retrieve, delete, list_keys,
}
use z8run.Storage.Vault.Rows.{
  sealed, sealed-upsert, passing-upsert, find-delete, passing-filter_le, passing-keys,
  passing-sort_by, IsSorted, sort_by-IsSorted,
}

-- What the crates promise: a nonce opens what it has sealed, and the bytes of a text are that text.
pub record IsLawful (lib : CryptoLib) : Type 0 where
  pub unseal_seal :
      (key nonce plaintext ciphertext : Bytes)
      → lib.seal key nonce plaintext ≡ some ciphertext
      → lib.unseal key nonce ciphertext ≡ some plaintext
  pub utf8 : (text : String) → lib.from_utf8 (lib.as_bytes text) ≡ some text

-- The secrets of all users.
abbrev pub Plain : Type 0
Plain = Uuid → String → Option String

abbrev pub set_secret : Uuid → String → Option String → Plain → Plain
set_secret user key value m = λ u k. if same_key user key u k then value else m u k

abbrev pub answer : (key : String) → Option String → StorageResult String
answer key none = err (not_found key)
answer key (some value) = ok value

-- What a table can be after any calls, with the secrets that were stored: a call that fails stores
-- nothing.
pub data Runs (lib : CryptoLib) (c : VaultCrypto) : List Credential → Plain → Type 0 where
  empty : Runs lib c [] (λ u k. none)
  stored :
      {rows rows' : List Credential} {m : Plain}
      → Runs lib c rows m
      → (nonce : Bytes) (now : ℕ) (fails : Failure) (user : Uuid) (key value : String)
      → length nonce ≡ 12
      → store lib c nonce now fails user key value rows ≡ ok rows'
      → Runs lib c rows' (set_secret user key (some value) m)
  deleted :
      {rows rows' : List Credential} {m : Plain}
      → Runs lib c rows m
      → (fails : Failure) (user : Uuid) (key : String) → delete fails user key rows ≡ ok rows'
      → Runs lib c rows' (set_secret user key none m)

-- `Result` values that are equal.
ok_inv {ℓ} : {A : Type ℓ} {a b : A} → ok a ≡ ok b → a ≡ b
ok_inv {a = a} e = ap (λ r. elim r [ ok x ↦ x | err _ ↦ a ]) e

query_inv {ℓ} : {A : Type ℓ} (fails : Failure) (a b : A) → query fails a ≡ ok b → a ≡ b
query_inv none a b e = ok_inv e
query_inv (some text) a b e = cc

-- A table stands for the secrets, and has one row for each.
pub record Represents (lib : CryptoLib) (c : VaultCrypto) (rows : List Credential) (m : Plain)
    : Type 0 where
  pub reads : (u : Uuid) (k : String) → opened lib c k (find (owns u k) rows) ≡ answer k (m u k)
  pub present : (u : Uuid) (k : String) → is_some (find (owns u k) rows) ≡ is_some (m u k)
  pub single : (u : Uuid) (k : String) → passing (owns u k) rows ≤ 1

opened_pair :
    (lib : CryptoLib) (c : VaultCrypto) (k : String) → Option (Bytes × Bytes) → StorageResult String
opened_pair lib c k none = err (not_found k)
opened_pair lib c k (some (ciphertext, nonce)) = decrypt lib c ciphertext nonce >>= text_of lib

opened-sealed :
    (lib : CryptoLib) (c : VaultCrypto) (k : String) (o : Option Credential)
    → opened lib c k o ≡ opened_pair lib c k (sealed o)
unfolding opened_pair
opened-sealed lib c k none = refl
opened-sealed lib c k (some r) = refl

is_some-sealed : (o : Option Credential) → is_some o ≡ is_some (sealed o)
is_some-sealed none = refl
is_some-sealed (some r) = refl

-- The row that a call stores, if it succeeds.
store_inv :
    (lib : CryptoLib) (c : VaultCrypto) (nonce : Bytes) (now : ℕ) (fails : Failure) (user : Uuid)
    (key value : String) (rows rows' : List Credential)
    → store lib c nonce now fails user key value rows ≡ ok rows'
    → (ciphertext : Bytes) × (lib.seal c.cipher_key nonce (lib.as_bytes value) ≡ some ciphertext)
      × (upsert (sealed_row lib user key now (ciphertext, nonce)) rows ≡ rows')
unfolding store encrypt
store_inv lib c nonce now fails user key value rows rows' e =
    go (lib.seal c.cipher_key nonce (lib.as_bytes value)) refl e
  where
    go :
        (o : Option Bytes)
        → lib.seal c.cipher_key nonce (lib.as_bytes value) ≡ o
        → (encrypted lib nonce o
            >>= (λ pair. query fails (upsert (sealed_row lib user key now pair) rows)))
          ≡ ok rows'
        → (ciphertext : Bytes) × (lib.seal c.cipher_key nonce (lib.as_bytes value)
            ≡ some ciphertext)
          × (upsert (sealed_row lib user key now (ciphertext, nonce)) rows ≡ rows')
    go none f h = cc
    go (some ciphertext) f h = (ciphertext, f, query_inv fails _ _ h)

opens :
    (lib : CryptoLib) (law : IsLawful lib) (c : VaultCrypto) (k value : String)
    (nonce ciphertext : Bytes)
    → length nonce ≡ 12
    → lib.seal c.cipher_key nonce (lib.as_bytes value) ≡ some ciphertext
    → opened_pair lib c k (some (ciphertext, nonce)) ≡ ok value
unfolding opened_pair decrypt
opens lib law c k value nonce ciphertext n e =
    let back = law.unseal_seal c.cipher_key nonce (lib.as_bytes value) ciphertext e in
    let text : text_of lib (lib.as_bytes value) ≡ ok value = rw (text_of, law.utf8 value) refl in
    rw (n, back) text

once :
    (p : Credential → Bool) (rows : List Credential)
    → passing p rows ≤ 1
    → passing p rows ≡ (if is_some (find p rows) then 1 else 0)
unfolding passing find
once p [] h = refl
once p (r ∷ rows) h = ground (arith, once p rows, find-passing p rows)

module _ (lib : CryptoLib) (law : IsLawful lib) (c : VaultCrypto) where
  stored-Represents :
      (m : Plain) (nonce : Bytes) (now : ℕ) (fails : Failure) (user : Uuid) (key value : String)
      (rows rows' : List Credential)
      → Represents lib c rows m
      → length nonce ≡ 12
      → store lib c nonce now fails user key value rows ≡ ok rows'
      → Represents lib c rows' (set_secret user key (some value) m)
  unfolding owns
  stored-Represents m nonce now fails user key value rows rows' h n e =
      let (ciphertext, seal, same) = store_inv lib c nonce now fails user key value rows rows' e in
      let row = sealed_row lib user key now (ciphertext, nonce) in
      rw⁻¹ same (record {
        reads = λ u k.
            opened-sealed lib c k (find (owns u k) (upsert row rows))
            ∙ ap (opened_pair lib c k) (sealed-upsert u k row rows)
            ∙ elim (Bool-cases (same_key user key u k)) [
              | inl f ↦ rw f (opens lib law c k value nonce ciphertext n seal)
              | inr f ↦ rw f (sym (opened-sealed lib c k (find (owns u k) rows)) ∙ h.reads u k)
            ];
        present = λ u k.
            is_some-sealed (find (owns u k) (upsert row rows))
            ∙ ap is_some (sealed-upsert u k row rows)
            ∙ elim (Bool-cases (same_key user key u k)) [
              | inl f ↦ rw f refl
              | inr f ↦ rw f (sym (is_some-sealed (find (owns u k) rows)) ∙ h.present u k)
            ];
        single = λ u k. ground (arith, passing-upsert u k row rows, h.single u k);
      })

  deleted-Represents :
      (m : Plain) (fails : Failure) (user : Uuid) (key : String) (rows rows' : List Credential)
      → Represents lib c rows m
      → delete fails user key rows ≡ ok rows'
      → Represents lib c rows' (set_secret user key none m)
  unfolding delete
  deleted-Represents m fails user key rows rows' h e =
      let same = query_inv fails _ _ e in
      rw⁻¹ same (record {
        reads = λ u k.
            ap (opened lib c k) (find-delete user u key k rows)
            ∙ elim (Bool-cases (same_key user key u k)) [
              | inl f ↦ rw f refl
              | inr f ↦ rw f (h.reads u k)
            ];
        present = λ u k.
            ap is_some (find-delete user u key k rows) ∙ elim (Bool-cases (same_key user key u k)) [
              | inl f ↦ rw f refl
              | inr f ↦ rw f (h.present u k)
            ];
        single = λ u k. omega (arith, passing-filter_le u k _ rows, h.single u k);
      })

  Runs-Represents :
      (rows : List Credential) (m : Plain) → Runs lib c rows m → Represents lib c rows m
  unfolding find passing
  Runs-Represents rows m empty = record {
    reads = λ u k. refl;
    present = λ u k. refl;
    single = λ u k. omega arith;
  }
  Runs-Represents rows m (stored {rows = r} {m = m'} run nonce now fails user key value n e) =
      stored-Represents m' nonce now fails user key value r rows (Runs-Represents r m' run) n e
  Runs-Represents rows m (deleted {rows = r} {m = m'} run fails user key e) =
      deleted-Represents m' fails user key r rows (Runs-Represents r m' run) e

  -- After any calls of any users, a user reads under a key the value that this user has stored
  -- there last and not deleted since, and gets the error that the credential is not found if there
  -- is none: what other users do, under the same key too, has no effect. A database that works is
  -- assumed for the reading only: calls that failed have changed nothing.
  pub retrieve_refines :
      (rows : List Credential) (m : Plain) (user : Uuid) (key : String)
      → Runs lib c rows m
      → retrieve lib c none user key rows ≡ answer key (m user key)
  unfolding retrieve
  retrieve_refines rows m user key run = (Runs-Represents rows m run).reads user key

  -- The keys that are listed for a user are those under which the user has a secret, each once, in
  -- the order of the collation, if of any two keys one is before the other in it.
  pub list_keys_lem :
      (before : String → String → Bool)
      → ((a b : String) → before a b ≡ false → before b a ≡ true)
      → (rows : List Credential) (m : Plain) (user : Uuid) → Runs lib c rows m
      → (keys : List String) × (list_keys before none user rows ≡ ok keys)
        × IsSorted before keys
        × ((k : String) → passing (λ j. str_eq j k) keys ≡ (if is_some (m user k) then 1 else 0))
  unfolding list_keys
  list_keys_lem before total rows m user run =
      let h = Runs-Represents rows m run in
      (
        sort_by before (map (λ r. r.key) (filter (λ r. r.user_id == user) rows)),
        refl,
        sort_by-IsSorted before total (map (λ r. r.key) (filter (λ r. r.user_id == user) rows)),
        λ k.
            passing-sort_by before (λ j. str_eq j k)
              (map (λ r. r.key) (filter (λ r. r.user_id == user) rows))
            ∙ passing-keys user k rows
            ∙ once (owns user k) rows (h.single user k)
            ∙ ap (λ b. if b then 1 else 0) (h.present user k),
      )
