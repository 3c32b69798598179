-- ===== src/Tests/Vault.antt =====
-- A vault with two users, over a cipher that adds one to every byte.
use Prim.Native.Nat.{Ordering, compare}
use Prim.Native.Char.{Char, char, code, IsScalar}
use text.Mathlib.TextEquality.{IsScalar-prop}
use z8run.Base.{
  ℕ, ◌+◌, ◌-◌, map, filter, some_inv, Option, none, some, List, [], ◌∷◌, ◌≡◌, refl, sym, ap, ◌∙◌,
  String, arith,
}
use z8run.Storage.{encryption, ok, err}
use z8run.Storage.Vault.{
  CryptoLib, VaultCrypto, Credential, from_secret, new_crypto, store, encrypt, decrypt, upsert,
  owns, retrieve, delete,
}
use z8run.Storage.Vault.Secrets.{
  IsLawful, Plain, set_secret, Runs, empty, stored, deleted, retrieve_refines,
}

scalar_at :
    (n : ℕ) (o p q : Ordering)
    → compare n 55296 ≡ o
    → compare 57343 n ≡ p
    → compare n 1114112 ≡ q
    → Option (IsScalar n)
scalar_at n Ordering.lt p q e f g = some (rw e tt)
scalar_at n Ordering.eq Ordering.lt Ordering.lt e f g = some (rw (e, f, g) tt)
scalar_at n Ordering.eq _ _ e f g = none
scalar_at n Ordering.gt Ordering.lt Ordering.lt e f g = some (rw (e, f, g) tt)
scalar_at n Ordering.gt _ _ e f g = none

scalar_found :
    (n : ℕ) (h : IsScalar n) (o p q : Ordering) (e : compare n 55296 ≡ o) (f : compare 57343 n ≡ p)
    (g : compare n 1114112 ≡ q)
    → (x : IsScalar n) × (scalar_at n o p q e f g ≡ some x)
unfolding scalar_at
scalar_found n h Ordering.lt p q e f g = (_, refl)
scalar_found n h Ordering.eq Ordering.lt Ordering.lt e f g = (_, refl)
scalar_found n h Ordering.eq Ordering.lt Ordering.eq e f g = absurd (rw (e, f, g) at h)
scalar_found n h Ordering.eq Ordering.lt Ordering.gt e f g = absurd (rw (e, f, g) at h)
scalar_found n h Ordering.eq Ordering.eq q e f g = absurd (rw (e, f) at h)
scalar_found n h Ordering.eq Ordering.gt q e f g = absurd (rw (e, f) at h)
scalar_found n h Ordering.gt Ordering.lt Ordering.lt e f g = (_, refl)
scalar_found n h Ordering.gt Ordering.lt Ordering.eq e f g = absurd (rw (e, f, g) at h)
scalar_found n h Ordering.gt Ordering.lt Ordering.gt e f g = absurd (rw (e, f, g) at h)
scalar_found n h Ordering.gt Ordering.eq q e f g = absurd (rw (e, f) at h)
scalar_found n h Ordering.gt Ordering.gt q e f g = absurd (rw (e, f) at h)

abbrev char_of : (n : ℕ) → Option (IsScalar n) → Option Char
char_of n none = none
char_of n (some h) = some (char n h)

decode : ℕ → Option Char
decode n =
    char_of n (scalar_at n (compare n 55296) (compare 57343 n) (compare n 1114112) refl refl refl)

decode-code : (c : Char) → decode (code c) ≡ some c
unfolding decode
decode-code (char n h) =
    let (x, e) =
      scalar_found n h (compare n 55296) (compare 57343 n) (compare n 1114112) refl refl refl in
    ap (char_of n) e ∙ ap (λ y. some (char n y)) (IsScalar-prop n x h)

-- A text as the numbers of its characters.
abbrev as_codes : String → List ℕ
as_codes String.[] = []
as_codes (String.◌∷◌ c s) = code c ∷ as_codes s

abbrev join : Option Char → Option String → Option String
join none o = none
join (some c) none = none
join (some c) (some s) = some (String.◌∷◌ c s)

from_codes : List ℕ → Option String
from_codes [] = some String.[]
from_codes (n ∷ ns) = join (decode n) (from_codes ns)

from_codes-as_codes : (s : String) → from_codes (as_codes s) ≡ some s
unfolding from_codes
from_codes-as_codes String.[] = refl
from_codes-as_codes (String.◌∷◌ c s) = rw (decode-code c, from_codes-as_codes s) refl

shifted_back : (b : List ℕ) → map (λ n. n - 1) (map (λ n. n + 1) b) ≡ b
shifted_back [] = refl
shifted_back (n ∷ b) = let here : n + 1 - 1 ≡ n = omega arith in rw (here, shifted_back b) refl

abbrev lib : CryptoLib
lib = record {
  digest = λ b. b;
  seal = λ key nonce plaintext. some (map (λ n. n + 1) plaintext);
  unseal = λ key nonce ciphertext. some (map (λ n. n - 1) ciphertext);
  as_bytes = as_codes;
  from_utf8 = from_codes;
  aead_error = "aead::Error";
  utf8_error = λ b. "utf8";
}

lib-IsLawful : IsLawful lib
lib-IsLawful = record {
  unseal_seal = λ key nonce plaintext ciphertext e.
      ap some (ap (map (λ n. n - 1)) (sym (some_inv e)) ∙ shifted_back plaintext);
  utf8 = from_codes-as_codes;
}

abbrev crypto : VaultCrypto
crypto = record { cipher_key = 7 ∷ [] }

abbrev nonce : List ℕ
nonce = 1 ∷ 2 ∷ 3 ∷ 4 ∷ 5 ∷ 6 ∷ 7 ∷ 8 ∷ 9 ∷ 10 ∷ 11 ∷ 12 ∷ []

abbrev row : ℕ → String → List ℕ → ℕ → Credential
row user key value now = record {
  user_id = user;
  key = key;
  encrypted_value = value;
  nonce = nonce;
  created_at = now;
  updated_at = now;
}

-- Two users store under the same key, and the first one also under another, which is deleted.
abbrev two_rows : List Credential
two_rows = row 1 "api" (98 ∷ []) 5 ∷ row 2 "api" (99 ∷ []) 6 ∷ []

abbrev secrets : Plain
secrets = set_secret 1 "old" none (
    set_secret 2 "api" (some "b")
      (set_secret 1 "api" (some "a") (set_secret 1 "old" (some "a") (λ u k. none))))

history : Runs lib crypto two_rows secrets
unfolding store encrypt upsert owns delete filter
history =
    deleted
      (stored
        (stored (stored empty nonce 4 none 1 "old" "a" refl refl) nonce 5 none 1 "api" "a" refl
          refl)
        nonce 6 none 2 "api" "b" refl refl)
      none 1 "old" refl

retrieve_refines_example : retrieve lib crypto none 2 "api" two_rows ≡ ok "b"
retrieve_refines_example = retrieve_refines lib lib-IsLawful crypto two_rows secrets 2 "api" history

-- A row with a nonce of another length is refused.
short_nonce : decrypt lib crypto (98 ∷ []) (1 ∷ []) ≡ err (encryption "Invalid nonce length")
unfolding decrypt
short_nonce = refl

short_key : from_secret lib "secret" ≡ none
unfolding from_secret new_crypto
short_key = refl
