-- ===== src/Api/Auth.antt =====
-- `verify_hook_auth` and `authorize_trigger` of crates/z8run-api/src/routes.rs: the policy of a
-- trigger for the requests to its hook.
pub mod Bytes
pub mod Policy
use Prim.Native.Nat.{bit_or, bit_xor}
use z8run.Base.{
  ℕ, String, Bool, true, false, ◌&&◌, Option, none, some, List, [], ◌∷◌, length, if◌then◌else◌,
  ◌==◌, str_eq,
}
use z8run.Json.{Value, string, object, no_fields, entry}
use z8run.Error.{Uuid}
use z8run.Nodes.{is_empty_text}
use z8run.Api.{ApiError, index, str_of, unwrap_or, strip_prefix}
use z8run.Api.Canvas.{Vault, or_else}

pub data HookAuthError : Type 0 where
  unauthorized : String → HookAuthError
  misconfigured : String → HookAuthError

-- `Result<(), HookAuthError>`
pub data Verdict : Type 0 where
  accepted : Verdict
  rejected : HookAuthError → Verdict

-- The fold over the pairs of bytes.
unfoldable pub differences : (acc : ℕ) → (a b : List ℕ) → ℕ
differences acc [] b = acc
differences acc (x ∷ a) [] = acc
differences acc (x ∷ a) (y ∷ b) = differences (bit_or acc (bit_xor x y)) a b

unfoldable pub ct_eq : (a b : List ℕ) → Bool
unfolding differences
ct_eq a b = (length a == length b) && (differences 0 a b == 0)

-- A header, if it is sent; its value, if it is a text.
abbrev pub Headers : Type 0
Headers = String → Option (Option String)

abbrev pub readable : Option (Option String) → String
readable (some (some v)) = v
readable _ = ""

-- The bytes of a text, base64 and hexadecimal decoding, and HMAC-SHA256, which can refuse a key.
pub record Crypto : Type 0 where
  pub bytes : String → List ℕ
  pub base64_decode : String → Option (List ℕ)
  pub hex_decode : String → Option (List ℕ)
  pub hmac : (key body : String) → Option (List ℕ)

module _ (lib : Crypto) where
  abbrev pub compared : Option (List ℕ) → (expected : List ℕ) → (message : String) → Verdict
  compared none expected message = rejected (unauthorized message)
  compared (some given) expected message =
      if ct_eq given expected then accepted else rejected (unauthorized message)

  abbrev pub bytes_of : Option String → Option (List ℕ)
  bytes_of none = none
  bytes_of (some t) = some (lib.bytes t)

  abbrev pub decoded : Option String → Option (List ℕ)
  decoded none = none
  decoded (some b64) = lib.base64_decode b64

  -- `mac.verify_slice` of the signature that is given.
  abbrev pub signed : Option (List ℕ) → (provided : String) → Verdict
  signed none provided = rejected (misconfigured "Invalid HMAC key configuration")
  signed (some mac) provided =
      if ct_eq (unwrap_or [] (lib.hex_decode provided)) mac
      then accepted
      else rejected (unauthorized "Unauthorized: HMAC signature mismatch")

  abbrev pub scheme : (upper lower : String) → Headers → Option String
  scheme upper lower headers =
      let authorization = readable (headers "authorization") in
      or_else (strip_prefix upper authorization) (strip_prefix lower authorization)

  abbrev pub signature : Headers → String
  signature headers =
      let raw_sig = readable (or_else (headers "x-signature") (headers "x-hub-signature-256")) in
      unwrap_or raw_sig (strip_prefix "sha256=" raw_sig)

  unfoldable pub verify_hook_auth :
      (auth_type expected : String) → Headers → (body : String) → Verdict
  unfolding strip_prefix ct_eq
  verify_hook_auth auth_type expected headers body =
      if str_eq auth_type "none"
      then accepted
      else if is_empty_text expected
      then rejected (misconfigured "Webhook auth token not configured")
      else if str_eq auth_type "bearer"
      then compared (bytes_of (scheme "Bearer " "bearer " headers)) (lib.bytes expected)
          "Unauthorized: invalid or missing Bearer token"
      else if str_eq auth_type "basic"
      then compared (decoded (scheme "Basic " "basic " headers)) (lib.bytes expected)
          "Unauthorized: invalid or missing Basic credentials"
      else if str_eq auth_type "hmac"
      then signed (lib.hmac expected body) (signature headers)
      else rejected (misconfigured "Unsupported webhook auth type")

  -- The response of a request that is rejected: a status and the text of the error.
  abbrev pub response_of : Verdict → Option ApiError
  response_of accepted = none
  response_of (rejected (unauthorized message)) = some (record { status = 401; message = message })
  response_of (rejected (misconfigured message)) = some (record { status = 500; message = message })

  -- The secret, which is looked up in the vault of the owner if it is a reference.
  abbrev pub secret :
      (raw_token : String) → (key : Option String) → (String → Option String) → Option String
  secret raw_token none retrieve = some raw_token
  secret raw_token (some key) retrieve = retrieve key

  abbrev pub checked :
      Option String → (auth_type : String) → Headers → (body : String) → Option ApiError
  checked none auth_type headers body =
      some (record { status = 500; message = "Failed to resolve auth credential" })
  checked (some expected) auth_type headers body =
      response_of (verify_hook_auth auth_type expected headers body)

  -- The match on the type of the policy.
  abbrev pub by_type : (auth_type : String) → Option ApiError → Option ApiError
  by_type auth_type check =
      if str_eq auth_type "none"
      then none
      else if str_eq auth_type "bearer"
      then check
      else if str_eq auth_type "basic"
      then check
      else if str_eq auth_type "hmac"
      then check
      else some (record { status = 500; message = "Unsupported webhook auth type" })

  -- `none` lets the request through.
  unfoldable pub authorize_trigger :
      (config : Value) → Headers → (body : String) → (owner_id : Uuid) → Vault → Option ApiError
  unfolding index strip_prefix verify_hook_auth
  authorize_trigger config headers body owner_id vault =
      let auth_type = unwrap_or "none" (str_of (index config "authType")) in
      let raw_token = unwrap_or "" (str_of (index config "authToken")) in
      by_type auth_type (
        checked (secret raw_token (strip_prefix "vault:" raw_token) (vault owner_id)) auth_type
          headers body)
