-- ===== src/Engine/Preview.antt =====
-- The payload previews of engine.rs: secrets are masked, then the size is bounded.
pub mod Secrets
pub mod Truncate
use Prim.Native.String
use Prim.Native.Char.{code}
use z8run.Base.{
  take, ℕ, zero, suc, ◌+◌, ◌-◌, String, Bool, true, false, not, ◌&&◌, ◌||◌, Option, none, some,
  List, [], ◌∷◌, ◌++◌, length, ltb, leb, ◌==◌, if◌then◌else◌,
}
use z8run.Json.{
  Value, null, bool, number, string, array, object, Items, no_items, item, Fields, no_fields, entry,
  insert,
}

-- The bytes of a text, and whether an index is the end or the start of a character: every byte but
-- a continuation byte, 0x80 to 0xbf, starts one.
unfoldable pub is_char_boundary : List ℕ → ℕ → Bool
is_char_boundary [] zero = true
is_char_boundary [] (suc i) = false
is_char_boundary (b ∷ bs) zero = not (leb 128 b && ltb b 192)
is_char_boundary (b ∷ bs) (suc i) = is_char_boundary bs i

-- `s.is_char_boundary(end)` holds at 0 of every text.
unfoldable pub boundary : List ℕ → ℕ → Bool
unfolding is_char_boundary
boundary s zero = true
boundary s (suc i) = is_char_boundary s (suc i)

-- `while !s.is_char_boundary(end) { end -= 1 }`
unfoldable pub back_up : List ℕ → ℕ → ℕ
unfolding boundary
back_up s zero = 0
back_up s (suc end) = let rest = back_up s end in if boundary s (suc end) then suc end else rest

unfoldable pub truncate_utf8 : List ℕ → ℕ → List ℕ
unfolding back_up take
truncate_utf8 s max = if leb (length s) max then s else take (back_up s max) s

-- The characters of a text, as code points.
unfoldable pub points : String → List ℕ
points String.[] = []
points (String.◌∷◌ c s) = code c ∷ points s

-- `to_ascii_lowercase`, then `replace('-', "_")`, at one character.
abbrev pub normalize_char : ℕ → ℕ
normalize_char c = if leb b'A' c && leb c b'Z' then c + 32 else (if c == b'-' then b'_' else c)

unfoldable pub normalized : List ℕ → List ℕ
normalized [] = []
normalized (c ∷ cs) = normalize_char c ∷ normalized cs

unfoldable pub points_eq : List ℕ → List ℕ → Bool
points_eq [] [] = true
points_eq [] (b ∷ bs) = false
points_eq (a ∷ xs) [] = false
points_eq (a ∷ xs) (b ∷ bs) = a == b && points_eq xs bs

abbrev pub sensitive_preview_keys : List String
sensitive_preview_keys =
    "authorization" ∷ "proxy_authorization" ∷ "cookie" ∷ "set_cookie" ∷ "x_api_key" ∷ "api_key"
    ∷ "apikey" ∷ "x_auth_token" ∷ "auth_token" ∷ "authtoken" ∷ "password" ∷ "passwd" ∷ "secret"
    ∷ "client_secret" ∷ "token" ∷ "access_token" ∷ "refresh_token" ∷ "id_token" ∷ "private_key"
    ∷ "x_signature" ∷ "x_hub_signature" ∷ "x_hub_signature_256" ∷ []

unfoldable pub contains_points : List String → List ℕ → Bool
unfolding points points_eq
contains_points [] k = false
contains_points (s ∷ ss) k = points_eq (points s) k || contains_points ss k

unfoldable pub is_sensitive_key : String → Bool
unfolding contains_points normalized points
is_sensitive_key key = contains_points sensitive_preview_keys (normalized (points key))

-- `mask` stands for the replacements by the two regular expressions in a text.
module _ (mask : String → String) where
  unfoldable mutual
    pub redact_preview : Value → Value
    redact_preview null = null
    redact_preview (bool b) = bool b
    redact_preview (number n) = number n
    redact_preview (string s) = string (mask s)
    redact_preview (array items) = array (redact_items items)
    redact_preview (object fields) = object (redact_fields fields)

    pub redact_items : Items → Items
    redact_items no_items = no_items
    redact_items (item v items) = item (redact_preview v) (redact_items items)

    pub redact_fields : Fields → Fields
    redact_fields no_fields = no_fields
    redact_fields (entry k v fields) =
        entry k (if is_sensitive_key k then string "[REDACTED]" else redact_preview v)
          (redact_fields fields)

unfoldable pub fields_len : Fields → ℕ
fields_len no_fields = 0
fields_len (entry k v fs) = suc (fields_len fs)

-- `bytes` is `Value::to_string`, `text` reads bytes as a text, with "..." after it, and `more` is
-- the text "...and n more keys".
module _ (bytes : Value → List ℕ) (text : List ℕ → String) (more : ℕ → String) where
  abbrev pub preview_value : Value → Value
  preview_value v =
      if ltb 100 (length (bytes v)) then string (text (truncate_utf8 (bytes v) 97)) else v

  -- `for (k, v) in map.iter().take(n) { preview.insert(…) }`
  unfoldable pub take_fields : ℕ → Fields → Fields → Fields
  take_fields zero fs preview = preview
  take_fields (suc n) no_fields preview = preview
  take_fields (suc n) (entry k v fs) preview = take_fields n fs (insert k (preview_value v) preview)

  unfoldable pub truncate_object : Fields → Fields
  unfolding take_fields fields_len
  truncate_object fs =
      let preview = take_fields 10 fs no_fields in
      if ltb 10 (fields_len fs)
      then insert "_truncated" (string (more (fields_len fs - 10))) preview
      else preview

  abbrev pub truncate_large : Value → Value
  truncate_large (object fs) = object (truncate_object fs)
  truncate_large v = string (text (truncate_utf8 (bytes v) 497))

  unfoldable pub truncate_redacted : Value → Value
  truncate_redacted v = if leb (length (bytes v)) 500 then v else truncate_large v

  unfoldable pub truncate_payload : (mask : String → String) → Value → Value
  truncate_payload mask v = truncate_redacted (redact_preview mask v)
