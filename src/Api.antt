-- ===== src/Api.antt =====
-- crates/z8run-api/src/error.rs, and the accessors that the routes share.
pub mod Trigger
pub mod Hooks
pub mod Canvas
pub mod Auth
pub mod Handler
pub mod CanvasShape
pub mod Flows
pub mod Recorder
pub mod Socket
use Prim.Native.String
use Prim.Native.Char.{Char, code}
use z8run.Base.{ℕ, String, Option, none, some, ◌==◌, if◌then◌else◌, ◌≡◌, refl, ap}
use z8run.Json.{Value, null, string, array, object, Items, Fields}
use z8run.Nodes.{get_field, as_str}

pub record ApiError : Type 0 where
  pub status : ℕ
  pub message : String

abbrev pub bad_request : String → ApiError
bad_request message = record { status = 400; message = message }

-- `Result<T, ApiError>`
pub data ApiResult {ℓ} (A : Type ℓ) : Type ℓ where
  ok : A → ApiResult A
  err : ApiError → ApiResult A

-- `value[key]`, which is null where there is no such entry.
unfoldable pub index : Value → String → Value
unfolding get_field
index v k = elim (get_field k v) [ some w ↦ w | none ↦ null ]

abbrev pub str_of : Value → Option String
str_of v = as_str (some v)

abbrev pub unwrap_or {ℓ} : {A : Type ℓ} → A → Option A → A
unwrap_or default none = default
unwrap_or default (some a) = a

abbrev pub as_array : Option Value → Option Items
as_array (some (array items)) = some items
as_array _ = none

-- `str::strip_prefix`
unfoldable pub strip_prefix : (prefix s : String) → Option String
strip_prefix String.[] s = some s
strip_prefix (String.◌∷◌ c p) String.[] = none
strip_prefix (String.◌∷◌ c p) (String.◌∷◌ d s) =
    let rest = strip_prefix p s in if code c == code d then rest else none

pub ok_inv {ℓ} : {A : Type ℓ} {a b : A} → ok a ≡ ok b → a ≡ b
ok_inv {a = a} e = ap (λ r. elim r [ ok x ↦ x | err _ ↦ a ]) e

-- The operator `?`: an error ends the function.
infixl 5 ◌>>=◌
abbrev pub ◌>>=◌ {κ μ} : {A : Type κ} {B : Type μ} → ApiResult A → (A → ApiResult B) → ApiResult B
err e >>= next = err e
ok a >>= next = next a

abbrev pub ok_or {ℓ} : {A : Type ℓ} → ApiError → Option A → ApiResult A
ok_or e none = err e
ok_or e (some a) = ok a
