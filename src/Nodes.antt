-- ===== src/Nodes.antt =====
-- crates/z8run-core/src/utils/node_helpers.rs and utils/extract.rs, and the accessors of
-- `serde_json::Value` that the nodes use.
pub mod Laws
pub mod Memory
pub mod Handoff
pub mod Batch
pub mod Switch
use Prim.Native.String.{◌++◌ as text_append}
use z8run.Base.{
  ℕ, ◌^◌, ltb, String, Bool, true, false, not, Option, none, some, List, [], ◌∷◌, if◌then◌else◌,
  str_eq,
}
use z8run.Json.{
  Value, null, bool, number, string, array, object, Items, no_items, item, Fields, no_fields, entry,
  lookup, insert,
}
use z8run.Error.{Uuid, Z8Error, internal, Z8Result, ok, err}
use z8run.Message.{FlowMessage, derive}

-- `Value::get` with a key, `as_str`, `as_bool`, `as_u64`.
unfoldable pub get_field : String → Value → Option Value
get_field k (object fs) = lookup k fs
get_field k _ = none

abbrev pub as_str : Option Value → Option String
as_str (some (string s)) = some s
as_str _ = none

abbrev pub as_bool : Option Value → Option Bool
as_bool (some (bool b)) = some b
as_bool _ = none

-- A token below 2 ^ 64 is that unsigned integer.
abbrev pub as_u64 : Option Value → Option ℕ
as_u64 (some (number n)) = if ltb n (2 ^ 64) then some n else none
as_u64 _ = none

unfoldable pub is_empty_text : String → Bool
is_empty_text s = str_eq s ""

-- A value of the configuration replaces the field's, if there is one.
abbrev pub or_keep {ℓ} : {A : Type ℓ} → Option A → A → A
or_keep none old = old
or_keep (some new) old = new

unfoldable pub items_of : List Value → Items
items_of [] = no_items
items_of (v ∷ vs) = item v (items_of vs)

unfoldable pub list_of : Items → List Value
list_of no_items = []
list_of (item v vs) = v ∷ list_of vs

-- What a node reads besides the message: the identifiers of the messages it makes and the clock.
pub record Outside : Type 0 where
  pub fresh : ℕ → Uuid
  pub millis : ℕ

-- `msg.derive(msg.source_node, port, payload)`, for the n-th message of an output.
unfoldable pub output : Outside → ℕ → FlowMessage → String → Value → FlowMessage
output w n m port payload = derive (w.fresh n) w.millis m m.source_node port payload

unfoldable pub require_non_empty : (field message : String) → Z8Result {0} Unit
require_non_empty field message = if is_empty_text field then err (internal message) else ok tt

abbrev pub contains_text : String → List String → Bool
contains_text s [] = false
contains_text s (t ∷ ts) = if str_eq t s then true else contains_text s ts

-- `{:?}` of the options is a parameter.
module _ (debug_list : List String → String) where
  unfoldable pub require_one_of :
      (value : String) (allowed : List String) (context : String) → Z8Result {0} Unit
  require_one_of value allowed context =
      if contains_text value allowed
      then ok tt
      else err (
          internal (
            text_append context (
              text_append ": '"
                (text_append value (text_append "'. Expected one of: " (debug_list allowed))))))

unfoldable pub error_output : Outside → FlowMessage → (error : String) → List FlowMessage
error_output w m error = output w 0 m "error" (object (entry "error" (string error) no_fields)) ∷ []

-- `map.entry("error").or_insert_with(...)`
abbrev pub ensure_error : (error : String) → Option Value → Fields → Fields
ensure_error error none fs = insert "error" (string error) fs
ensure_error error (some v) fs = fs

abbrev pub context_fields : (error : String) (context : Value) → Fields
context_fields error (object fs) = insert "error" (string error) fs
context_fields error context = entry "error" (string error) (entry "context" context no_fields)

unfoldable pub error_output_with_context :
    Outside → FlowMessage → (error : String) (context : Value) → List FlowMessage
error_output_with_context w m error context =
    let fs = context_fields error context in
    output w 0 m "error" (object (ensure_error error (lookup "error" fs) fs)) ∷ []

-- The first field that holds a text that is not empty.
abbrev pub non_empty : Option String → Option String
non_empty none = none
non_empty (some s) = if is_empty_text s then none else some s

unfoldable pub first_text : Value → (field_names : List String) → Option String
first_text v [] = none
first_text v (k ∷ ks) = elim (non_empty (as_str (get_field k v))) [
  | some s ↦ some s
  | none ↦ first_text v ks
]

abbrev pub text_or_empty : Option String → String
text_or_empty none = ""
text_or_empty (some s) = s

unfoldable pub extract_field : (payload : Value) (field_names : List String) → String
extract_field payload field_names = text_or_empty (first_text payload field_names)

-- The text under `req.body`, and the order of the places: the payload, its fields, the body's.
abbrev pub body_of : Option Value → Option Value
body_of none = none
body_of (some req) = get_field "body" req

abbrev pub body_text : Option Value → List String → String
body_text none field_names = ""
body_text (some body) field_names = elim (first_text body field_names) [
  | some s ↦ s
  | none ↦ text_or_empty (as_str (some body))
]

unfoldable pub extract_text : (payload : Value) (field_names : List String) → String
extract_text (string s) field_names = s
extract_text payload field_names = elim (first_text payload field_names) [
  | some s ↦ s
  | none ↦ body_text (body_of (get_field "req" payload)) field_names
]
