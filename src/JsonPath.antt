-- ===== src/JsonPath.antt =====
-- crates/z8run-core/src/utils/json_path.rs: fields of a JSON value by a path with dots.
pub mod Laws
use Prim.Native.String
use Prim.Native.Char.{Char, code}
use z8run.Base.{
  ℕ, zero, suc, String, Bool, true, false, Option, none, some, List, [], ◌∷◌, ◌==◌, is_some,
  if◌then◌else◌,
}
use z8run.Json.{
  Value, null, bool, number, string, array, object, Items, no_items, item, Fields, no_fields,
  lookup, insert, remove,
}

-- `path.split('.')`: the first segment and the rest.
abbrev pub put_first : Char → String × List String → String × List String
put_first c (first, rest) = (String.◌∷◌ c first, rest)

unfoldable pub split_dots : String → String × List String
split_dots String.[] = (String.[], [])
split_dots (String.◌∷◌ c s) =
    let (first, rest) = split_dots s in
    if code c == b'.' then (String.[], first ∷ rest) else put_first c (first, rest)

abbrev pub segments : String → List String
segments path = (split_dots path).0 ∷ (split_dots path).1

-- `arr.get(idx)`
unfoldable pub nth : ℕ → Items → Option Value
nth n no_items = none
nth zero (item v items) = some v
nth (suc n) (item v items) = nth n items

-- `segment.parse::<usize>()` is a parameter.
module _ (parse_index : String → Option ℕ) where
  abbrev pub at_index : Option ℕ → Items → Option Value
  at_index none items = none
  at_index (some n) items = nth n items

  -- One turn of the loop of `json_path_get`.
  abbrev pub child : Value → String → Option Value
  child (object fs) segment = lookup segment fs
  child (array items) segment = at_index (parse_index segment) items
  child _ segment = none

  unfoldable pub get_segments : Value → List String → Option Value
  get_segments v [] = some v
  get_segments v (s ∷ ss) = elim (child v s) [ none ↦ none | some w ↦ get_segments w ss ]

  unfoldable pub json_path_get : Value → String → Option Value
  json_path_get root path = get_segments root (segments path)

  -- `json_path_lookup`, the same loop with `Value::Null` where a segment is missing.
  unfoldable pub lookup_segments : Value → List String → Value
  lookup_segments v [] = v
  lookup_segments v (s ∷ ss) = elim (child v s) [ none ↦ null | some w ↦ lookup_segments w ss ]

  unfoldable pub json_path_lookup : Value → String → Value
  json_path_lookup root path = lookup_segments root (segments path)

-- The object to descend into: the one under the key, or a new one that replaces what is there.
abbrev pub fields_of : Option Value → Fields
fields_of (some (object fs)) = fs
fields_of _ = no_fields

unfoldable pub set_fields : Fields → (first : String) → List String → Value → Fields
set_fields fs s [] v = insert s v fs
set_fields fs s (t ∷ ts) v = insert s (object (set_fields (fields_of (lookup s fs)) t ts v)) fs

abbrev pub set_segments : Value → (first : String) → List String → Value → Value
set_segments (object fs) s ss v = object (set_fields fs s ss v)
set_segments root s ss v = root

unfoldable pub json_path_set : Value → String → Value → Value
unfolding set_fields
json_path_set root path v = set_segments root (split_dots path).0 (split_dots path).1 v

-- Only an object under the key is descended into.
unfoldable pub remove_fields : Fields → (first : String) → List String → Fields
remove_fields fs s [] = remove s fs
remove_fields fs s (t ∷ ts) = elim (lookup s fs) [
  | none ↦ fs
  | some null ↦ fs
  | some (bool b) ↦ fs
  | some (number n) ↦ fs
  | some (string x) ↦ fs
  | some (array items) ↦ fs
  | some (object gs) ↦ insert s (object (remove_fields gs t ts)) fs
]

abbrev pub remove_segments : Value → (first : String) → List String → Value
remove_segments (object fs) s ss = object (remove_fields fs s ss)
remove_segments root s ss = root

unfoldable pub json_path_remove : Value → String → Value
unfolding remove_fields
json_path_remove root path = remove_segments root (split_dots path).0 (split_dots path).1
