-- ===== src/JsonPath/Laws.antt =====
-- What is read after a field is set or removed.
use z8run.Base.{
  ◌≡◌, refl, ℕ, String, false, Option, none, some, List, [], ◌∷◌, str_eq, eq_iff, arith, All,
}
use z8run.Json.{
  Value, null, bool, number, string, array, object, Fields, lookup, insert, lookup-insert,
  lookup-remove,
}
use z8run.JsonPath.{
  split_dots, segments, child, get_segments, json_path_get, lookup_segments, json_path_lookup,
  fields_of, set_fields, json_path_set, remove_fields, json_path_remove,
}

abbrev pub or_null : Option Value → Value
or_null none = null
or_null (some v) = v

lookup-insert_same : (k : String) (v : Value) (fs : Fields) → lookup k (insert k v fs) ≡ some v
lookup-insert_same k v fs = ground (arith, lookup-insert k k v fs, eq_iff k k)

module _ (parse_index : String → Option ℕ) where
  lookup_segments_lem :
      (v : Value) (ss : List String)
      → lookup_segments parse_index v ss ≡ or_null (get_segments parse_index v ss)
  unfolding lookup_segments get_segments
  lookup_segments_lem v [] = refl
  lookup_segments_lem v (s ∷ ss) = go (child parse_index v s) refl (λ w. lookup_segments_lem w ss)
    where
      go :
          (o : Option Value)
          → child parse_index v s ≡ o
          → ((w : Value)
              → lookup_segments parse_index w ss ≡ or_null (get_segments parse_index w ss))
          → lookup_segments parse_index v (s ∷ ss) ≡ or_null (get_segments parse_index v (s ∷ ss))
      go none e rec = rw (lookup_segments, get_segments, e) refl
      go (some w) e rec = rw (lookup_segments, get_segments, e) (rec w)

  -- `json_path_lookup` is `json_path_get` with null for a missing segment.
  pub json_path_lookup_lem :
      (root : Value) (path : String)
      → json_path_lookup parse_index root path ≡ or_null (json_path_get parse_index root path)
  unfolding json_path_lookup json_path_get
  json_path_lookup_lem root path = lookup_segments_lem root (segments path)

  get-set_fields :
      (fs : Fields) (s : String) (ss : List String) (v : Value)
      → get_segments parse_index (object (set_fields fs s ss v)) (s ∷ ss) ≡ some v
  unfolding get_segments set_fields
  get-set_fields fs s [] v = rw (get_segments, lookup-insert_same s v fs) refl
  get-set_fields fs s (t ∷ ts) v =
      rw
        (
          get_segments,
          lookup-insert_same s (object (set_fields (fields_of (lookup s fs)) t ts v)) fs,
        )
        (get-set_fields (fields_of (lookup s fs)) t ts v)

  -- A value that is set in an object at a path is read back at that path, whatever stood at the
  -- keys on the way.
  pub get-set :
      (fs : Fields) (path : String) (v : Value)
      → json_path_get parse_index (json_path_set (object fs) path v) path ≡ some v
  unfolding json_path_get json_path_set
  get-set fs path v = get-set_fields fs (split_dots path).0 (split_dots path).1 v

  get-set_fields_other :
      (fs : Fields) (s k : String) (ss ks : List String) (v : Value)
      → str_eq s k ≡ false
      → get_segments parse_index (object (set_fields fs s ss v)) (k ∷ ks)
        ≡ get_segments parse_index (object fs) (k ∷ ks)
  unfolding get_segments set_fields
  get-set_fields_other fs s k [] ks v other = rw (get_segments, lookup-insert s k v fs, other) refl
  get-set_fields_other fs s k (t ∷ ts) ks v other =
      rw
        (
          get_segments,
          lookup-insert s k (object (set_fields (fields_of (lookup s fs)) t ts v)) fs,
          other,
        )
        refl

  -- A path with another first segment reads the same in an object before and after a value is set.
  pub get-set_other :
      (fs : Fields) (path other : String) (v : Value)
      → str_eq (split_dots path).0 (split_dots other).0 ≡ false
      → json_path_get parse_index (json_path_set (object fs) path v) other
        ≡ json_path_get parse_index (object fs) other
  unfolding json_path_get json_path_set
  get-set_other fs path other v e =
      get-set_fields_other fs (split_dots path).0 (split_dots other).0 (split_dots path).1
        (split_dots other).1 v e

  get-remove_fields :
      (fs : Fields) (s : String) (ss : List String)
      → All (λ t. parse_index t ≡ none) ss
      → get_segments parse_index (object (remove_fields fs s ss)) (s ∷ ss) ≡ none
  unfolding get_segments remove_fields
  get-remove_fields fs s [] h = rw (get_segments, lookup-remove s fs) refl
  get-remove_fields fs s (t ∷ ts) h = go (lookup s fs) refl (λ gs. get-remove_fields gs t ts h.1)
    where
      go :
          (o : Option Value)
          → lookup s fs ≡ o
          → ((gs : Fields)
              → get_segments parse_index (object (remove_fields gs t ts)) (t ∷ ts) ≡ none)
          → get_segments parse_index (object (remove_fields fs s (t ∷ ts))) (s ∷ t ∷ ts) ≡ none
      go none e rec = rw (remove_fields, e) (rw (get_segments, e) refl)
      go (some null) e rec = rw (remove_fields, e) (rw (get_segments, e) refl)
      go (some (bool b)) e rec = rw (remove_fields, e) (rw (get_segments, e) refl)
      go (some (number n)) e rec = rw (remove_fields, e) (rw (get_segments, e) refl)
      go (some (string x)) e rec = rw (remove_fields, e) (rw (get_segments, e) refl)
      go (some (array items)) e rec = rw (remove_fields, e) (rw (get_segments, e, h.0) refl)
      go (some (object gs)) e rec =
          rw (remove_fields, e)
            (rw (get_segments, lookup-insert_same s (object (remove_fields gs t ts)) fs) (rec gs))

  -- After a removal from an object nothing is read at the path, where no segment behind the first
  -- one is an array index.
  pub get-remove :
      (fs : Fields) (path : String)
      → All (λ t. parse_index t ≡ none) (split_dots path).1
      → json_path_get parse_index (json_path_remove (object fs) path) path ≡ none
  unfolding json_path_get json_path_remove
  get-remove fs path h = get-remove_fields fs (split_dots path).0 (split_dots path).1 h
