-- ===== src/Nodes/Switch.antt =====
-- crates/z8run-core/src/nodes/switch.rs: a message goes to the ports of the rules that its value
-- meets.
pub mod Routes
use z8run.Base.{
  ℕ, suc, String, Bool, true, false, not, Option, none, some, List, [], ◌∷◌, ◌++◌, if◌then◌else◌,
  str_eq,
}
use z8run.Json.{
  Value, null, bool, number, string, array, object, Items, no_items, item, Fields, no_fields, entry,
}
use z8run.Error.{Z8Result}
use z8run.Message.{FlowMessage}
use z8run.JsonPath.{json_path_lookup}
use z8run.Nodes.{
  get_field, as_str, as_bool, is_empty_text, or_keep, contains_text, Outside, output,
  require_non_empty,
}

pub record SwitchRule : Type 0 where
  pub rule_type : String
  pub value : Value
  pub port : String

pub record SwitchNode : Type 0 where
  pub name : String
  pub property : String
  pub rules : List SwitchRule
  pub check_all : Bool

-- f64, `==` and `to_string` of serde_json, `str::contains` and the crate regex, where a pattern can
-- be refused. `close` is `(a - b).abs() < f64::EPSILON`.
pub record ValueLib : Type 1 where
  pub F64 : Type 0
  pub of_token : ℕ → Option F64
  pub parse : String → Option F64
  pub gt : F64 → F64 → Bool
  pub lt : F64 → F64 → Bool
  pub gte : F64 → F64 → Bool
  pub lte : F64 → F64 → Bool
  pub close : F64 → F64 → Bool
  pub is_zero : F64 → Bool
  pub same_value : Value → Value → Bool
  pub to_string : Value → String
  pub contains : (haystack needle : String) → Bool
  pub is_match : (pattern text : String) → Option Bool

unfoldable pub is_empty : Value → Bool
unfolding is_empty_text
is_empty null = true
is_empty (string s) = is_empty_text s
is_empty (array no_items) = true
is_empty (object no_fields) = true
is_empty _ = false

module _ (lib : ValueLib) where
  abbrev pub as_f64 : Value → Option (lib.F64)
  as_f64 (number n) = lib.of_token n
  as_f64 (string s) = lib.parse s
  as_f64 _ = none

  abbrev pub value_to_string : Value → String
  value_to_string (string s) = s
  value_to_string null = "null"
  value_to_string v = lib.to_string v

  abbrev pub both_numbers :
      (lib.F64 → lib.F64 → Bool) → Bool → Option (lib.F64) → Option (lib.F64) → Bool
  both_numbers test otherwise none b = otherwise
  both_numbers test otherwise (some a) none = otherwise
  both_numbers test otherwise (some a) (some b) = test a b

  unfoldable pub values_equal : Value → Value → Bool
  values_equal a b =
      if lib.same_value a b
      then true
      else both_numbers lib.close (str_eq (value_to_string a) (value_to_string b)) (as_f64 a)
          (as_f64 b)

  unfoldable pub compare_numbers : Value → Value → (lib.F64 → lib.F64 → Bool) → Bool
  compare_numbers a b test = both_numbers test false (as_f64 a) (as_f64 b)

  abbrev pub non_zero : Option (lib.F64) → Bool
  non_zero none = false
  non_zero (some f) = not (lib.is_zero f)

  unfoldable pub is_truthy : Value → Bool
  unfolding is_empty_text
  is_truthy null = false
  is_truthy (bool b) = b
  is_truthy (number n) = non_zero (lib.of_token n)
  is_truthy (string s) = not (is_empty_text s)
  is_truthy (array no_items) = false
  is_truthy (array (item v vs)) = true
  is_truthy (object no_fields) = false
  is_truthy (object (entry k v fs)) = true

  abbrev pub any_equal : Items → Value → Bool
  any_equal no_items v = false
  any_equal (item w ws) v = let rest = any_equal ws v in if values_equal w v then true else rest

  unfoldable pub contains_value : Value → Value → Bool
  unfolding values_equal
  contains_value (string haystack) (string needle) = lib.contains haystack needle
  contains_value (array items) v = any_equal items v
  contains_value _ v = false

  abbrev pub matched : Option Bool → Bool
  matched none = false
  matched (some b) = b

  unfoldable pub matches_pattern : Value → Value → Bool
  matches_pattern (string text) (string pattern) = matched (lib.is_match pattern text)
  matches_pattern a b = false

  unfoldable pub evaluate_rule : Value → SwitchRule → Bool
  unfolding values_equal compare_numbers contains_value matches_pattern is_empty is_truthy
  evaluate_rule actual r =
      if str_eq r.rule_type "eq"
      then values_equal actual r.value
      else if str_eq r.rule_type "neq"
      then not (values_equal actual r.value)
      else if str_eq r.rule_type "gt"
      then compare_numbers actual r.value lib.gt
      else if str_eq r.rule_type "lt"
      then compare_numbers actual r.value lib.lt
      else if str_eq r.rule_type "gte"
      then compare_numbers actual r.value lib.gte
      else if str_eq r.rule_type "lte"
      then compare_numbers actual r.value lib.lte
      else if str_eq r.rule_type "contains"
      then contains_value actual r.value
      else if str_eq r.rule_type "regex"
      then matches_pattern actual r.value
      else if str_eq r.rule_type "empty"
      then is_empty actual
      else if str_eq r.rule_type "notempty"
      then not (is_empty actual)
      else if contains_text r.rule_type ("true" ∷ "truthy" ∷ [])
      then is_truthy actual
      else if contains_text r.rule_type ("false" ∷ "falsy" ∷ [])
      then not (is_truthy actual)
      else false

  -- The loop over the rules, with the outputs so far.
  unfoldable pub try_rules :
      Outside
      → FlowMessage
      → (actual : Value) (check_all : Bool) → List SwitchRule
      → (made : ℕ) → List FlowMessage
  unfolding evaluate_rule
  try_rules w m actual check_all [] made = []
  try_rules w m actual check_all (r ∷ rs) made =
      let later = try_rules w m actual check_all rs (suc made) in
      let rest = try_rules w m actual check_all rs made in
      if evaluate_rule actual r
      then output w made m r.port m.payload ∷ (if check_all then later else [])
      else rest

  abbrev pub or_default : Outside → FlowMessage → List FlowMessage → List FlowMessage
  or_default w m [] = output w 0 m "default" m.payload ∷ []
  or_default w m (o ∷ os) = o ∷ os

  unfoldable pub process :
      (parse_index : String → Option ℕ) → Outside → SwitchNode → FlowMessage → List FlowMessage
  unfolding try_rules
  process parse_index w n m =
      or_default w m
        (try_rules w m (json_path_lookup parse_index m.payload n.property) n.check_all n.rules 0)

abbrev pub rules_or : Option (List SwitchRule) → List SwitchRule → List SwitchRule
rules_or none old = old
rules_or (some new) old = new

abbrev pub parsed_rules :
    (from_value : Value → Option (List SwitchRule)) → Option Value → Option (List SwitchRule)
parsed_rules from_value none = none
parsed_rules from_value (some v) = from_value v

-- `serde_json::from_value` is a parameter.
unfoldable pub configure :
    (from_value : Value → Option (List SwitchRule)) → Value → SwitchNode → SwitchNode
configure from_value config n = record {
  name = or_keep (as_str (get_field "name" config)) n.name;
  property = or_keep (as_str (get_field "property" config)) n.property;
  rules = rules_or (parsed_rules from_value (get_field "rules" config)) n.rules;
  check_all = or_keep (as_bool (get_field "checkAll" config)) n.check_all;
}

unfoldable pub validate : SwitchNode → Z8Result {0} Unit
validate n = require_non_empty n.property "Switch node requires a 'property' to evaluate"
