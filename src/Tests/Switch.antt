-- ===== src/Tests/Switch.antt =====
-- A switch over the action in a message.
use z8run.Base.{
  ℕ, String, Bool, true, false, map, All, Option, some, none, [], ◌∷◌, ◌==◌, leb, ltb, str_eq, ◌≡◌,
  refl,
}
use z8run.Json.{Value, string, number, object, no_fields, entry}
use z8run.Message.{FlowMessage}
use z8run.JsonPath.{json_path_lookup}
use z8run.Nodes.Switch.{
  SwitchRule, SwitchNode, ValueLib, evaluate_rule, values_equal, is_empty, process,
}
use z8run.Nodes.Switch.Routes.{selected, ports_or_default, Carries, process-Ports}
use z8run.Tests.Nodes.{outside, message}

abbrev same_text : Value → Value → Bool
same_text (string a) (string b) = str_eq a b
same_text _ _ = false

abbrev lib : ValueLib
lib = record {
  F64 = ℕ;
  of_token = λ n. some n;
  parse = λ s. none;
  gt = λ a b. ltb b a;
  lt = λ a b. ltb a b;
  gte = λ a b. leb b a;
  lte = λ a b. leb a b;
  close = λ a b. a == b;
  is_zero = λ a. a == 0;
  same_value = same_text;
  to_string = λ v. "json";
  contains = λ haystack needle. str_eq haystack needle;
  is_match = λ pattern text. none;
}

abbrev no_index : String → Option ℕ
no_index s = none

abbrev equals : (value port : String) → SwitchRule
equals value port = record { rule_type = "eq"; value = string value; port = port }

abbrev by_action : SwitchNode
by_action = record {
  name = "by action";
  property = "action";
  rules = equals "create" "out1" ∷ equals "delete" "out2" ∷ equals "delete" "out3" ∷ [];
  check_all = false;
}

abbrev deletion : FlowMessage
deletion = message (object (entry "action" (string "delete") no_fields))

rule_met : evaluate_rule lib (string "delete") (equals "delete" "out2") ≡ true
unfolding evaluate_rule values_equal
rule_met = refl

nothing_is_empty : is_empty (number 0) ≡ false
unfolding is_empty
nothing_is_empty = refl

process-Ports_example :
    (map (λ o. o.source_port) (process lib no_index outside by_action deletion)
      ≡ ports_or_default (
          selected
            (evaluate_rule lib (json_path_lookup no_index deletion.payload "action"))
            false
            by_action.rules))
    × All (Carries deletion) (process lib no_index outside by_action deletion)
process-Ports_example = process-Ports lib no_index outside by_action deletion
