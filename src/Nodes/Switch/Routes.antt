-- ===== src/Nodes/Switch/Routes.antt =====
-- The ports on which a switch sends a message.
use z8run.Base.{
  ℕ, suc, String, Bool, true, false, Option, none, some, List, [], ◌∷◌, map, filter, find, All,
  if◌then◌else◌, ◌≡◌, refl, ap, Bool-cases, inl, inr,
}
use z8run.Json.{Value}
use z8run.Message.{FlowMessage, new_message, derive}
use z8run.JsonPath.{json_path_lookup}
use z8run.Nodes.{Outside, output}
use z8run.Nodes.Switch.{
  SwitchRule, SwitchNode, ValueLib, evaluate_rule, try_rules, or_default, process,
}

-- The rules that count: all that are met, or the first of them.
abbrev pub option_list {ℓ} : {A : Type ℓ} → Option A → List A
option_list none = []
option_list (some a) = a ∷ []

abbrev pub selected : (SwitchRule → Bool) → (check_all : Bool) → List SwitchRule → List SwitchRule
selected met check_all rules = if check_all then filter met rules else option_list (find met rules)

abbrev pub ports_or_default : List SwitchRule → List String
ports_or_default [] = "default" ∷ []
ports_or_default (r ∷ rs) = map (λ r. r.port) (r ∷ rs)

-- A message with the payload and the trace of another one.
abbrev pub Carries : FlowMessage → FlowMessage → Type 0
Carries m o = (o.payload ≡ m.payload) × (o.trace_id ≡ m.trace_id)

module _ (lib : ValueLib) where
  Sent : Outside → FlowMessage → List FlowMessage → List SwitchRule → Type 0
  Sent w m outs rules =
      (map (λ o. o.source_port) outs ≡ map (λ r. r.port) rules) × All (Carries m) outs

  try_rules-Sent :
      (w : Outside) (m : FlowMessage) (v : Value) (check_all : Bool) (rules : List SwitchRule)
      (made : ℕ)
      → Sent w m
          (try_rules lib w m v check_all rules made)
          (selected (evaluate_rule lib v) check_all rules)
  unfolding Sent try_rules filter find output derive new_message
  try_rules-Sent w m v true [] made = (refl, tt)
  try_rules-Sent w m v false [] made = (refl, tt)
  try_rules-Sent w m v true (r ∷ rs) made = elim (Bool-cases (evaluate_rule lib v r)) [
    | inl e ↦
        let rest = try_rules-Sent w m v true rs (suc made) in
        rw e (ap (λ l. r.port ∷ l) rest.0, ((refl, refl), rest.1))
    | inr e ↦ rw e (try_rules-Sent w m v true rs made)
  ]
  try_rules-Sent w m v false (r ∷ rs) made = elim (Bool-cases (evaluate_rule lib v r)) [
    | inl e ↦ rw e (refl, ((refl, refl), tt))
    | inr e ↦ rw e (try_rules-Sent w m v false rs made)
  ]

  or_default_ports :
      (w : Outside) (m : FlowMessage) (outs : List FlowMessage) (rules : List SwitchRule)
      → Sent w m outs rules
      → (map (λ o. o.source_port) (or_default lib w m outs) ≡ ports_or_default rules)
        × All (Carries m) (or_default lib w m outs)
  unfolding Sent output derive new_message
  or_default_ports w m [] [] h = (refl, ((refl, refl), tt))
  or_default_ports w m [] (r ∷ rs) h = let no = h.0 in cc
  or_default_ports w m (o ∷ outs) [] h = let no = h.0 in cc
  or_default_ports w m (o ∷ outs) (r ∷ rs) h = h

  -- A switch sends new messages with the payload and the trace of the one it got: to the port of
  -- the first rule that the value at its property meets, or, if it checks all, to the ports of all
  -- such rules in their order, and to the port default if the value meets none.
  pub process-Ports :
      (parse_index : String → Option ℕ) (w : Outside) (n : SwitchNode) (m : FlowMessage)
      → let met = evaluate_rule lib (json_path_lookup parse_index m.payload n.property) in
        let outs = process lib parse_index w n m in
        (map (λ o. o.source_port) outs ≡ ports_or_default (selected met n.check_all n.rules))
        × All (Carries m) outs
  unfolding process
  process-Ports parse_index w n m =
      let v = json_path_lookup parse_index m.payload n.property in
      or_default_ports w m _ _ (try_rules-Sent w m v n.check_all n.rules 0)
