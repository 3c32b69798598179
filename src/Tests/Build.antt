-- ===== src/Tests/Build.antt =====
-- The construction of flows at small inputs.
use mathlib.Core.Logic.{◌↔◌}
use z8run.Base.{◌⊎◌, ◌≡◌, refl, true, find}
use z8run.Error.{err, type_mismatch}
use z8run.Node.{
  string, number, any, is_compatible_with, to_string, new_node, with_input, with_output, find_input,
  find_output,
}
use z8run.Flow.{Flow, new_flow, add_node, connect, validate_edge, find_node}
use z8run.Flow.Connect.{AllValid, is_compatible_with_iff, connect-AllValid}
use z8run.Flow.Built.{Built, new_built, add_built, connect_built, Built-well_formed}
use z8run.Kahn.Acyclic.{KnownEnds}

runs : Unit {0}
unfolding connect validate_edge find_node find add_node new_flow new_node with_input with_output
    find_input find_output is_compatible_with to_string
runs = tt

-- `test_type_mismatch` of flow.rs
abbrev mismatched : Flow
mismatched =
    add_node 2
      (add_node 1 (new_flow 9 0 "Bad Flow") (with_output (new_node 1 "A" "a") "out" string))
      (with_input (new_node 2 "B" "b") "in" number)

mismatch_fails :
    (connect 5 3 mismatched 1 "out" 2 "in").1 ≡ err (type_mismatch "out" "string" "in" "number")
unfolding runs
mismatch_fails = refl

abbrev joined : Flow
joined = (connect 5 3 mismatched 1 "out" 2 "in").0

joined-Built : Built joined
joined-Built =
    connect_built 5 3 1 "out" 2 "in" (add_built 2 _ (add_built 1 _ (new_built 9 0 "Bad Flow")))

Built-well_formed_example : AllValid joined × KnownEnds joined
Built-well_formed_example = Built-well_formed joined-Built

is_compatible_with_iff_example :
    (is_compatible_with string any ≡ true) ↔ ((string ≡ any) ⊎ (string ≡ any) ⊎ (any ≡ any))
is_compatible_with_iff_example = is_compatible_with_iff string any

connect-AllValid_example : AllValid (connect 5 3 mismatched 1 "out" 2 "in").0
connect-AllValid_example =
    connect-AllValid 5 3 mismatched 1 "out" 2 "in" (Built-well_formed mismatched_built).0
  where
    mismatched_built : Built mismatched
    mismatched_built = add_built 2 _ (add_built 1 _ (new_built 9 0 "Bad Flow"))
