-- ===== src/Tests/Samples.antt =====
-- The flows of the tests: a chain of three nodes with a short cut, one with a disabled node, and
-- one with a cycle.
use mathlib.Core.List.Perm
use mathlib.Core.List.{reverse, reverse_perm}
use z8run.Base.{ℕ, Bool, true, false, ◌+◌, ◌*◌, List, [], ◌∷◌}
use z8run.Json.{null, no_fields}
use z8run.Node.{Node, Port, PortType, any, string, input, output}
use z8run.Flow.{Edge, Flow, idle}
use z8run.Kahn.{HashOrder}

abbrev pub in_port : PortType → Port
in_port t = record {
  name = "in";
  direction = input;
  port_type = t;
  description = "";
  required = false;
}

abbrev pub out_port : PortType → Port
out_port t = record {
  name = "out";
  direction = output;
  port_type = t;
  description = "";
  required = false;
}

abbrev pub node : ℕ → Bool → Node
node id enabled = record {
  id = id;
  name = "n";
  node_type = "process";
  inputs = in_port any ∷ [];
  outputs = out_port string ∷ [];
  config = null;
  enabled = enabled;
}

abbrev pub edge : ℕ → ℕ → Edge
edge a b = record { id = 10 * a + b; from_node = a; from_port = "out"; to_node = b; to_port = "in" }

abbrev pub flow : List Node → List Edge → Flow
flow nodes edges = record {
  id = 99;
  name = "Test Flow";
  description = "";
  version = "0.1.0";
  nodes = nodes;
  edges = edges;
  metadata = record { positions = no_fields; zoom = "0.0"; notes = [] };
  config = record { env_vars = no_fields; credentials = []; timeout_ms = 0; buffer_size = 0 };
  status = idle;
  created_at = 0;
  updated_at = 0;
}

abbrev pub chain : Flow
chain = flow (node 2 true ∷ node 1 true ∷ node 3 true ∷ []) (edge 1 2 ∷ edge 2 3 ∷ edge 1 3 ∷ [])

abbrev pub partly : Flow
partly = flow (node 1 true ∷ node 2 false ∷ node 3 true ∷ []) (edge 1 2 ∷ edge 2 3 ∷ edge 1 3 ∷ [])

abbrev pub cyclic : Flow
cyclic = flow (node 1 true ∷ node 2 true ∷ []) (edge 1 2 ∷ edge 2 1 ∷ [])

-- The loop at 2 is a cycle, and the edge to the missing node 7 hides it.
abbrev pub dangling : Flow
dangling = flow (node 1 true ∷ node 2 true ∷ []) (edge 1 7 ∷ edge 2 2 ∷ [])

-- The map read in the order of insertion.
abbrev pub insertion_order : HashOrder
insertion_order = record { iter = λ m. m; iter_perm = Perm.refl }

-- The map read backwards.
abbrev pub reverse_order : HashOrder
reverse_order = record { iter = reverse; iter_perm = reverse_perm }
