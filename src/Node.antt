-- ===== src/Node.antt =====
-- crates/z8run-core/src/node.rs: port types, ports and nodes.
use z8run.Base.{String, Bool, true, false, ◌||◌, Option, List, [], ◌∷◌, ◌++◌, find, str_eq}
use z8run.Json.{Value, null}
use z8run.Error.{Uuid}

pub data PortType : Type 0 where
  any string number boolean object array binary : PortType

pub PortType-discrete : Discrete PortType
PortType-discrete = hlevel

-- `Display for PortType`
unfoldable pub to_string : PortType → String
to_string any = "any"
to_string string = "string"
to_string number = "number"
to_string boolean = "boolean"
to_string object = "object"
to_string array = "array"
to_string binary = "binary"

-- The derived `PartialEq`.
unfoldable pub port_type_eq : PortType → PortType → Bool
port_type_eq any any = true
port_type_eq string string = true
port_type_eq number number = true
port_type_eq boolean boolean = true
port_type_eq object object = true
port_type_eq array array = true
port_type_eq binary binary = true
port_type_eq _ _ = false

unfoldable pub is_compatible_with : PortType → PortType → Bool
unfolding port_type_eq
is_compatible_with a b = port_type_eq a b || port_type_eq a any || port_type_eq b any

pub data PortDirection : Type 0 where
  input output : PortDirection

pub record Port : Type 0 where
  pub name : String
  pub direction : PortDirection
  pub port_type : PortType
  pub description : String
  pub required : Bool

-- `NodeType(String)` is its text.
pub record Node : Type 0 where
  pub id : Uuid
  pub name : String
  pub node_type : String
  pub inputs : List Port
  pub outputs : List Port
  pub config : Value
  pub enabled : Bool

-- `Node::new`; the fresh identifier is an argument.
unfoldable pub new_node : Uuid → String → String → Node
new_node id name node_type = record {
  id = id;
  name = name;
  node_type = node_type;
  inputs = [];
  outputs = [];
  config = null;
  enabled = true;
}

abbrev new_port : PortDirection → String → PortType → Port
new_port direction name port_type = record {
  name = name;
  direction = direction;
  port_type = port_type;
  description = "";
  required = false;
}

unfoldable pub with_input : Node → String → PortType → Node
with_input n name t = record n { inputs = n.inputs ++ new_port input name t ∷ [] }

unfoldable pub with_output : Node → String → PortType → Node
with_output n name t = record n { outputs = n.outputs ++ new_port output name t ∷ [] }

unfoldable pub with_config : Node → Value → Node
with_config n config = record n { config = config }

unfoldable pub find_input : Node → String → Option Port
find_input n name = find (λ p. str_eq p.name name) n.inputs

unfoldable pub find_output : Node → String → Option Port
find_output n name = find (λ p. str_eq p.name name) n.outputs
