-- ===== src/Api/Canvas.antt =====
-- `canvas_to_flow` and `resolve_vault_refs` of crates/z8run-api/src/routes.rs: the flow that a
-- canvas stands for.
pub mod Compiled
use z8run.Base.{
  ℕ, suc, ◌+◌, String, Bool, true, false, Option, none, some, List, [], ◌∷◌, ◌++◌, if◌then◌else◌,
  str_eq,
}
use z8run.Json.{
  Value, null, bool, number, string, array, object, Items, no_items, item, Fields, no_fields, entry,
  lookup,
}
use z8run.StringMap.{StringMap, get, put}
use z8run.Error.{Uuid}
use z8run.Node.{Node, PortType, new_node, with_input, with_output, with_config}
use z8run.Flow.{Edge, Flow, new_flow}
use z8run.Nodes.{get_field}
use z8run.Api.{
  ApiError, ApiResult, ok, err, bad_request, index, str_of, unwrap_or, as_array, strip_prefix,
}
use z8run.Api.Hooks.{canvas_nodes}

abbrev pub parse_port_type : String → PortType
parse_port_type s =
    if str_eq s "string"
    then PortType.string
    else if str_eq s "number"
    then PortType.number
    else if str_eq s "boolean"
    then PortType.boolean
    else if str_eq s "object"
    then PortType.object
    else if str_eq s "array"
    then PortType.array
    else if str_eq s "binary"
    then PortType.binary
    else PortType.any

-- `vault.retrieve` for the keys of a user; `none` is an error.
abbrev pub Vault : Type 0
Vault = Uuid → String → Option String

-- A text that starts with "vault:" and is no key of the vault stays as it is.
abbrev pub secret_of : (reference : String) → Option String → (String → Option String) → String
secret_of reference none retrieve = reference
secret_of reference (some key) retrieve = unwrap_or reference (retrieve key)

-- The keys of a map are distinct, so inserting them one after the other keeps their order.
module _ (vault : Vault) (user_id : Uuid) where
  unfoldable mutual
    unfolding strip_prefix

    pub resolve_vault_refs : Value → Value
    resolve_vault_refs (string s) = string (secret_of s (strip_prefix "vault:" s) (vault user_id))
    resolve_vault_refs (object fs) = object (resolve_fields fs)
    resolve_vault_refs (array vs) = array (resolve_items vs)
    resolve_vault_refs null = null
    resolve_vault_refs (bool b) = bool b
    resolve_vault_refs (number n) = number n

    pub resolve_fields : Fields → Fields
    resolve_fields no_fields = no_fields
    resolve_fields (entry k v fs) = entry k (resolve_vault_refs v) (resolve_fields fs)

    pub resolve_items : Items → Items
    resolve_items no_items = no_items
    resolve_items (item v vs) = item (resolve_vault_refs v) (resolve_items vs)

abbrev pub port_name : (default : String) → Value → String
port_name default port = unwrap_or default (str_of (index port "id"))

abbrev pub port_type : Value → PortType
port_type port = parse_port_type (unwrap_or "any" (str_of (index port "type")))

unfoldable pub add_inputs : Items → Node → Node
unfolding with_input index
add_inputs no_items n = n
add_inputs (item port ports) n =
    add_inputs ports (with_input n (port_name "input" port) (port_type port))

unfoldable pub add_outputs : Items → Node → Node
unfolding with_output index
add_outputs no_items n = n
add_outputs (item port ports) n =
    add_outputs ports (with_output n (port_name "output" port) (port_type port))

-- The ports of the canvas, or one of each kind.
abbrev pub input_ports : Option Items → Node → Node
input_ports none n = with_input n "input" PortType.any
input_ports (some ports) n = add_inputs ports n

abbrev pub output_ports : Option Items → Node → Node
output_ports none n = with_output n "output" PortType.any
output_ports (some ports) n = add_outputs ports n

abbrev pub set_config : Option Value → Node → Node
set_config none n = n
set_config (some config) n = with_config n config

abbrev pub canvas_id : Value → String
canvas_id node = unwrap_or "unknown" (str_of (index node "id"))

abbrev pub or_else {ℓ} : {A : Type ℓ} → Option A → Option A → Option A
or_else none other = other
or_else (some a) other = some a

-- The flow so far and the map from canvas identifiers to those of its nodes.
abbrev pub Compiled : Type 0
Compiled = Flow × StringMap Uuid

-- `Uuid::new_v5` of the flow and the canvas identifier, the vault and the fresh identifiers of
-- the edges are parameters.
module _ (new_v5 : Uuid → String → Uuid) (vault : Vault) (user_id : Uuid) where
  abbrev pub config_of : Option Value → Option Value
  config_of none = none
  config_of (some config) = some (resolve_vault_refs vault user_id config)

  unfoldable pub compile_node : (namespace : Uuid) → Value → Node
  unfolding new_node index add_inputs add_outputs resolve_vault_refs get_field with_input
      with_output with_config
  compile_node namespace node =
      let data_of = index node "data" in
      let node_type =
        unwrap_or "function"
          (or_else (str_of (index data_of "type")) (str_of (index data_of "nodeType"))) in
      let label = unwrap_or "Node" (str_of (index data_of "label")) in
      let core_node = new_node (new_v5 namespace (canvas_id node)) label node_type in
      set_config (config_of (get_field "config" data_of)) (
        output_ports (as_array (some (index data_of "outputs")))
          (input_ports (as_array (some (index data_of "inputs"))) core_node))

  unfoldable pub compile_nodes : Items → Compiled → Compiled
  unfolding compile_node put
  compile_nodes no_items c = c
  compile_nodes (item node nodes) (f, id_map) =
      let n = compile_node f.id node in
      compile_nodes nodes (record f { nodes = f.nodes ++ n ∷ [] }, put (canvas_id node) n.id id_map)

-- An edge whose ends are both known.
abbrev pub edge_between :
    (id : Uuid) → Option Uuid → (from_port : String) → Option Uuid → (to_port : String) → List Edge
edge_between id (some from_id) from_port (some to_id) to_port =
    record {
      id = id;
      from_node = from_id;
      from_port = from_port;
      to_node = to_id;
      to_port = to_port;
    }
    ∷ []
edge_between id _ from_port _ to_port = []

abbrev pub end_of : (key : String) → Value → String
end_of key edge = unwrap_or "" (str_of (index edge key))

unfoldable pub compile_edges : (fresh : ℕ → Uuid) → ℕ → StringMap Uuid → Items → List Edge
unfolding get index
compile_edges fresh k id_map no_items = []
compile_edges fresh k id_map (item edge edges) =
    edge_between (fresh k) (get (end_of "source" edge) id_map)
      (unwrap_or "output" (str_of (index edge "sourceHandle"))) (get (end_of "target" edge) id_map)
      (unwrap_or "input" (str_of (index edge "targetHandle")))
    ++ compile_edges fresh (suc k) id_map edges

abbrev pub canvas_edges : Flow → Items
canvas_edges f = unwrap_or no_items (as_array (lookup "canvas_edges" f.metadata.positions))

abbrev pub started : (now : ℕ) → Flow → Flow
started now stored = record (new_flow stored.id now stored.name) {
  description = stored.description;
}

abbrev pub with_edges : (fresh : ℕ → Uuid) → Items → Compiled → Compiled
with_edges fresh edges (f, id_map) =
    (record f { edges = compile_edges fresh 0 id_map edges }, id_map)

unfoldable pub canvas_to_flow :
    (new_v5 : Uuid → String → Uuid) (fresh : ℕ → Uuid) (now : ℕ) (vault : Vault)
    → (stored : Flow) (user_id : Uuid) → ApiResult Compiled
unfolding canvas_nodes compile_nodes compile_edges new_flow lookup
canvas_to_flow new_v5 fresh now vault stored user_id = elim (canvas_nodes stored) [
  | none ↦ err (bad_request "No canvas nodes found. Save the flow first.")
  | some nodes ↦ ok (
      with_edges fresh (canvas_edges stored)
        (compile_nodes new_v5 vault user_id nodes (started now stored, [])))
]
