-- ===== src/Flow.antt =====
-- crates/z8run-core/src/flow.rs: the flow graph and its construction.
pub mod Connect
pub mod Built
use z8run.Base.{
  ℕ, String, not, ◌&&◌, Option, List, [], ◌∷◌, ◌++◌, map, filter, find, elem, if◌then◌else◌, ◌==◌,
}
use z8run.Json.{Fields, no_fields}
use z8run.Error.{Uuid, port_not_found, type_mismatch, invalid_edge, Z8Result, ok, err, ◌>>=◌, ok_or}
use z8run.Node.{Node, Port, is_compatible_with, to_string, find_input, find_output}

pub record Edge : Type 0 where
  pub id : Uuid
  pub from_node : Uuid
  pub from_port : String
  pub to_node : Uuid
  pub to_port : String

pub data FlowStatus : Type 0 where
  idle running paused completed error stopped : FlowStatus

-- `zoom` is an `f64` that the code only stores, so it is the text of the number.
pub record FlowMeta : Type 0 where
  pub positions : Fields
  pub zoom : String
  pub notes : List String

pub record FlowConfig : Type 0 where
  pub env_vars : Fields
  pub credentials : List String
  pub timeout_ms : ℕ
  pub buffer_size : ℕ

-- The timestamps are numbers; the clock is read by the caller.
pub record Flow : Type 0 where
  pub id : Uuid
  pub name : String
  pub description : String
  pub version : String
  pub nodes : List Node
  pub edges : List Edge
  pub metadata : FlowMeta
  pub config : FlowConfig
  pub status : FlowStatus
  pub created_at : ℕ
  pub updated_at : ℕ

-- `Flow::new`. `FlowMeta::default()` and `FlowConfig::default()` are the derived defaults, which
-- do not call the `serde` default functions: the zoom is 0.0 and the buffer size is 0.
unfoldable pub new_flow : (id : Uuid) (now : ℕ) → String → Flow
new_flow id now name = record {
  id = id;
  name = name;
  description = "";
  version = "0.1.0";
  nodes = [];
  edges = [];
  metadata = record { positions = no_fields; zoom = "0.0"; notes = [] };
  config = record { env_vars = no_fields; credentials = []; timeout_ms = 0; buffer_size = 0 };
  status = idle;
  created_at = now;
  updated_at = now;
}

unfoldable pub add_node : (now : ℕ) → Flow → Node → Flow
add_node now f n = record f { nodes = f.nodes ++ n ∷ []; updated_at = now }

unfoldable pub find_node : Flow → Uuid → Option Node
find_node f id = find (λ n. n.id == id) f.nodes

-- The type test of `connect`, for ports that were found.
abbrev checked_edge : (id : Uuid) → Uuid → String → Uuid → String → Port → Port → Z8Result Edge
checked_edge id from_node from_port to_node to_port out_port in_port =
    if is_compatible_with out_port.port_type in_port.port_type
    then ok (record {
      id = id;
      from_node = from_node;
      from_port = from_port;
      to_node = to_node;
      to_port = to_port;
    })
    else err (
        type_mismatch from_port (to_string out_port.port_type) to_port
          (to_string in_port.port_type))

-- The validations of `connect`, in the order of the code.
unfoldable pub validate_edge : (id : Uuid) → Flow → Uuid → String → Uuid → String → Z8Result Edge
unfolding find_node
validate_edge id f from_node from_port to_node to_port = do
  source ← ok_or (invalid_edge from_node to_node) (find_node f from_node)
  target ← ok_or (invalid_edge from_node to_node) (find_node f to_node)
  out_port ← ok_or (port_not_found from_node from_port) (find_output source from_port)
  in_port ← ok_or (port_not_found to_node to_port) (find_input target to_port)
  checked_edge id from_node from_port to_node to_port out_port in_port

-- `connect` returns the flow afterwards; on an error it is unchanged.
abbrev insert_edge : (now : ℕ) → Flow → Z8Result Edge → Flow × Z8Result Edge
insert_edge now f (ok e) = (record f { edges = f.edges ++ e ∷ []; updated_at = now }, ok e)
insert_edge now f (err e) = (f, err e)

unfoldable pub connect :
    (id : Uuid) (now : ℕ) → Flow → Uuid → String → Uuid → String → Flow × Z8Result Edge
connect id now f from_node from_port to_node to_port =
    insert_edge now f (validate_edge id f from_node from_port to_node to_port)

-- `outgoing_edges` over the edges of the flow.
unfoldable pub outgoing : List Edge → Uuid → List Edge
outgoing edges node_id = filter (λ e. e.from_node == node_id) edges

unfoldable pub outgoing_edges : Flow → Uuid → List Edge
outgoing_edges f node_id = outgoing f.edges node_id

unfoldable pub incoming_edges : Flow → Uuid → List Edge
incoming_edges f node_id = filter (λ e. e.to_node == node_id) f.edges

-- Nodes with no incoming edge, if enabled.
unfoldable pub root_nodes : Flow → List Node
root_nodes f =
    let targets = map (λ e. e.to_node) f.edges in
    filter (λ n. n.enabled && not (elem n.id targets)) f.nodes
