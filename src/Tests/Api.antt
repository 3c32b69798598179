-- ===== src/Tests/Api.antt =====
-- A flow with a hook: its canvas, its deployment and a request to it.
use z8run.Base.{
  ℕ, String, false, none, some, List, [], ◌∷◌, find, filter, if◌then◌else◌, str_eq, Memᴰ, ◌==◌, ◌≡◌,
  ◌↔◌, refl, count, elem,
}
use z8run.Json.{
  Value, null, string, array, object, no_items, item, Fields, no_fields, entry, lookup,
}
use z8run.StringMap.{StringMap, get, put}
use z8run.Error.{Uuid}
use z8run.Message.{new_message}
use z8run.Node.{Node, PortType, new_node, with_input, with_output, with_config}
use z8run.Flow.{Edge, Flow, new_flow}
use z8run.Nodes.{get_field, is_empty_text, list_of}
use z8run.HookLimits.{
  HookLimits, new_limits, find_slot, permits, set_permits, try_acquire, drop_permit,
}
use z8run.Api.{ok, index, strip_prefix}
use z8run.Api.Trigger.{visit, visit_all, search, restrict_to_trigger}
use z8run.Api.Trigger.Reach.{Reach, restrict_to_trigger_lem}
use z8run.Api.Hooks.{
  HookRoute, Deployments, canvas_nodes, matches, normalize_hook_path, node_route, collect_from,
  collect_hook_routes, row_matches, insert_routes, delete_routes, delete_snapshot, deploy_flow,
  find_hook_route, get_deployment, undeploy_flow,
}
use z8run.Api.Hooks.Deploy.{answered, AreSame, deploy_flow-collected, undeploy_flow_lem}
use z8run.Api.Canvas.{
  Vault, add_inputs, add_outputs, resolve_vault_refs, compile_node, compile_nodes, compile_edges,
  canvas_to_flow,
}
use z8run.Api.Auth.{Headers, Crypto, differences, ct_eq, verify_hook_auth, authorize_trigger}
use z8run.Api.Auth.Policy.{Authorized, authorize_trigger_iff}
use z8run.Api.Handler.{
  Request, Env, execute, trigger_node_config, admit, branch, trigger_message, hook_handler,
}
use z8run.Api.Handler.Deployed.{HasDistinctIds, nodes_of, Served, hook_handler_safe}

abbrev pub same_text : String → String
same_text s = s

abbrev trigger_config : Fields
trigger_config = entry "method" (string "GET") (
    entry "path" (string "a")
      (entry "authType" (string "bearer") (entry "authToken" (string "vault:k") no_fields)))

abbrev canvas_node : (id node_type : String) → Fields → Value
canvas_node id node_type config = object (
    entry "id" (string id) (
      entry "data"
        (object (entry "type" (string node_type) (entry "config" (object config) no_fields)))
        no_fields))

abbrev canvas_edge : (source target : String) → Value
canvas_edge source target =
    object (entry "source" (string source) (entry "target" (string target) no_fields))

abbrev pub canvas : Fields
canvas =
    entry "canvas_nodes"
      (array (
        item (canvas_node "n1" "http-in" trigger_config) (
          item (canvas_node "n2" "debug" no_fields)
            (item (canvas_node "n3" "timer" no_fields) no_items))))
      (entry "canvas_edges"
        (array (item (canvas_edge "n1" "n2") (item (canvas_edge "n3" "n2") no_items))) no_fields)

abbrev pub stored : Flow
stored = record (new_flow 5 0 "f") {
  metadata = record { positions = canvas; zoom = "1"; notes = [] };
}

abbrev pub hook_route : HookRoute
hook_route = record { method = "GET"; path = "/a"; node_id = "n1"; node_type = "http-in" }

abbrev pub no_deployments : Deployments
no_deployments = record { routes = []; snapshots = [] }

abbrev pub deployments : Deployments
deployments = record {
  routes = record { flow_id = 5; user_id = 9; route = hook_route } ∷ [];
  snapshots = record { flow_id = 5; user_id = 9; snapshot = stored } ∷ [];
}

abbrev pub v5 : Uuid → String → Uuid
v5 namespace id = if str_eq id "n1" then 11 else (if str_eq id "n2" then 12 else 13)

abbrev pub vault : Vault
vault user_id key = if str_eq key "k" then some "secret" else none

abbrev bytes : String → List ℕ
bytes s = if str_eq s "secret" then 1 ∷ [] else 2 ∷ []

abbrev crypto : Crypto
crypto = record {
  bytes = bytes;
  base64_decode = λ s. none;
  hex_decode = λ s. none;
  hmac = λ key body. some [];
}

abbrev env : Env
env = record {
  parse_uuid = λ s. some 5;
  parse_json = λ s. none;
  to_uppercase = same_text;
  crypto = crypto;
  new_v5 = v5;
  fresh = λ n. n;
  now = 3;
  trace_id = 4;
  nil = 0;
}

abbrev headers : Headers
headers name = if str_eq name "authorization" then some (some "Bearer secret") else none

abbrev request : Request
request = record {
  flow_id = some "5";
  path = some "a";
  method = "GET";
  headers = headers;
  header_fields = no_fields;
  query = null;
  body = "";
}

abbrev pub limits : HookLimits
limits = new_limits 100 2 10

runs : Unit {0}
unfolding get put lookup get_field index is_empty_text list_of strip_prefix canvas_nodes matches
    normalize_hook_path node_route collect_from collect_hook_routes row_matches insert_routes
    delete_routes delete_snapshot deploy_flow find_hook_route get_deployment undeploy_flow filter
    find visit visit_all search restrict_to_trigger count elem add_inputs add_outputs
    resolve_vault_refs compile_node compile_nodes compile_edges canvas_to_flow differences ct_eq
    verify_hook_auth authorize_trigger trigger_node_config admit branch hook_handler new_message
    new_node new_flow with_input with_output with_config new_limits find_slot permits set_permits
    try_acquire drop_permit
runs = tt

abbrev compiled_node : ℕ → String → Value → Node
compiled_node id node_type config =
    with_config
      (with_output (with_input (new_node id "Node" node_type) "input" PortType.any) "output"
        PortType.any)
      config

collected : collect_hook_routes same_text same_text stored ≡ ok (hook_route ∷ [])
unfolding runs
collected = refl

deploys : deploy_flow 5 9 stored (hook_route ∷ []) no_deployments ≡ some deployments
unfolding runs
deploys = refl

deploy_flow-collected_example :
    (s : Deployments) × (deploy_flow 5 9 stored (hook_route ∷ []) no_deployments ≡ some s)
    × ((method path : String)
        → find_hook_route 5 method path s
          ≡ answered 9 (find (matches method path) (hook_route ∷ [])))
    × (get_deployment 5 s ≡ some stored)
    × ((other : Uuid) → (other == 5) ≡ false → AreSame other no_deployments s)
unfolding runs
deploy_flow-collected_example =
    deploy_flow-collected same_text same_text stored 9 (hook_route ∷ []) no_deployments refl

undeploy_flow_lem_example :
    ((method path : String) → find_hook_route 5 method path (undeploy_flow 5 deployments) ≡ none)
    × (get_deployment 5 (undeploy_flow 5 deployments) ≡ none)
    × ((other : Uuid)
        → (other == 5) ≡ false
        → AreSame other deployments (undeploy_flow 5 deployments))
undeploy_flow_lem_example = undeploy_flow_lem 5 deployments

authorize_trigger_iff_example :
    (authorize_trigger crypto (object trigger_config) headers "" 9 vault ≡ none)
    ↔ Authorized crypto (object trigger_config) headers "" 9 vault
authorize_trigger_iff_example =
    authorize_trigger_iff crypto (object trigger_config) headers "" 9 vault

abbrev resolved_config : Value
resolved_config = object (
    entry "method" (string "GET") (
      entry "path" (string "a")
        (entry "authType" (string "bearer") (entry "authToken" (string "secret") no_fields))))

abbrev edge : ℕ → Uuid → Uuid → Edge
edge id from to = record {
  id = id;
  from_node = from;
  from_port = "output";
  to_node = to;
  to_port = "input";
}

abbrev trigger_node : Node
trigger_node = compiled_node 11 "http-in" resolved_config

abbrev debug_node : Node
debug_node = compiled_node 12 "debug" (object no_fields)

abbrev compiled : Flow
compiled = record (new_flow 5 3 "f") {
  nodes = trigger_node ∷ debug_node ∷ compiled_node 13 "timer" (object no_fields) ∷ [];
  edges = edge 0 11 12 ∷ edge 1 13 12 ∷ [];
}

abbrev id_map : StringMap Uuid
id_map = ("n1", 11) ∷ ("n2", 12) ∷ ("n3", 13) ∷ []

-- The timer does not run, and neither does its edge.
abbrev cut : Flow
cut = record compiled { nodes = trigger_node ∷ debug_node ∷ []; edges = edge 0 11 12 ∷ [] }

branch_below : restrict_to_trigger compiled 11 ≡ some cut
unfolding runs
branch_below = refl

restrict_to_trigger_lem_example :
    (g : Flow) × (restrict_to_trigger compiled 11 ≡ some g)
    × (g ≡ record compiled { nodes = g.nodes; edges = g.edges })
    × ((n : Node) → Memᴰ n g.nodes ↔ (Memᴰ n compiled.nodes × Reach compiled.edges 11 n.id))
    × ((e : Edge) → Memᴰ e g.edges ↔ (Memᴰ e compiled.edges × Reach compiled.edges 11 e.from_node))
restrict_to_trigger_lem_example = restrict_to_trigger_lem compiled 11

abbrev limits_after : HookLimits
limits_after = record limits { slots = (5, 0) ∷ []; available = 1 ∷ [] }

started :
    hook_handler env vault request deployments limits
    ≡ (execute cut (trigger_message env vault request), limits_after)
unfolding runs
started = refl

stored-HasDistinctIds : HasDistinctIds (nodes_of (canvas_nodes stored))
unfolding runs
stored-HasDistinctIds = ((refl, (refl, tt)), ((refl, tt), (tt, tt)))

hook_handler_safe_example :
    Served same_text env vault stored 9 request limits cut (trigger_message env vault request)
unfolding runs
hook_handler_safe_example =
    hook_handler_safe same_text env vault stored 9 (hook_route ∷ []) no_deployments deployments
      request limits limits_after cut (trigger_message env vault request) collected deploys
      stored-HasDistinctIds refl started

-- Two triggers with the same canvas identifier: the policy of the first one, which lets everything
-- through, is taken for the route of the second one.
abbrev twice : Flow
twice = record stored {
  metadata = record {
    positions =
        entry "canvas_nodes"
          (array (
            item (canvas_node "n1" "webhook" (entry "path" (string "b") no_fields))
              (item (canvas_node "n1" "http-in" trigger_config) no_items)))
          no_fields;
    zoom = "1";
    notes = [];
  };
}

first_policy_wins :
    trigger_node_config twice hook_route.node_id
    ≡ some (object (entry "path" (string "b") no_fields))
unfolding runs
first_policy_wins = refl
