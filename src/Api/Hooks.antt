-- ===== src/Api/Hooks.antt =====
-- The hook routes of crates/z8run-api/src/routes.rs and the deployments of
-- crates/z8run-storage/src/sqlite.rs.
pub mod Routes
pub mod Deploy
use Prim.Native.String
use Prim.Native.String.{◌++◌ as text_append}
use Prim.Native.Char.{Char, code}
use z8run.Base.{
  ℕ, String, Bool, true, false, ◌&&◌, not, Option, none, some, List, [], ◌∷◌, ◌++◌, map, filter,
  find, if◌then◌else◌, ◌==◌, str_eq,
}
use z8run.Json.{Value, Items, no_items, item, lookup}
use z8run.Error.{Uuid}
use z8run.Flow.{Flow}
use z8run.Nodes.{get_field, is_empty_text, contains_text}
use z8run.Api.{ApiError, ApiResult, ok, err, bad_request, index, str_of, unwrap_or, as_array}

pub record HookRoute : Type 0 where
  pub method : String
  pub path : String
  pub node_id : String
  pub node_type : String

pub record HookMatch : Type 0 where
  pub user_id : Uuid
  pub node_id : String

abbrev pub hook_node_types : List String
hook_node_types = "http-in" ∷ "webhook" ∷ "webhook-trigger" ∷ []

-- `trim_start_matches('/')`
abbrev pub strip_slashes : String → String
strip_slashes String.[] = String.[]
strip_slashes (String.◌∷◌ c s) =
    let rest = strip_slashes s in if code c == b'/' then rest else String.◌∷◌ c s

-- The canvas nodes of a stored flow.
unfoldable pub canvas_nodes : Flow → Option Items
canvas_nodes f = as_array (lookup "canvas_nodes" f.metadata.positions)

unfoldable pub matches : (method path : String) → HookRoute → Bool
matches method path r = str_eq r.method method && str_eq r.path path

abbrev pub duplicate : HookRoute → (existing : HookRoute) → ApiError
duplicate r existing = bad_request (
    text_append "Duplicate hook route " (
      text_append r.method (
        text_append " " (
          text_append r.path (
            text_append ": declared by nodes '" (
              text_append existing.node_id (text_append "' and '" (text_append r.node_id "'"))))))))

-- `str::trim` and `str::to_uppercase` are parameters.
module _ (trim to_uppercase : String → String) where
  unfoldable pub normalize_hook_path : String → String
  normalize_hook_path path =
      let trimmed = trim path in
      if is_empty_text trimmed
      then "/"
      else if str_eq trimmed "/"
      then "/"
      else text_append "/" (strip_slashes trimmed)

  -- The route that a canvas node declares, if it is a trigger with an identifier.
  abbrev pub declared :
      (node_type : String) → (node_id : Option String) → (config : Value) → Option HookRoute
  declared node_type none config = none
  declared node_type (some node_id) config =
      if is_empty_text node_id
      then none
      else some (record {
        method = to_uppercase (unwrap_or "POST" (str_of (index config "method")));
        path = normalize_hook_path (unwrap_or "/" (str_of (index config "path")));
        node_id = node_id;
        node_type = node_type;
      })

  unfoldable pub node_route : Value → Option HookRoute
  unfolding index normalize_hook_path
  node_route node =
      let data_of = index node "data" in
      let node_type = unwrap_or "" (str_of (index data_of "type")) in
      if contains_text node_type hook_node_types
      then declared node_type (str_of (index node "id")) (index data_of "config")
      else none

  -- The loop over the canvas nodes.
  unfoldable pub collect_from : Items → List HookRoute → ApiResult (List HookRoute)
  unfolding node_route matches
  collect_from no_items routes = ok routes
  collect_from (item node nodes) routes = elim (node_route node) [
    | none ↦ collect_from nodes routes
    | some r ↦ elim (find (matches r.method r.path) routes) [
      | some existing ↦ err (duplicate r existing)
      | none ↦ collect_from nodes (routes ++ r ∷ [])
    ]
  ]

  unfoldable pub collect_hook_routes : Flow → ApiResult (List HookRoute)
  unfolding collect_from canvas_nodes
  collect_hook_routes f = elim (canvas_nodes f) [
    | none ↦ ok []
    | some nodes ↦ collect_from nodes []
  ]

-- The rows of the tables hook_routes, with the primary key (flow_id, method, path), and
-- flow_deployments, with the primary key flow_id.
pub record RouteRow : Type 0 where
  pub flow_id : Uuid
  pub user_id : Uuid
  pub route : HookRoute

pub record Deployment : Type 0 where
  pub flow_id : Uuid
  pub user_id : Uuid
  pub snapshot : Flow

pub record Deployments : Type 0 where
  pub routes : List RouteRow
  pub snapshots : List Deployment

-- `WHERE flow_id = ? AND method = ? AND path = ?`
unfoldable pub row_matches : Uuid → (method path : String) → RouteRow → Bool
unfolding matches
row_matches flow_id method path row = (row.flow_id == flow_id) && matches method path row.route

-- The inserts of a transaction; one that violates the primary key fails it.
unfoldable pub insert_routes :
    (flow_id user_id : Uuid) → List HookRoute → List RouteRow → Option (List RouteRow)
unfolding row_matches
insert_routes flow_id user_id [] rows = some rows
insert_routes flow_id user_id (r ∷ rs) rows =
    elim (find (row_matches flow_id r.method r.path) rows) [
      | some taken ↦ none
      | none ↦
          insert_routes flow_id user_id rs
            (rows ++ record { flow_id = flow_id; user_id = user_id; route = r } ∷ [])
    ]

unfoldable pub delete_routes : Uuid → List RouteRow → List RouteRow
delete_routes flow_id rows = filter (λ row. not (row.flow_id == flow_id)) rows

unfoldable pub delete_snapshot : Uuid → List Deployment → List Deployment
delete_snapshot flow_id ds = filter (λ d. not (d.flow_id == flow_id)) ds

-- `deploy_flow`: `none` is an error of the database, which rolls the transaction back. The
-- snapshot is stored whole: its JSON is read back as it was written.
unfoldable pub deploy_flow :
    (flow_id user_id : Uuid) → Flow → List HookRoute → Deployments → Option Deployments
unfolding delete_routes delete_snapshot insert_routes
deploy_flow flow_id user_id snapshot routes s =
    elim (insert_routes flow_id user_id routes (delete_routes flow_id s.routes)) [
      | none ↦ none
      | some rows ↦ some (record {
        routes = rows;
        snapshots =
            delete_snapshot flow_id s.snapshots
            ++ record { flow_id = flow_id; user_id = user_id; snapshot = snapshot } ∷ [];
      })
    ]

abbrev pub match_of : Option RouteRow → Option HookMatch
match_of none = none
match_of (some row) = some (record { user_id = row.user_id; node_id = row.route.node_id })

unfoldable pub find_hook_route :
    (flow_id : Uuid) (method path : String) → Deployments → Option HookMatch
unfolding row_matches
find_hook_route flow_id method path s = match_of (find (row_matches flow_id method path) s.routes)

abbrev pub snapshot_of : Option Deployment → Option Flow
snapshot_of none = none
snapshot_of (some d) = some d.snapshot

unfoldable pub get_deployment : Uuid → Deployments → Option Flow
get_deployment flow_id s = snapshot_of (find (λ d. d.flow_id == flow_id) s.snapshots)

unfoldable pub undeploy_flow : Uuid → Deployments → Deployments
unfolding delete_routes delete_snapshot
undeploy_flow flow_id s = record {
  routes = delete_routes flow_id s.routes;
  snapshots = delete_snapshot flow_id s.snapshots;
}
