-- ===== src/Api/Flows.antt =====
-- The handlers of crates/z8run-api/src/routes.rs for the flows of a user. What a handler answers is
-- the value that its JSON is made of.
pub mod Transfer
pub mod Kept
pub mod Started
pub mod Isolation
pub mod Hidden
pub mod Leftover
use Prim.Native.String.{◌++◌ as text_append}
use z8run.Base.{ℕ, String, Bool, true, false, Option, none, some, List, [], ◌∷◌, map, is_some}
use z8run.Json.{Value, Fields, insert}
use z8run.StringMap.{StringMap}
use z8run.Error.{Uuid, Z8Error, Z8Result}
use z8run.Flow.{Flow, FlowMeta, new_flow}
use z8run.Kahn.{HashOrder}
use z8run.Engine.{CancelHandle, FlowEngine, Driver, stop}
use z8run.Engine.Start.{execute_with_trigger}
use z8run.HookLimits.{HookLimits, release}
use z8run.Nodes.{get_field}
use z8run.Storage.{
  StorageError, database, flow_not_found, user_not_found, serialization, encryption, migration,
  StorageResult, Failure, query,
}
use z8run.Storage.Flows.{
  FlowTables, ExecutionRecord, save_flow, save_flow_with_user, get_flow_for_user,
  list_flows_by_user, delete_flow_for_user,
}
use z8run.Storage.Executions.{get_history}
use z8run.Api.{ApiError, ApiResult, ok, err, bad_request, index, str_of, unwrap_or}
use z8run.Api.CanvasShape.{validate_canvas}
use z8run.Api.Canvas.{Vault, Compiled, canvas_to_flow}
use z8run.Api.Hooks.{
  HookRoute, Deployments, collect_hook_routes, deploy_flow, get_deployment, undeploy_flow,
}

pub record Server : Type 0 where
  pub tables : FlowTables
  pub limits : HookLimits
  pub engine : FlowEngine

-- Texts, identifiers, the registered types of nodes in the order of texts, the clock, and whether
-- the database fails the n-th query of a handler.
pub record Env : Type 0 where
  pub show : Uuid → String
  pub show_error : Z8Error → String
  pub digits : ℕ → String
  pub trim : String → String
  pub to_uppercase : String → String
  pub new_v5 : Uuid → String → Uuid
  pub fresh : ℕ → Uuid
  pub flow_id : Uuid
  pub trace_id : Uuid
  pub cancel : CancelHandle
  pub now : ℕ
  pub order : HashOrder
  pub node_types : List String
  pub fails : ℕ → Failure
  pub vault : Vault

pub data Reply : Type 0 where
  listed : List (Flow × Option ExecutionRecord) → Reply
  created : Flow → Reply
  updated : Flow → Reply
  shown : Flow → (is_deployed : Bool) → Reply
  deleted : Uuid → Reply
  deployed : Uuid → StringMap Uuid → List HookRoute → Reply
  running : (id trace_id : Uuid) → StringMap Uuid → Reply
  stopped : Uuid → Reply
  history : Uuid → List ExecutionRecord → Reply
  exported : Flow → Reply
  imported : Flow → (nodes edges : ℕ) → Reply

abbrev pub Handled : Type 0
Handled = Server × ApiResult Reply

abbrev pub answer : (status : ℕ) → String → ApiError
answer status message = record { status = status; message = message }

abbrev pub set_text : Option String → String → String
set_text none old = old
set_text (some new) old = new

abbrev pub put_position : (key : String) → Option Value → Fields → Fields
put_position key none fs = fs
put_position key (some v) fs = insert key v fs

-- `update_flow` between the load and the save.
unfoldable pub with_payload : (now : ℕ) → Value → Flow → Flow
unfolding index get_field insert
with_payload now payload f = record f {
  name = set_text (str_of (index payload "name")) f.name;
  description = set_text (str_of (index payload "description")) f.description;
  metadata = record f.metadata {
    positions = put_position "viewport" (get_field "viewport" payload) (
        put_position "canvas_edges" (get_field "canvas_edges" payload)
          (put_position "canvas_nodes" (get_field "canvas_nodes" payload) f.metadata.positions));
  };
  updated_at = now;
}

abbrev pub with_deployments : Deployments → Server → Server
with_deployments d s = record s { tables = record s.tables { deployments = d } }

module _ (env : Env) where
  -- `From<StorageError> for ApiError`
  unfoldable pub of_storage_error : StorageError → ApiError
  of_storage_error (flow_not_found id) = answer 404 (text_append "Flow not found: " (env.show id))
  of_storage_error (user_not_found name) = answer 404 (text_append "User not found: " name)
  of_storage_error (database text) = answer 500 (text_append "Database error: " text)
  of_storage_error (serialization text) = answer 500 (text_append "Serialization error: " text)
  of_storage_error (encryption text) = answer 500 (text_append "Encryption error: " text)
  of_storage_error (migration text) = answer 500 (text_append "Migration error: " text)

  -- `.await.map_err(ApiError::from)?` of a query that returns a value, and of one that writes.
  abbrev pub having {ℓ} : {A : Type ℓ} → StorageResult A → Server → (A → Handled) → Handled
  having (StorageResult.err e) s next = (s, err (of_storage_error e))
  having (StorageResult.ok a) s next = next a

  abbrev pub last_run : StorageResult (List ExecutionRecord) → Option ExecutionRecord
  last_run (StorageResult.ok (x ∷ xs)) = some x
  last_run _ = none

  unfoldable pub list_flows : (user : Uuid) → Server → Handled
  unfolding list_flows_by_user get_history
  list_flows user s = having (list_flows_by_user (env.fails 0) user s.tables) s (λ fs.
      (s, ok (listed (map (λ f. (f, last_run (get_history (env.fails 1) f.id 1 s.tables))) fs))))

  unfoldable pub named_flow : (name : String) → Value → Flow
  unfolding new_flow index
  named_flow name payload = record (new_flow env.flow_id env.now name) {
    description = unwrap_or "" (str_of (index payload "description"));
  }

  abbrev pub create_named : (user : Uuid) → Value → Server → Option String → Handled
  create_named user payload s none = (s, err (bad_request "Field 'name' is required"))
  create_named user payload s (some name) =
      let f = named_flow name payload in
      having (save_flow_with_user env.now (env.fails 0) f user s.tables) s
        (λ t. (record s { tables = t }, ok (created f)))

  unfoldable pub create_flow : (user : Uuid) → Value → Server → Handled
  unfolding index named_flow save_flow_with_user
  create_flow user payload s = create_named user payload s (str_of (index payload "name"))

  abbrev pub checked : ApiResult {0} Unit → Server → Handled → Handled
  checked (err e) s next = (s, err e)
  checked (ok u) s next = next

  unfoldable pub update_flow : (user id : Uuid) → Value → Server → Handled
  unfolding validate_canvas get_flow_for_user save_flow with_payload
  update_flow user id payload s = checked (validate_canvas env.digits payload) s (
      having (get_flow_for_user (env.fails 0) id user s.tables) s (λ f.
        let g = with_payload env.now payload f in
        having (save_flow env.now (env.fails 1) g s.tables) s
          (λ t. (record s { tables = t }, ok (updated g)))))

  unfoldable pub get_flow : (user id : Uuid) → Server → Handled
  unfolding get_flow_for_user get_deployment
  get_flow user id s = having (get_flow_for_user (env.fails 0) id user s.tables) s (λ f.
      having (query (env.fails 1) (get_deployment id s.tables.deployments)) s
        (λ d. (s, ok (shown f (is_some d)))))

  abbrev pub after_delete : Uuid → Server → StorageResult {0} Unit × FlowTables → Handled
  after_delete id s (StorageResult.err e, t) = (record s { tables = t }, err (of_storage_error e))
  after_delete id s (StorageResult.ok u, t) =
      (record s { tables = t; limits = release id s.limits }, ok (deleted id))

  unfoldable pub delete_flow : (user id : Uuid) → Server → Handled
  unfolding delete_flow_for_user release
  delete_flow user id s =
      after_delete id s (delete_flow_for_user (env.fails 0) (env.fails 1) id user s.tables)

  -- `undeploy_flow` and `hook_limits.release`
  abbrev pub retired : Uuid → Server → Server
  retired id s = record (with_deployments (undeploy_flow id s.tables.deployments) s) {
    limits = release id s.limits;
  }

  -- The outcome of `engine.execute`, of which `none` does not occur.
  abbrev pub executed :
      Uuid → StringMap Uuid → Server → Option (Z8Result Uuid × FlowEngine × Option Driver) → Handled
  executed id id_map s none = (s, err (answer 500 ""))
  executed id id_map s (some (Z8Result.err e, engine, d)) =
      (record s { engine = engine }, err (answer 500 (env.show_error e)))
  executed id id_map s (some (Z8Result.ok trace, engine, d)) =
      (record s { engine = engine }, ok (running id trace id_map))

  abbrev pub run_now : Uuid → Compiled → Server → Handled
  run_now id (f, id_map) s = having {0} (query (env.fails 1) tt) s (λ u.
      executed id id_map (retired id s)
        (execute_with_trigger env.order env.trace_id env.cancel f none s.engine))

  abbrev pub saved_deployment :
      Uuid → StringMap Uuid → List HookRoute → Server → Option Deployments → Handled
  saved_deployment id id_map routes s none =
      (s, err (of_storage_error (database "UNIQUE constraint failed")))
  saved_deployment id id_map routes s (some d) =
      (with_deployments d s, ok (deployed id id_map routes))

  abbrev pub deploy_or_run :
      (user id : Uuid) → Flow → Compiled → Server → ApiResult (List HookRoute) → Handled
  deploy_or_run user id f c s (err e) = (s, err e)
  deploy_or_run user id f c s (ok []) = run_now id c s
  deploy_or_run user id f c s (ok (r ∷ rs)) = having {0} (query (env.fails 1) tt) s (λ u.
      saved_deployment id c.1 (r ∷ rs) s (deploy_flow id user f (r ∷ rs) s.tables.deployments))

  abbrev pub start_compiled : (user id : Uuid) → Flow → Server → ApiResult Compiled → Handled
  start_compiled user id f s (err e) = (s, err e)
  start_compiled user id f s (ok c) =
      deploy_or_run user id f c s (collect_hook_routes env.trim env.to_uppercase f)

  unfoldable pub start_flow : (user id : Uuid) → Server → Handled
  unfolding get_flow_for_user canvas_to_flow collect_hook_routes deploy_flow undeploy_flow release
      execute_with_trigger
  start_flow user id s = having (get_flow_for_user (env.fails 0) id user s.tables) s (λ f.
      start_compiled user id f s (canvas_to_flow env.new_v5 env.fresh env.now env.vault f user))

  unfoldable pub stop_flow : (user id : Uuid) → Server → Handled
  unfolding get_flow_for_user stop undeploy_flow release
  stop_flow user id s = having (get_flow_for_user (env.fails 0) id user s.tables) s (λ f.
      let halted = record s { engine = stop id s.engine } in
      having {0} (query (env.fails 1) tt) halted (λ u. (retired id halted, ok (stopped id))))

  unfoldable pub get_executions : (user id : Uuid) → Server → Handled
  unfolding get_flow_for_user get_history
  get_executions user id s =
      having (get_flow_for_user (env.fails 0) id user s.tables) s
        (λ f. having (get_history (env.fails 1) id 50 s.tables) s (λ xs. (s, ok (history id xs))))
