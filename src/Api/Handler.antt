-- ===== src/Api/Handler.antt =====
-- `hook_handler` of crates/z8run-api/src/routes.rs, up to the call of the engine: what a request to
-- a hook is answered with, or which flow it starts.
pub mod Safe
pub mod Deployed
use Prim.Native.String.{◌++◌ as text_append}
use z8run.Base.{ℕ, String, Bool, Option, none, some, List, [], ◌∷◌, if◌then◌else◌, str_eq, find}
use z8run.Json.{Value, null, string, object, Fields, no_fields, entry, Items, lookup}
use z8run.StringMap.{get}
use z8run.Error.{Uuid}
use z8run.Message.{FlowMessage, new_message}
use z8run.Flow.{Flow}
use z8run.Nodes.{list_of, is_empty_text}
use z8run.HookLimits.{HookLimits, Semaphore, try_acquire, drop_permit}
use z8run.Api.{ApiError, ApiResult, ok, err, ◌>>=◌, ok_or, bad_request, index, str_of, unwrap_or}
use z8run.Api.Trigger.{restrict_to_trigger}
use z8run.Api.Hooks.{HookMatch, Deployments, canvas_nodes, find_hook_route, get_deployment}
use z8run.Api.Canvas.{Vault, Compiled, canvas_to_flow}
use z8run.Api.Auth.{Headers, Crypto, authorize_trigger}

abbrev pub is_node : (node_id : String) → Value → Bool
is_node node_id node = elim (str_of (index node "id")) [
  | none ↦ Bool.false
  | some id ↦ str_eq id node_id
]

abbrev pub config_in : Option Value → Option Value
config_in none = none
config_in (some node) = some (index (index node "data") "config")

unfoldable pub trigger_node_config : Flow → (node_id : String) → Option Value
unfolding index canvas_nodes list_of
trigger_node_config f node_id = elim (canvas_nodes f) [
  | none ↦ none
  | some nodes ↦ config_in (find (is_node node_id) (list_of nodes))
]

-- The parameters of the path, the method, the headers (also as a JSON object), the query as JSON
-- and the body.
pub record Request : Type 0 where
  pub flow_id : Option String
  pub path : Option String
  pub method : String
  pub headers : Headers
  pub header_fields : Fields
  pub query : Value
  pub body : String

-- The parsers of identifiers and of JSON, the hashes, and what `canvas_to_flow` needs.
pub record Env : Type 0 where
  pub parse_uuid : String → Option Uuid
  pub parse_json : String → Option Value
  pub to_uppercase : String → String
  pub crypto : Crypto
  pub new_v5 : Uuid → String → Uuid
  pub fresh : ℕ → Uuid
  pub now : ℕ
  pub trace_id : Uuid
  pub nil : Uuid

-- What the handler does with a request.
pub data Outcome : Type 0 where
  respond : ApiError → Outcome
  execute : Flow → FlowMessage → Outcome

abbrev pub failure : (status : ℕ) → String → ApiError
failure status message = record { status = status; message = message }

abbrev pub sub_path : Request → String
sub_path r = elim r.path [ none ↦ "/" | some p ↦ text_append "/" p ]

module _ (env : Env) (vault : Vault) where
  abbrev pub requested : Request → ApiResult Uuid
  requested r = do
    text ← ok_or (bad_request "Missing flow_id") r.flow_id
    ok_or (bad_request (text_append "Invalid flow_id: " text)) (env.parse_uuid text)

  abbrev pub let_through : Option ApiError → ApiResult {0} Unit
  let_through none = ok tt
  let_through (some e) = err e

  -- The checks before a slot is taken: the route, the snapshot, the trigger and its policy.
  unfoldable pub admit : Request → Deployments → (flow_id : Uuid) → ApiResult (HookMatch × Flow)
  unfolding find_hook_route get_deployment trigger_node_config authorize_trigger
  admit r s flow_id = do
    hook ←
        ok_or (failure 404 "No matching hook route for this flow, method, and path")
          (find_hook_route flow_id (env.to_uppercase r.method) (sub_path r) s)
    snapshot ← ok_or (failure 404 "Flow is not deployed") (get_deployment flow_id s)
    config ←
        ok_or (failure 500 "Deployed trigger not found") (trigger_node_config snapshot hook.node_id)
    passed ← let_through (authorize_trigger env.crypto config r.headers r.body hook.user_id vault)
    ok (hook, snapshot)

  abbrev pub compiling : ApiResult Compiled → ApiResult Compiled
  compiling (ok c) = ok c
  compiling (err e) = err (bad_request (text_append "Failed to compile flow: " e.message))

  -- The flow that is started: the branch of the trigger in the compiled snapshot. The search for
  -- the branch always ends, so its `none` does not occur.
  unfoldable pub branch : HookMatch → Flow → ApiResult Flow
  unfolding canvas_to_flow get restrict_to_trigger
  branch hook snapshot = do
    compiled ← compiling (canvas_to_flow env.new_v5 env.fresh env.now vault snapshot hook.user_id)
    trigger ← ok_or (failure 500 "Deployed trigger not found") (get hook.node_id compiled.1)
    ok_or (failure 500 "Deployed trigger not found") (restrict_to_trigger compiled.0 trigger)

  abbrev pub body_json : String → Value
  body_json body =
      unwrap_or (if is_empty_text body then null else string body) (env.parse_json body)

  abbrev pub trigger_message : Request → FlowMessage
  trigger_message r =
      new_message env.nil env.now env.nil "hook"
        (object (
          entry "method" (string (env.to_uppercase r.method)) (
            entry "path" (string (sub_path r)) (
              entry "headers" (object r.header_fields)
                (entry "query" r.query (entry "body" (body_json r.body) no_fields))))))
        env.trace_id

  -- With a slot: it is given back if the handler returns before the flow starts.
  abbrev pub start : Request → ApiResult Flow → Semaphore → HookLimits → Outcome × HookLimits
  start r (err e) slot l = (respond e, drop_permit slot l)
  start r (ok f) slot l = (execute f (trigger_message r), l)

  abbrev pub with_slot :
      Request → HookMatch × Flow → Option Semaphore × HookLimits → Outcome × HookLimits
  with_slot r admitted (none, l) =
      (respond (failure 429 "Too many concurrent executions for this flow"), l)
  with_slot r (hook, snapshot) (some slot, l) = start r (branch hook snapshot) slot l

  abbrev pub admitted_to :
      Request → Uuid → ApiResult (HookMatch × Flow) → HookLimits → Outcome × HookLimits
  admitted_to r flow_id (err e) l = (respond e, l)
  admitted_to r flow_id (ok admitted) l = with_slot r admitted (try_acquire flow_id l)

  abbrev pub handle : Request → ApiResult Uuid → Deployments → HookLimits → Outcome × HookLimits
  handle r (err e) s l = (respond e, l)
  handle r (ok flow_id) s l = admitted_to r flow_id (admit r s flow_id) l

  unfoldable pub hook_handler : Request → Deployments → HookLimits → Outcome × HookLimits
  unfolding admit branch try_acquire drop_permit new_message
  hook_handler r s l = handle r (requested r) s l
