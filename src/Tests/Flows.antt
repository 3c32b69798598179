-- ===== src/Tests/Flows.antt =====
-- The flows of two users, and requests to them.
use z8run.Base.{
  ℕ, String, Option, none, some, [], ◌∷◌, find, filter, if◌then◌else◌, ◌==◌, ◌≡◌, ◌↔◌, refl,
}
use z8run.Json.{object}
use z8run.Flow.{new_flow}
use z8run.HookLimits.{new_limits, remove_slot, release}
use z8run.Engine.{FlowEngine, get_active}
use z8run.Storage.{database}
use z8run.Storage.Flows.{FlowRow, owned_row}
use z8run.Api.{ok, err}
use z8run.Api.Hooks.Deploy.{AreSame}
use z8run.Api.Flows.{Server, Env, deleted, delete_flow, stop_flow, of_storage_error}
use z8run.Api.CanvasShape.{validate_canvas}
use z8run.Api.CanvasShape.Shape.{IsNode, IsEdge, IsListOf, validate_canvas_iff}
use z8run.Nodes.{get_field}
use z8run.Api.Flows.Isolation.{Request, serve}
use z8run.Api.Flows.Hidden.{flow_of, refusal, serve_hides}
use z8run.Api.Flows.Leftover.{delete_flow-hooks}
use z8run.Tests.Samples.{insertion_order}
use z8run.Tests.Api.{same_text, stored, no_deployments, deployments, v5, vault, limits, canvas}

abbrev works : ℕ → Option String
works n = none

abbrev undeploy_fails : ℕ → Option String
undeploy_fails n = if n == 1 then some "disk I/O error" else none

abbrev env : (ℕ → Option String) → Env
env fails = record {
  show = λ id. "5";
  show_error = λ e. "error";
  digits = λ n. "0";
  trim = same_text;
  to_uppercase = same_text;
  new_v5 = v5;
  fresh = λ n. n;
  flow_id = 6;
  trace_id = 4;
  cancel = 1;
  now = 3;
  order = insertion_order;
  node_types = [];
  fails = fails;
  vault = vault;
}

abbrev row : FlowRow
row = record { flow = stored; user_id = some 9; updated_at = 0 }

abbrev other_row : FlowRow
other_row = record { flow = record stored { id = 7 }; user_id = some 8; updated_at = 1 }

abbrev idle : FlowEngine
idle = record { active_flows = []; cancelled = []; events = [] }

abbrev server : Server
server = record {
  tables = record { flows = row ∷ other_row ∷ []; deployments = deployments; executions = [] };
  limits = limits;
  engine = idle;
}

runs : Unit {0}
unfolding find filter owned_row new_flow new_limits remove_slot release get_active serve stop_flow
    delete_flow
runs = tt

deletes : delete_flow (env works) 9 5 server ≡ (
  record server {
    tables = record { flows = other_row ∷ []; deployments = no_deployments; executions = [] };
  },
  ok (deleted 5),
)
unfolding runs
deletes = refl

serve_hides_example :
    serve (env works) 8 (Request.start 5) server
    ≡ (server, err (refusal (env works) 5 (Request.start 5)))
unfolding runs
serve_hides_example = serve_hides (env works) 8 5 server (Request.start 5) refl refl refl

delete_flow-hooks_example :
    let (s', reply) = delete_flow (env undeploy_fails) 9 5 server in
    (reply ≡ err (of_storage_error (env undeploy_fails) (database "disk I/O error")))
    × AreSame 5 server.tables.deployments s'.tables.deployments
    × ((later : Env) (r : Request)
        → later.fails 0 ≡ none
        → flow_of r ≡ some 5
        → serve later 9 r s' ≡ (s', err (refusal later 5 r)))
unfolding runs
delete_flow-hooks_example =
    delete_flow-hooks (env undeploy_fails) 9 5 server row "disk I/O error" refl refl refl

validate_canvas_iff_example : (validate_canvas (λ n. "0") (object canvas) ≡ ok tt) ↔ (
    IsListOf IsNode (get_field "canvas_nodes" (object canvas))
    × IsListOf IsEdge (get_field "canvas_edges" (object canvas)))
validate_canvas_iff_example = validate_canvas_iff (λ n. "0") (object canvas)
