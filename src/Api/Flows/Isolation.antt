-- ===== src/Api/Flows/Isolation.antt =====
-- What the handlers for the flows of one user do to the flows of others.
use z8run.Base.{none, find, ◌≡◌}
use z8run.Json.{Value}
use z8run.Error.{Uuid}
use z8run.Engine.{stop}
use z8run.Storage.Flows.{owned_row}
use z8run.Api.Flows.{
  Server, Env, Handled, list_flows, create_flow, update_flow, get_flow, delete_flow, start_flow,
  stop_flow, get_executions,
}
use z8run.Api.Flows.Transfer.{export_flow, import_flow}

-- The requests of a user to the routes below /flows.
pub data Request : Type 0 where
  list : Request
  create : Value → Request
  update : Uuid → Value → Request
  show : Uuid → Request
  delete : Uuid → Request
  start : Uuid → Request
  halt : Uuid → Request
  executions : Uuid → Request
  export_of : Uuid → Request
  import_of : Value → Request

unfoldable pub serve : Env → (user : Uuid) → Request → Server → Handled
serve env user list s = list_flows env user s
serve env user (create v) s = create_flow env user v s
serve env user (update id v) s = update_flow env user id v s
serve env user (show id) s = get_flow env user id s
serve env user (delete id) s = delete_flow env user id s
serve env user (start id) s = start_flow env user id s
serve env user (halt id) s = stop_flow env user id s
serve env user (executions id) s = get_executions env user id s
serve env user (export_of id) s = export_flow env user id s
serve env user (import_of v) s = import_flow env user v s

module _ (env : Env) (user id : Uuid) (s : Server)
    (foreign : find (owned_row id user) s.tables.flows ≡ none) where
  abbrev pub halted : (target : Uuid) → Server
  halted target = record s { engine = stop target s.engine }
