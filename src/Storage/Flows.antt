-- ===== src/Storage/Flows.antt =====
-- The flows of crates/z8run-storage/src/sqlite.rs and postgres.rs: the table flows, with the key id,
-- and the deployments of its flows. A flow is stored whole: its JSON is read back as it was written.
pub mod Rows
use z8run.Base.{
  ℕ, String, Bool, true, false, not, ◌&&◌, Option, none, some, List, [], ◌∷◌, map, filter, find,
  if◌then◌else◌, ◌==◌,
}
use z8run.Error.{Uuid}
use z8run.Flow.{Flow}
use z8run.Storage.{
  StorageError, flow_not_found, StorageResult, ok, err, ◌>>=◌, Failure, query, newest_first,
}
use z8run.Api.Hooks.{Deployments, undeploy_flow}

-- A flow without an owner was saved before there were users.
pub record FlowRow : Type 0 where
  pub flow : Flow
  pub user_id : Option Uuid
  pub updated_at : ℕ

-- A row of the table executions, whose flow_id refers to flows with `ON DELETE CASCADE`.
pub record ExecutionRecord : Type 0 where
  pub id : Uuid
  pub flow_id : Uuid
  pub trace_id : Uuid
  pub status : String
  pub started_at : ℕ
  pub completed_at : Option ℕ
  pub duration_ms : Option ℕ
  pub error_text : Option String

pub record FlowTables : Type 0 where
  pub flows : List FlowRow
  pub deployments : Deployments
  pub executions : List ExecutionRecord

-- `WHERE id = ?`
unfoldable pub has_id : Uuid → FlowRow → Bool
has_id id r = r.flow.id == id

abbrev pub is_user : Uuid → Option Uuid → Bool
is_user user none = false
is_user user (some u) = u == user

-- `WHERE id = ? AND user_id = ?`
unfoldable pub owned_row : (id user : Uuid) → FlowRow → Bool
unfolding has_id
owned_row id user r = has_id id r && is_user user r.user_id

-- `INSERT … ON CONFLICT(id) DO UPDATE`, which leaves the owner as it is.
unfoldable pub upsert_flow : (user : Option Uuid) (now : ℕ) → Flow → List FlowRow → List FlowRow
unfolding has_id
upsert_flow user now f [] = record { flow = f; user_id = user; updated_at = now } ∷ []
upsert_flow user now f (r ∷ rows) =
    let rest = upsert_flow user now f rows in
    if has_id f.id r
    then record { flow = f; user_id = r.user_id; updated_at = now } ∷ rows
    else r ∷ rest

unfoldable pub save_flow : (now : ℕ) → Failure → Flow → FlowTables → StorageResult FlowTables
unfolding upsert_flow
save_flow now fails f t = query fails (record t { flows = upsert_flow none now f t.flows })

unfoldable pub save_flow_with_user :
    (now : ℕ) → Failure → Flow → Uuid → FlowTables → StorageResult FlowTables
unfolding upsert_flow
save_flow_with_user now fails f user t =
    query fails (record t { flows = upsert_flow (some user) now f t.flows })

abbrev pub flow_or_not_found : Uuid → Option FlowRow → StorageResult Flow
flow_or_not_found id none = err (flow_not_found id)
flow_or_not_found id (some r) = ok r.flow

unfoldable pub get_flow : Failure → Uuid → FlowTables → StorageResult Flow
unfolding has_id
get_flow fails id t = query fails (find (has_id id) t.flows) >>= flow_or_not_found id

unfoldable pub get_flow_for_user : Failure → (id user : Uuid) → FlowTables → StorageResult Flow
unfolding owned_row
get_flow_for_user fails id user t =
    query fails (find (owned_row id user) t.flows) >>= flow_or_not_found id

abbrev pub owner_or_not_found : Uuid → Option FlowRow → StorageResult (Option Uuid)
owner_or_not_found id none = err (flow_not_found id)
owner_or_not_found id (some r) = ok r.user_id

unfoldable pub get_flow_owner : Failure → Uuid → FlowTables → StorageResult (Option Uuid)
unfolding has_id
get_flow_owner fails id t = query fails (find (has_id id) t.flows) >>= owner_or_not_found id

unfoldable pub list_flows : Failure → FlowTables → StorageResult (List Flow)
list_flows fails t = query fails (map (λ r. r.flow) (newest_first (λ r. r.updated_at) t.flows))

unfoldable pub list_flows_by_user : Failure → Uuid → FlowTables → StorageResult (List Flow)
list_flows_by_user fails user t = query fails (
    map (λ r. r.flow)
      (newest_first (λ r. r.updated_at) (filter (λ r. is_user user r.user_id) t.flows)))

-- `name LIKE '%…%'` is a parameter.
unfoldable pub search_flows :
    (like : (text name : String) → Bool) → Failure → String → FlowTables → StorageResult (List Flow)
search_flows like fails text t = query fails (
    map (λ r. r.flow)
      (newest_first (λ r. r.updated_at) (filter (λ r. like text r.flow.name) t.flows)))

-- The row goes first, with its executions, and then, in another transaction, the deployment.
abbrev pub then_undeploy :
    Failure → Uuid → Option FlowRow → FlowTables → FlowTables → StorageResult {0} Unit × FlowTables
then_undeploy fails id none t left = (err (flow_not_found id), t)
then_undeploy none id (some r) t left =
    (ok tt, record left { deployments = undeploy_flow id left.deployments })
then_undeploy (some text) id (some r) t left = (query (some text) tt, left)

abbrev pub delete_where :
    (fails undeploy_fails : Failure)
    → Uuid
    → (FlowRow → Bool)
    → FlowTables
    → StorageResult {0} Unit × FlowTables
delete_where (some text) undeploy_fails id hit t = (query (some text) tt, t)
delete_where none undeploy_fails id hit t =
    then_undeploy undeploy_fails id (find hit t.flows) t (record t {
      flows = filter (λ r. not (hit r)) t.flows;
      executions = filter (λ x. not (x.flow_id == id)) t.executions;
    })

unfoldable pub delete_flow :
    (fails undeploy_fails : Failure) → Uuid → FlowTables → StorageResult {0} Unit × FlowTables
unfolding has_id undeploy_flow
delete_flow fails undeploy_fails id t = delete_where fails undeploy_fails id (has_id id) t

unfoldable pub delete_flow_for_user :
    (fails undeploy_fails : Failure)
    → (id user : Uuid) → FlowTables
    → StorageResult {0} Unit × FlowTables
unfolding owned_row undeploy_flow
delete_flow_for_user fails undeploy_fails id user t =
    delete_where fails undeploy_fails id (owned_row id user) t
