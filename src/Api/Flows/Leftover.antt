-- ===== src/Api/Flows/Leftover.antt =====
-- A flow whose deletion is interrupted.
use z8run.Base.{String, not, none, some, find, filter, find-filter-none, ◌≡◌, refl, ap}
use z8run.Error.{Uuid}
use z8run.Storage.{database}
use z8run.Storage.Flows.{FlowRow, owned_row, delete_flow_for_user}
use z8run.Api.{err}
use z8run.Api.Hooks.Deploy.{AreSame}
use z8run.Api.Flows.{Server, Env, delete_flow, of_storage_error}
use z8run.Api.Flows.Isolation.{Request, serve}
use z8run.Api.Flows.Hidden.{flow_of, refusal, serve_hides}

-- If the database deletes a flow and then fails to retire its deployment, the answer is an error,
-- the public hooks of the flow still find their routes and the snapshot, and every later request of
-- the owner for the flow, to stop it or to delete it again, is answered as one for a flow that does
-- not exist and changes nothing.
pub delete_flow-hooks :
    (env : Env) (user id : Uuid) (s : Server) (row : FlowRow) (text : String)
    → env.fails 0 ≡ none
    → env.fails 1 ≡ some text
    → find (owned_row id user) s.tables.flows ≡ some row
    → let (s', reply) = delete_flow env user id s in
      (reply ≡ err (of_storage_error env (database text)))
      × AreSame id s.tables.deployments s'.tables.deployments
      × ((later : Env) (r : Request)
          → later.fails 0 ≡ none
          → flow_of r ≡ some id
          → serve later user r s' ≡ (s', err (refusal later id r)))
unfolding delete_flow delete_flow_for_user
delete_flow-hooks env user id s row text works fails found =
    let gone : find (owned_row id user) (filter (λ r. not (owned_row id user r)) s.tables.flows)
        ≡ none =
      find-filter-none (owned_row id user) (λ r. not (owned_row id user r)) s.tables.flows
        (λ r h. ap not h) in
    rw (works, fails, found)
      (refl, (λ m p. refl, refl), λ later r w e. serve_hides later user id _ r w gone e)
