-- ===== src/Api/Flows/Hidden.antt =====
-- What a user learns of the flows of others.
use z8run.Base.{Option, none, some, find, ◌≡◌, refl, sym, ap, subst, some_inv}
use z8run.Json.{Value}
use z8run.Error.{Uuid}
use z8run.Flow.{Flow}
use z8run.Storage.{StorageResult, flow_not_found}
use z8run.Storage.Flows.{owned_row, get_flow_for_user, delete_flow_for_user}
use z8run.Api.{ApiError, ApiResult, ok, err}
use z8run.Api.CanvasShape.{validate_canvas}
use z8run.Api.Flows.{
  Server, Env, Handled, having, checked, update_flow, get_flow, delete_flow, start_flow, stop_flow,
  get_executions, of_storage_error,
}
use z8run.Api.Flows.Transfer.{export_flow}
use z8run.Api.Flows.Isolation.{
  Request, list, create, update, show, delete, start, halt, executions, export_of, import_of, serve,
}

abbrev pub flow_of : Request → Option Uuid
flow_of list = none
flow_of (create v) = none
flow_of (update id v) = some id
flow_of (show id) = some id
flow_of (delete id) = some id
flow_of (start id) = some id
flow_of (halt id) = some id
flow_of (executions id) = some id
flow_of (export_of id) = some id
flow_of (import_of v) = none

-- What a request for a missing flow is answered with, after the check of a canvas.
abbrev pub shape_or : ApiError → ApiResult {0} Unit → ApiError
shape_or e (err x) = x
shape_or e (ok u) = e

abbrev pub refusal : Env → (id : Uuid) → Request → ApiError
refusal env id (update _ v) =
    shape_or (of_storage_error env (flow_not_found id)) (validate_canvas env.digits v)
refusal env id _ = of_storage_error env (flow_not_found id)

module _ (env : Env) (user id : Uuid) (s : Server) (works : env.fails 0 ≡ none)
    (foreign : find (owned_row id user) s.tables.flows ≡ none) where
  hidden : get_flow_for_user (env.fails 0) id user s.tables ≡ StorageResult.err (flow_not_found id)
  unfolding get_flow_for_user
  hidden = rw (works, foreign) refl

  refused :
      (next : Flow → Handled)
      → having env (get_flow_for_user (env.fails 0) id user s.tables) s next
        ≡ (s, err (of_storage_error env (flow_not_found id)))
  refused next = ap (λ x. having env x s next) hidden

  refused_update :
      (payload : Value) (next : Flow → Handled) (o : ApiResult {0} Unit)
      → checked env o s (having env (get_flow_for_user (env.fails 0) id user s.tables) s next)
        ≡ (s, err (shape_or (of_storage_error env (flow_not_found id)) o))
  refused_update payload next (err e) = refl
  refused_update payload next (ok u) = refused next

  refused_delete : delete_flow env user id s ≡ (s, err (of_storage_error env (flow_not_found id)))
  unfolding delete_flow delete_flow_for_user
  refused_delete = rw (works, foreign) refl

  refused_each :
      (r : Request) → flow_of r ≡ some id → serve env user r s ≡ (s, err (refusal env id r))
  unfolding serve update_flow get_flow start_flow stop_flow get_executions export_flow
  refused_each list e = cc
  refused_each (create v) e = cc
  refused_each (update k v) e =
      subst (λ k. serve env user (update k v) s ≡ (s, err (refusal env id (update k v))))
        (sym (some_inv e)) (refused_update v _ (validate_canvas env.digits v))
  refused_each (show k) e =
      subst (λ k. serve env user (show k) s ≡ (s, err (refusal env id (show k)))) (sym (some_inv e))
        (refused _)
  refused_each (delete k) e =
      subst (λ k. serve env user (delete k) s ≡ (s, err (refusal env id (delete k))))
        (sym (some_inv e)) refused_delete
  refused_each (start k) e =
      subst (λ k. serve env user (start k) s ≡ (s, err (refusal env id (start k))))
        (sym (some_inv e)) (refused _)
  refused_each (halt k) e =
      subst (λ k. serve env user (halt k) s ≡ (s, err (refusal env id (halt k)))) (sym (some_inv e))
        (refused _)
  refused_each (import_of v) e = cc
  refused_each (export_of k) e =
      subst (λ k. serve env user (export_of k) s ≡ (s, err (refusal env id (export_of k))))
        (sym (some_inv e)) (refused _)
  refused_each (executions k) e =
      subst (λ k. serve env user (executions k) s ≡ (s, err (refusal env id (executions k))))
        (sym (some_inv e)) (refused _)

-- A request of a user to a route below /flows that names a flow that is not the user's own changes
-- nothing, and is answered without regard to the server, just as one for a flow that does not
-- exist, if the database works: so none of these answers tells whether another user has a flow.
pub serve_hides :
    (env : Env) (user id : Uuid) (s : Server) (r : Request)
    → env.fails 0 ≡ none
    → find (owned_row id user) s.tables.flows ≡ none
    → flow_of r ≡ some id
    → serve env user r s ≡ (s, err (refusal env id r))
serve_hides env user id s r works foreign e = refused_each env user id s works foreign r e
