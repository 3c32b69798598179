-- ===== src/Api/Flows/Started.antt =====
-- What `start_flow` keeps of a flow that is not the user's.
use z8run.Base.{
  false, Option, none, some, List, [], ◌∷◌, find, ◌==◌, ==→≡, ◌≡◌, refl, sym, ap, ◌∙◌, subst, arith,
  Bool-cases, inl, inr,
}
use z8run.StringMap.{StringMap}
use z8run.Error.{Uuid, Z8Result}
use z8run.Flow.{Flow}
use z8run.Engine.{FlowEngine, Driver, get_active}
use z8run.Engine.Start.{execute_with_trigger, Started, execute_with_trigger_lem}
use z8run.Storage.{query}
use z8run.Storage.Flows.{owned_row}
use z8run.Api.{ApiResult, ok, err}
use z8run.Api.Canvas.{Compiled}
use z8run.Api.Hooks.{HookRoute, collect_hook_routes, deploy_flow}
use z8run.Api.Hooks.Deploy.{deploy_flow-collected}
use z8run.Api.Flows.{
  Server, Env, retired, executed, saved_deployment, deploy_or_run, start_compiled,
}
use z8run.Api.Flows.Kept.{IsKept, unchanged, having_lem, retired_lem}

module _ (env : Env) (user id : Uuid) (s : Server)
    (foreign : find (owned_row id user) s.tables.flows ≡ none) where
  -- An execution that starts is a new one.
  executed_lem :
      (target : Uuid) (id_map : StringMap Uuid) (f : Flow) (s' : Server)
      → IsKept id s s'
      → (s'.engine ≡ s.engine)
      → get_active env.trace_id s.engine.active_flows ≡ none
      → IsKept id s
          (executed env target id_map s'
            (execute_with_trigger env.order env.trace_id env.cancel f none s.engine)).0
  unfolding Started
  executed_lem target id_map f s' kept same fresh =
      let (r, e, h) = execute_with_trigger_lem env.order env.trace_id env.cancel f none s.engine in
      subst (λ o. IsKept id s (executed env target id_map s' o).0) (sym e) (go r h)
    where
      go :
          (r : Z8Result Uuid × FlowEngine × Option Driver)
          → Started env.order env.trace_id env.cancel f s.engine r
          → IsKept id s (executed env target id_map s' (some r)).0
      go (Z8Result.err x, engine, d) h = record {
        row = kept.row;
        hooks = kept.hooks;
        slot = kept.slot;
        running = λ t a e g. ap (λ n. get_active t n.active_flows) h.1 ∙ e;
      }
      go (Z8Result.ok u, engine, d) (plan, c, now, entry, others, events, spawned) = record {
        row = kept.row;
        hooks = kept.hooks;
        slot = kept.slot;
        running = λ t a e g. elim (Bool-cases (env.trace_id == t)) [
          | inl hit ↦
              let no = ap (λ k. get_active k s.engine.active_flows) (==→≡ env.trace_id t hit) in cc
          | inr miss ↦ others t miss ∙ e
        ];
      }

  deployed_lem :
      (target : Uuid) (f : Flow) (c : Compiled) (r : HookRoute) (rs : List HookRoute)
      → f.id ≡ target
      → (target == id) ≡ false
      → collect_hook_routes env.trim env.to_uppercase f ≡ ok (r ∷ rs)
      → IsKept id s
          (saved_deployment env target c.1
            (r ∷ rs)
            s
            (deploy_flow target user f (r ∷ rs) s.tables.deployments)).0
  deployed_lem target f c r rs same apart e =
      let (d, stored, answers, snapshot, others) =
        deploy_flow-collected env.trim env.to_uppercase f user (r ∷ rs) s.tables.deployments e in
      let here : deploy_flow target user f (r ∷ rs) s.tables.deployments ≡ some d =
        subst (λ i. deploy_flow i user f (r ∷ rs) s.tables.deployments ≡ some d) same stored in
      let away : (id == f.id) ≡ false = ground (arith, same, apart) in
      subst (λ o. IsKept id s (saved_deployment env target c.1 (r ∷ rs) s o).0) (sym here)
        (record { row = refl; hooks = others id away; slot = refl; running = λ t a e f. e })

  pub started_lem :
      (target : Uuid) (f : Flow)
      → f.id ≡ target
      → (target == id) ≡ false
      → get_active env.trace_id s.engine.active_flows ≡ none
      → (o : ApiResult Compiled) → IsKept id s (start_compiled env user target f s o).0
  started_lem target f same apart fresh (err e) = unchanged id s
  started_lem target f same apart fresh (ok c) =
      go (collect_hook_routes env.trim env.to_uppercase f) refl
    where
      go :
          (o : ApiResult (List HookRoute))
          → collect_hook_routes env.trim env.to_uppercase f ≡ o
          → IsKept id s (deploy_or_run env user target f c s o).0
      go (err e) h = unchanged id s
      go (ok []) h =
          having_lem env (IsKept id s) (query (env.fails 1) tt) s _ (unchanged id s) (λ u e.
            executed_lem target c.1 c.0 (retired env target s)
              (retired_lem env user id s foreign target apart) refl fresh)
      go (ok (r ∷ rs)) h =
          having_lem env (IsKept id s) (query (env.fails 1) tt) s _ (unchanged id s)
            (λ u e. deployed_lem target f c r rs same apart h)
