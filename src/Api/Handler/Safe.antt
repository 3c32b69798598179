-- ===== src/Api/Handler/Safe.antt =====
-- Which requests to a hook start a flow, and which flow.
use z8run.Base.{Option, none, some, Memᴰ, ◌≡◌, ◌↔◌, refl, ap, subst}
use z8run.Json.{Value}
use z8run.StringMap.{StringMap, get}
use z8run.Error.{Uuid}
use z8run.Message.{FlowMessage}
use z8run.Node.{Node}
use z8run.Flow.{Edge, Flow}
use z8run.HookLimits.{HookLimits, Semaphore, try_acquire}
use z8run.Api.{ApiError, ApiResult, ok, err, ok_inv}
use z8run.Api.Trigger.Reach.{Reach, restrict_to_trigger_lem}
use z8run.Api.Hooks.{HookMatch, Deployments, find_hook_route, get_deployment}
use z8run.Api.Canvas.{Vault, Compiled, canvas_to_flow}
use z8run.Api.Auth.{authorize_trigger}
use z8run.Api.Auth.Policy.{Authorized, authorize_trigger_iff}
use z8run.Api.Handler.{
  Request, Env, Outcome, respond, execute, trigger_node_config, sub_path, requested, admit, branch,
  trigger_message, start, with_slot, admitted_to, handle, hook_handler,
}

-- Why a request may start a flow.
pub record IsGranted (env : Env) (vault : Vault) (r : Request) (s : Deployments) (flow_id : Uuid)
    (hook : HookMatch) (snapshot : Flow) : Type 0 where
  pub route : find_hook_route flow_id (env.to_uppercase r.method) (sub_path r) s ≡ some hook
  pub deployed : get_deployment flow_id s ≡ some snapshot
  pub config : Value
  pub configured : trigger_node_config snapshot hook.node_id ≡ some config
  pub authorized : Authorized env.crypto config r.headers r.body hook.user_id vault

-- What the flow that it starts is made of.
pub record IsBranch (env : Env) (vault : Vault) (hook : HookMatch) (snapshot g : Flow)
    : Type 0 where
  pub whole : Flow
  pub id_map : StringMap Uuid
  pub trigger : Uuid
  pub compiled :
      canvas_to_flow env.new_v5 env.fresh env.now vault snapshot hook.user_id ≡ ok (whole, id_map)
  pub bound : get hook.node_id id_map ≡ some trigger
  pub joined :
      (e : Edge) → Memᴰ e g.edges ↔ (Memᴰ e whole.edges × Reach whole.edges trigger e.from_node)
  pub below : (n : Node) → Memᴰ n g.nodes ↔ (Memᴰ n whole.nodes × Reach whole.edges trigger n.id)

module _ (env : Env) (vault : Vault) where
  admit-IsGranted :
      (r : Request) (s : Deployments) (flow_id : Uuid) (p : HookMatch × Flow)
      → admit env vault r s flow_id ≡ ok p
      → IsGranted env vault r s flow_id p.0 p.1
  unfolding admit
  admit-IsGranted r s flow_id p h =
      with_route (find_hook_route flow_id (env.to_uppercase r.method) (sub_path r) s) refl
    where
      Goal : Type 0
      Goal = IsGranted env vault r s flow_id p.0 p.1

      with_verdict :
          (hook : HookMatch) (snapshot : Flow) (config : Value)
          → find_hook_route flow_id (env.to_uppercase r.method) (sub_path r) s ≡ some hook
          → get_deployment flow_id s ≡ some snapshot
          → trigger_node_config snapshot hook.node_id ≡ some config
          → (o : Option ApiError)
          → authorize_trigger env.crypto config r.headers r.body hook.user_id vault ≡ o
          → Goal
      with_verdict hook snapshot config a b c (some e) d =
          let no = rw (a, b, c, d, admit) at h in cc
      with_verdict hook snapshot config a b c none d =
          subst (λ q. IsGranted env vault r s flow_id q.0 q.1)
            (ok_inv (rw (a, b, c, d, admit) at h))
            (record {
              route = a;
              deployed = b;
              config = config;
              configured = c;
              authorized =
                  (authorize_trigger_iff env.crypto config r.headers r.body hook.user_id vault).0 d;
            })

      with_config :
          (hook : HookMatch) (snapshot : Flow)
          → find_hook_route flow_id (env.to_uppercase r.method) (sub_path r) s ≡ some hook
          → get_deployment flow_id s ≡ some snapshot
          → (o : Option Value) → trigger_node_config snapshot hook.node_id ≡ o
          → Goal
      with_config hook snapshot a b none c = let no = rw (a, b, c, admit) at h in cc
      with_config hook snapshot a b (some config) c =
          with_verdict hook snapshot config a b c
            (authorize_trigger env.crypto config r.headers r.body hook.user_id vault) refl

      with_snapshot :
          (hook : HookMatch)
          → find_hook_route flow_id (env.to_uppercase r.method) (sub_path r) s ≡ some hook
          → (o : Option Flow) → get_deployment flow_id s ≡ o
          → Goal
      with_snapshot hook a none b = let no = rw (a, b, admit) at h in cc
      with_snapshot hook a (some snapshot) b =
          with_config hook snapshot a b (trigger_node_config snapshot hook.node_id) refl

      with_route :
          (o : Option HookMatch)
          → find_hook_route flow_id (env.to_uppercase r.method) (sub_path r) s ≡ o
          → Goal
      with_route none a = let no = rw (a, admit) at h in cc
      with_route (some hook) a = with_snapshot hook a (get_deployment flow_id s) refl

  branch-IsBranch :
      (hook : HookMatch) (snapshot g : Flow)
      → branch env vault hook snapshot ≡ ok g
      → IsBranch env vault hook snapshot g
  unfolding branch
  branch-IsBranch hook snapshot g h =
      with_flow (canvas_to_flow env.new_v5 env.fresh env.now vault snapshot hook.user_id) refl
    where
      with_trigger :
          (c : Compiled)
          → canvas_to_flow env.new_v5 env.fresh env.now vault snapshot hook.user_id ≡ ok c
          → (o : Option Uuid) → get hook.node_id c.1 ≡ o
          → IsBranch env vault hook snapshot g
      with_trigger c a none b = let no = rw (a, b, branch) at h in cc
      with_trigger c a (some trigger) b =
          let (cut, e, same, nodes, edges) = restrict_to_trigger_lem c.0 trigger in
          subst (IsBranch env vault hook snapshot) (ok_inv (rw (a, b, e, branch) at h)) (record {
            whole = c.0;
            id_map = c.1;
            trigger = trigger;
            compiled = a;
            bound = b;
            joined = edges;
            below = nodes;
          })

      with_flow :
          (o : ApiResult Compiled)
          → canvas_to_flow env.new_v5 env.fresh env.now vault snapshot hook.user_id ≡ o
          → IsBranch env vault hook snapshot g
      with_flow (err e) a = let no = rw (a, branch) at h in cc
      with_flow (ok c) a = with_trigger c a (get hook.node_id c.1) refl

  -- All that a request needs that starts a flow.
  pub record Started (r : Request) (s : Deployments) (l : HookLimits) (g : Flow) (m : FlowMessage)
      : Type 0 where
    pub flow_id : Uuid
    pub named : requested env vault r ≡ ok flow_id
    pub hook : HookMatch
    pub snapshot : Flow
    pub granted : IsGranted env vault r s flow_id hook snapshot
    pub slot : Semaphore
    pub acquired : (try_acquire flow_id l).0 ≡ some slot
    pub cut : IsBranch env vault hook snapshot g
    pub message : m ≡ trigger_message env vault r

  Outcomes : Request → Deployments → HookLimits → Outcome → Type 0
  Outcomes r s l (respond e) = Unit
  Outcomes r s l (execute g m) = Started r s l g m

  module _ (r : Request) (s : Deployments) (l : HookLimits) (flow_id : Uuid)
      (named : requested env vault r ≡ ok flow_id) where
    with_slot-Outcomes :
        (p : HookMatch × Flow)
        → IsGranted env vault r s flow_id p.0 p.1
        → (o : Option Semaphore × HookLimits) → try_acquire flow_id l ≡ o
        → Outcomes r s l (with_slot env vault r p o).0
    unfolding Outcomes
    with_slot-Outcomes p k (none, l') a = tt
    with_slot-Outcomes (hook, snapshot) k (some slot, l') a =
        go (branch env vault hook snapshot) refl
      where
        go :
            (o : ApiResult Flow)
            → branch env vault hook snapshot ≡ o
            → Outcomes r s l (start env vault r o slot l').0
        go (err e) b = tt
        go (ok g) b = record {
          flow_id = flow_id;
          named = named;
          hook = hook;
          snapshot = snapshot;
          granted = k;
          slot = slot;
          acquired = ap (λ q. q.0) a;
          cut = branch-IsBranch hook snapshot g b;
          message = refl;
        }

    admitted-Outcomes :
        (o : ApiResult (HookMatch × Flow))
        → admit env vault r s flow_id ≡ o
        → Outcomes r s l (admitted_to env vault r flow_id o l).0
    unfolding Outcomes
    admitted-Outcomes (err e) a = tt
    admitted-Outcomes (ok p) a =
        with_slot-Outcomes p (admit-IsGranted r s flow_id p a) (try_acquire flow_id l) refl

  handle-Outcomes :
      (r : Request) (s : Deployments) (l : HookLimits) (o : ApiResult Uuid)
      → requested env vault r ≡ o
      → Outcomes r s l (handle env vault r o s l).0
  unfolding Outcomes
  handle-Outcomes r s l (err e) a = tt
  handle-Outcomes r s l (ok flow_id) a =
      admitted-Outcomes r s l flow_id a (admit env vault r s flow_id) refl

  -- What the handler has checked when it starts a flow.
  pub hook_handler_started :
      (r : Request) (s : Deployments) (l l' : HookLimits) (g : Flow) (m : FlowMessage)
      → hook_handler env vault r s l ≡ (execute g m, l')
      → Started r s l g m
  unfolding hook_handler Outcomes
  hook_handler_started r s l l' g m h =
      subst (λ q. Outcomes r s l q.0) h (handle-Outcomes r s l (requested env vault r) refl)
