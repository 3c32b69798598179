-- ===== src/Api/Handler/Deployed.antt =====
-- What the deployment of a flow and the handler of its hooks do together.
use z8run.Base.{
  String, Bool, true, false, Option, none, some, List, [], ◌∷◌, find, str_eq, eq_iff, Memᴰ, All,
  All_at, ◌≡◌, refl, sym, ap, ◌∙◌, subst, some_inv, Bool-cases, inl, inr,
}
use z8run.Json.{Value, Items, item, no_items}
use z8run.Error.{Uuid}
use z8run.Message.{FlowMessage}
use z8run.Flow.{Flow}
use z8run.HookLimits.{HookLimits, Semaphore, try_acquire}
use z8run.Nodes.{list_of, is_empty_text, contains_text}
use z8run.Api.{ok, index, str_of, ok_inv, unwrap_or}
use z8run.Api.Hooks.{
  HookRoute, HookMatch, Deployments, canvas_nodes, matches, declared, node_route, hook_node_types,
  collect_hook_routes, deploy_flow, find_hook_route, get_deployment,
}
use z8run.Api.Hooks.Routes.{add_route, routes_of, declared_routes, collect_hook_routes_lem}
use z8run.Api.Hooks.Deploy.{answered, deploy_flow-collected}
use z8run.Api.Canvas.{Vault}
use z8run.Api.Auth.Policy.{Authorized}
use z8run.Api.Handler.{
  Request, Env, execute, is_node, config_in, trigger_node_config, sub_path, requested,
  trigger_message, hook_handler,
}
use z8run.Api.Handler.Safe.{IsBranch, Started, hook_handler_started}

find-some {ℓ} :
    {A : Type ℓ} (p : A → Bool) (xs : List A) (x : A)
    → find p xs ≡ some x
    → Memᴰ x xs × (p x ≡ true)
unfolding find
find-some p [] x h = cc
find-some p (y ∷ ys) x h = elim (Bool-cases (p y)) [
  | inl e ↦ let same = some_inv (sym (rw e at h)) in (Memᴰ.head same, ap p same ∙ e)
  | inr e ↦ let (m, q) = find-some p ys x (rw e at h) in (Memᴰ.tail m, q)
]

matches_inv :
    (method path : String) (r : HookRoute)
    → matches method path r ≡ true
    → (r.method ≡ method) × (r.path ≡ path)
unfolding matches
matches_inv method path r h = elim (Bool-cases (str_eq r.method method)) [
  | inl e ↦ ((eq_iff r.method method).0 e, (eq_iff r.path path).0 (rw e at h))
  | inr e ↦ let no = rw e at h in cc
]

answered_inv :
    (user : Uuid) (o : Option HookRoute) (hook : HookMatch)
    → answered user o ≡ some hook
    → (r : HookRoute) × (o ≡ some r) × (record { user_id = user; node_id = r.node_id } ≡ hook)
answered_inv user none hook h = cc
answered_inv user (some r) hook h = (r, refl, some_inv h)

module _ (trim to_uppercase : String → String) where
  routes_of-declared :
      (r : HookRoute) (nodes : Items)
      → Memᴰ r (routes_of trim to_uppercase nodes)
      → (v : Value) × Memᴰ v (list_of nodes) × (node_route trim to_uppercase v ≡ some r)
  unfolding routes_of list_of
  routes_of-declared r no_items m = elim m [ ]
  routes_of-declared r (item v nodes) m =
      go (node_route trim to_uppercase v) refl (routes_of-declared r nodes) m
    where
      go :
          (o : Option HookRoute)
          → node_route trim to_uppercase v ≡ o
          → (Memᴰ r (routes_of trim to_uppercase nodes)
              → (w : Value) × Memᴰ w (list_of nodes) × (node_route trim to_uppercase w ≡ some r))
          → Memᴰ r (add_route trim to_uppercase o (routes_of trim to_uppercase nodes))
          → (w : Value) × Memᴰ w (v ∷ list_of nodes) × (node_route trim to_uppercase w ≡ some r)
      go none e rest k = let (w, i, d) = rest k in (w, Memᴰ.tail i, d)
      go (some q) e rest (Memᴰ.head same) = (v, Memᴰ.head refl, e ∙ ap some (sym same))
      go (some q) e rest (Memᴰ.tail k) = let (w, i, d) = rest k in (w, Memᴰ.tail i, d)

  declared-id :
      (node_type : String) (o : Option String) (config : Value) (r : HookRoute)
      → declared trim to_uppercase node_type o config ≡ some r
      → o ≡ some r.node_id
  declared-id node_type none config r h = cc
  declared-id node_type (some id) config r h = elim (Bool-cases (is_empty_text id)) [
    | inl e ↦ let no = rw e at h in cc
    | inr e ↦ ap some (ap (λ r. r.node_id) (some_inv (rw e at h)))
  ]

  node_route-id :
      (v : Value) (r : HookRoute)
      → node_route trim to_uppercase v ≡ some r
      → str_of (index v "id") ≡ some r.node_id
  unfolding node_route
  node_route-id v r h =
      let node_type = unwrap_or "" (str_of (index (index v "data") "type")) in
      elim (Bool-cases (contains_text node_type hook_node_types)) [
        | inl e ↦
            declared-id node_type (str_of (index v "id")) (index (index v "data") "config") r
              (rw e at h)
        | inr e ↦ let no = rw e at h in cc
      ]

-- No two nodes of a canvas have the same identifier.
abbrev pub is_same : Value → Value → Bool
is_same v w = elim (str_of (index v "id")) [ none ↦ false | some id ↦ is_node id w ]

abbrev pub HasDistinctIds : List Value → Type 0
HasDistinctIds [] = Unit
HasDistinctIds (v ∷ vs) = All (λ w. is_same v w ≡ false) vs × HasDistinctIds vs

abbrev pub nodes_of : Option Items → List Value
nodes_of none = []
nodes_of (some nodes) = list_of nodes

is_node_self : (id : String) (v : Value) → str_of (index v "id") ≡ some id → is_node id v ≡ true
is_node_self id v e = rw (e, is_node) ((eq_iff id id).1 refl)

is_node_inv : (id : String) (v : Value) → is_node id v ≡ true → str_of (index v "id") ≡ some id
is_node_inv id v h = go (str_of (index v "id")) h
  where
    go : (o : Option String) → (elim o [ none ↦ false | some i ↦ str_eq i id ]) ≡ true → o ≡ some id
    go none e = cc
    go (some i) e = ap some ((eq_iff i id).0 e)

-- The node that is found by its identifier is the one that has it.
found_own :
    (id : String) (v w : Value) (vs : List Value)
    → HasDistinctIds vs
    → Memᴰ v vs
    → str_of (index v "id") ≡ some id
    → find (is_node id) vs ≡ some w
    → w ≡ v
unfolding find
found_own id v w [] d m e h = elim m [ ]
found_own id v w (y ∷ ys) (apart, d) (Memᴰ.head same) e h =
    let hit : is_node id y ≡ true = ap (is_node id) (sym same) ∙ is_node_self id v e in
    sym (some_inv (rw hit at h)) ∙ sym same
found_own id v w (y ∷ ys) (apart, d) (Memᴰ.tail m) e h = elim (Bool-cases (is_node id y)) [
  | inl hit ↦
      let other : is_same y v ≡ false = All_at (λ w. is_same y w ≡ false) ys apart m in
      let mine = is_node_inv id y hit in
      let no = sym (is_node_self id v e) ∙ rw (mine, is_same) at other in cc
  | inr miss ↦ found_own id v w ys d m e (rw miss at h)
]

config_find :
    (f : Flow) (id : String) (config : Value)
    → trigger_node_config f id ≡ some config
    → (w : Value) × (find (is_node id) (nodes_of (canvas_nodes f)) ≡ some w)
      × (index (index w "data") "config" ≡ config)
unfolding trigger_node_config
config_find f id config h = go (canvas_nodes f) refl
  where
    inner :
        (o : Option Value)
        → config_in o ≡ some config
        → (w : Value) × (o ≡ some w) × (index (index w "data") "config" ≡ config)
    inner none e = cc
    inner (some w) e = (w, refl, some_inv e)

    go :
        (o : Option Items)
        → canvas_nodes f ≡ o
        → (w : Value) × (find (is_node id) (nodes_of o) ≡ some w)
          × (index (index w "data") "config" ≡ config)
    go none e = let no = rw (e, trigger_node_config) at h in cc
    go (some nodes) e = inner _ (rw (e, trigger_node_config) at h)

-- Why a request starts a flow that was deployed, and what it starts: a trigger of the canvas that
-- declares the method and the path of the request, whose own policy lets it through.
pub record Served (trim : String → String) (env : Env) (vault : Vault) (f : Flow) (user : Uuid)
    (r : Request) (l : HookLimits) (g : Flow) (m : FlowMessage) : Type 0 where
  pub trigger : Value
  pub stands : Memᴰ trigger (nodes_of (canvas_nodes f))
  pub route : HookRoute
  pub declares : node_route trim env.to_uppercase trigger ≡ some route
  pub method : route.method ≡ env.to_uppercase r.method
  pub path : route.path ≡ sub_path r
  pub authorized :
      Authorized env.crypto (index (index trigger "data") "config") r.headers r.body user vault
  pub slot : Semaphore
  pub acquired : (try_acquire f.id l).0 ≡ some slot
  pub cut : IsBranch env vault (record { user_id = user; node_id = route.node_id }) f g
  pub message : m ≡ trigger_message env vault r

declared_nodes :
    (trim to_uppercase : String → String) (r : HookRoute) (o : Option Items)
    → Memᴰ r (declared_routes trim to_uppercase o)
    → (v : Value) × Memᴰ v (nodes_of o) × (node_route trim to_uppercase v ≡ some r)
declared_nodes trim to_uppercase r none m = elim m [ ]
declared_nodes trim to_uppercase r (some nodes) m = routes_of-declared trim to_uppercase r nodes m

module _ (trim : String → String) (env : Env) (vault : Vault) (f : Flow) (user : Uuid)
    (routes : List HookRoute) (s0 s : Deployments) (r : Request) (l : HookLimits) (g : Flow)
    (m : FlowMessage) where
  -- The deployment that a request finds is that of the flow, and the route it takes is declared.
  served :
      collect_hook_routes trim env.to_uppercase f ≡ ok routes
      → deploy_flow f.id user f routes s0 ≡ some s
      → HasDistinctIds (nodes_of (canvas_nodes f))
      → requested env vault r ≡ ok f.id
      → Started env vault r s l g m
      → Served trim env vault f user r l g m
  served collected deploys distinct named st =
      let way = env.to_uppercase r.method in
      let sub = sub_path r in
      let same_id : st.flow_id ≡ f.id = ok_inv (sym st.named ∙ named) in
      let (s', made, answers, snap, others) =
        deploy_flow-collected trim env.to_uppercase f user routes s0 collected in
      let same_s : s' ≡ s = some_inv (sym made ∙ deploys) in
      let stored : get_deployment f.id s ≡ some f = ap (get_deployment f.id) (sym same_s) ∙ snap in
      let snapshot : st.snapshot ≡ f =
        some_inv (sym st.granted.deployed ∙ ap (λ i. get_deployment i s) same_id ∙ stored) in
      let taken =
        sym (answers way sub)
        ∙ ap (find_hook_route f.id way sub) same_s
        ∙ ap (λ i. find_hook_route i way sub s) (sym same_id)
        ∙ st.granted.route in
      let (route, found, is_hook) =
        answered_inv user (find (matches way sub) routes) st.hook taken in
      let (member, hits) = find-some (matches way sub) routes route found in
      let (method, path) = matches_inv way sub route hits in
      let declared = ((collect_hook_routes_lem trim env.to_uppercase f routes).0 collected).0 in
      let (v, stands, declares) =
        declared_nodes trim env.to_uppercase route (canvas_nodes f)
          (subst (Memᴰ route) declared member) in
      let configured =
        ap (λ q. trigger_node_config f q.node_id) is_hook
        ∙ ap (λ x. trigger_node_config x st.hook.node_id) (sym snapshot)
        ∙ st.granted.configured in
      let (w, first, config) = config_find f route.node_id st.granted.config configured in
      let own =
        found_own route.node_id v w (nodes_of (canvas_nodes f)) distinct stands
          (node_route-id trim env.to_uppercase v route declares) first in
      let own_config = ap (λ x. index (index x "data") "config") (sym own) ∙ config in
      record {
        trigger = v;
        stands = stands;
        route = route;
        declares = declares;
        method = method;
        path = path;
        authorized =
            subst (λ c. Authorized env.crypto c r.headers r.body user vault) (sym own_config)
              (subst (λ q. Authorized env.crypto st.granted.config r.headers r.body q.user_id vault)
                (sym is_hook) st.granted.authorized);
        slot = st.slot;
        acquired = ap (λ i. (try_acquire i l).0) (sym same_id) ∙ st.acquired;
        cut =
            subst (λ q. IsBranch env vault q f g) (sym is_hook)
              (subst (λ x. IsBranch env vault st.hook x g) snapshot st.cut);
        message = st.message;
      }

-- Where the nodes of a canvas have distinct identifiers, and its flow has been deployed with the
-- routes that are collected from it: a request for the flow starts it only if a trigger of the
-- canvas declares exactly the method and the path of the request, the policy of this trigger lets
-- the request through, with secrets of the user who deployed the flow, and a slot of the flow has
-- been acquired. What is started is the branch of that trigger in the compiled canvas, with the
-- nodes that are reached from the trigger and the edges that start at these, and with the message of
-- the request.
pub hook_handler_safe :
    (trim : String → String) (env : Env) (vault : Vault) (f : Flow) (user : Uuid)
    (routes : List HookRoute) (s0 s : Deployments) (r : Request) (l l' : HookLimits) (g : Flow)
    (m : FlowMessage)
    → collect_hook_routes trim env.to_uppercase f ≡ ok routes
    → deploy_flow f.id user f routes s0 ≡ some s
    → HasDistinctIds (nodes_of (canvas_nodes f))
    → requested env vault r ≡ ok f.id
    → hook_handler env vault r s l ≡ (execute g m, l')
    → Served trim env vault f user r l g m
hook_handler_safe trim env vault f user routes s0 s r l l' g m collected deploys distinct named h =
    served trim env vault f user routes s0 s r l g m collected deploys distinct named
      (hook_handler_started env vault r s l l' g m h)
