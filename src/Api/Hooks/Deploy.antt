-- ===== src/Api/Hooks/Deploy.antt =====
-- What a deployment answers to requests.
use z8run.Base.{
  ◌+◌, ◌≤◌, String, false, not, Option, none, some, List, [], ◌∷◌, ◌++◌, map, find,
  find-append_none, find-append_none_after, find-filter, find-filter-none, passing, passing-append,
  passing-find-some, passing-find-none, ◌==◌, ==-refl, ◌≡◌, refl, sym, ap, ◌∙◌, arith, Bool-cases,
  inl, inr,
}
use mathlib.Core.List.{append-nil, append_assoc}
use z8run.Error.{Uuid}
use z8run.Flow.{Flow}
use z8run.Api.{ok}
use z8run.Api.Hooks.{
  HookRoute, HookMatch, RouteRow, Deployment, Deployments, matches, row_matches, insert_routes,
  delete_routes, delete_snapshot, deploy_flow, find_hook_route, get_deployment, undeploy_flow,
  match_of, snapshot_of, collect_hook_routes,
}
use z8run.Api.Hooks.Routes.{AreDistinct, matches_self, collect_hook_routes_lem}

abbrev row : (flow_id user_id : Uuid) → HookRoute → RouteRow
row flow_id user_id r = record { flow_id = flow_id; user_id = user_id; route = r }

-- The route that answers, with its owner.
abbrev pub answered : (user_id : Uuid) → Option HookRoute → Option HookMatch
answered user_id none = none
answered user_id (some r) = some (record { user_id = user_id; node_id = r.node_id })

module _ (flow_id user_id : Uuid) where
  -- Room for routes beside the rows of a flow: no key of theirs is taken.
  abbrev HasRoom : List RouteRow → List HookRoute → Type 0
  HasRoom rows rs =
      (method path : String)
      → passing (row_matches flow_id method path) rows + passing (matches method path) rs ≤ 1

  row_matches-row :
      (method path : String) (r : HookRoute)
      → row_matches flow_id method path (row flow_id user_id r) ≡ matches method path r
  unfolding row_matches
  row_matches-row method path r = rw (==-refl flow_id) refl

  shift :
      (r : HookRoute) (rs : List HookRoute) (rows : List RouteRow)
      → HasRoom rows (r ∷ rs)
      → HasRoom (rows ++ row flow_id user_id r ∷ []) rs
  unfolding passing
  shift r rs rows h method path = ground (
    arith,
    h method path,
    passing-append (row_matches flow_id method path) rows (row flow_id user_id r ∷ []),
    row_matches-row method path r,
  )

  not_taken :
      (r : HookRoute) (rs : List HookRoute) (rows : List RouteRow) (taken : RouteRow)
      → HasRoom rows (r ∷ rs)
      → find (row_matches flow_id r.method r.path) rows ≡ some taken
      → ⊥
  unfolding passing
  not_taken r rs rows taken h e = ground (
    arith,
    h r.method r.path,
    passing-find-some (row_matches flow_id r.method r.path) taken rows e,
    matches_self r,
  )

  insert_all :
      (rs : List HookRoute) (rows : List RouteRow)
      → HasRoom rows rs
      → insert_routes flow_id user_id rs rows ≡ some (rows ++ map (row flow_id user_id) rs)
  unfolding insert_routes
  insert_all [] rows h = ap some (sym (append-nil rows))
  insert_all (r ∷ rs) rows h =
      go (find (row_matches flow_id r.method r.path) rows) refl
        (λ k. insert_all rs (rows ++ row flow_id user_id r ∷ []) k)
    where
      go :
          (o : Option RouteRow)
          → find (row_matches flow_id r.method r.path) rows ≡ o
          → (HasRoom (rows ++ row flow_id user_id r ∷ []) rs
              → insert_routes flow_id user_id rs (rows ++ row flow_id user_id r ∷ [])
                ≡ some ((rows ++ row flow_id user_id r ∷ []) ++ map (row flow_id user_id) rs))
          → insert_routes flow_id user_id (r ∷ rs) rows
            ≡ some (rows ++ row flow_id user_id r ∷ map (row flow_id user_id) rs)
      go (some taken) e rest = absurd (not_taken r rs rows taken h e)
      go none e rest =
          rw (e, insert_routes)
            (rest (shift r rs rows h)
              ∙ ap some
                  (append_assoc rows (row flow_id user_id r ∷ []) (map (row flow_id user_id) rs)))

  found_new :
      (method path : String) (rs : List HookRoute)
      → match_of (find (row_matches flow_id method path) (map (row flow_id user_id) rs))
        ≡ answered user_id (find (matches method path) rs)
  unfolding find row_matches
  found_new method path [] = refl
  found_new method path (r ∷ rs) =
      let rest = found_new method path rs in
      elim (Bool-cases (matches method path r)) [
        | inl e ↦ rw (e, ==-refl flow_id) refl
        | inr e ↦ rw (e, ==-refl flow_id) rest
      ]

  -- The rows of the flow are gone, and those of other flows are left.
  deleted :
      (method path : String) (rows : List RouteRow)
      → find (row_matches flow_id method path) (delete_routes flow_id rows) ≡ none
  unfolding delete_routes row_matches
  deleted method path rows =
      find-filter-none (row_matches flow_id method path) (λ x. not (x.flow_id == flow_id)) rows
        (λ x h. ground arith)

  left :
      (other : Uuid) (method path : String) (rows : List RouteRow)
      → (other == flow_id) ≡ false
      → find (row_matches other method path) (delete_routes flow_id rows)
        ≡ find (row_matches other method path) rows
  unfolding delete_routes row_matches
  left other method path rows e =
      find-filter (row_matches other method path) (λ x. not (x.flow_id == flow_id)) rows
        (λ x h. ground arith)

  not_new :
      (other : Uuid) (method path : String) (rs : List HookRoute)
      → (other == flow_id) ≡ false
      → find (row_matches other method path) (map (row flow_id user_id) rs) ≡ none
  unfolding find row_matches
  not_new other method path [] e = refl
  not_new other method path (r ∷ rs) e = ground (arith, not_new other method path rs e)

-- What requests see of the deployment of another flow.
abbrev pub AreSame : (other : Uuid) → Deployments → Deployments → Type 0
AreSame other s s' =
    ((method path : String)
      → find_hook_route other method path s' ≡ find_hook_route other method path s)
    × (get_deployment other s' ≡ get_deployment other s)

module _ (flow_id user_id : Uuid) (snapshot : Flow) (routes : List HookRoute)
    (s : Deployments) where
  deployed : Deployments
  deployed = record {
    routes = delete_routes flow_id s.routes ++ map (row flow_id user_id) routes;
    snapshots =
        delete_snapshot flow_id s.snapshots
        ++ record { flow_id = flow_id; user_id = user_id; snapshot = snapshot } ∷ [];
  }

  deploys : AreDistinct routes → deploy_flow flow_id user_id snapshot routes s ≡ some deployed
  unfolding deploy_flow deployed AreDistinct
  deploys d =
      let gone : (m p : String)
          → passing (row_matches flow_id m p) (delete_routes flow_id s.routes) ≡ 0 =
        λ m p.
          passing-find-none (row_matches flow_id m p) (delete_routes flow_id s.routes)
            (deleted flow_id user_id m p s.routes) in
      rw
        (
          insert_all flow_id user_id routes (delete_routes flow_id s.routes)
              (λ m p. omega (arith, gone m p, d m p)),
          deploy_flow,
        )
        refl

  answers :
      (method path : String)
      → find_hook_route flow_id method path deployed
        ≡ answered user_id (find (matches method path) routes)
  unfolding find_hook_route deployed
  answers method path =
      ap match_of (
        find-append_none (row_matches flow_id method path) (delete_routes flow_id s.routes)
          (map (row flow_id user_id) routes) (deleted flow_id user_id method path s.routes))
      ∙ found_new flow_id user_id method path routes

  snapshot_stored : get_deployment flow_id deployed ≡ some snapshot
  unfolding get_deployment deployed delete_snapshot find
  snapshot_stored =
      let last : Deployment = record {
        flow_id = flow_id;
        user_id = user_id;
        snapshot = snapshot;
      } in
      rw
        (
          find-append_none (λ d. d.flow_id == flow_id) (delete_snapshot flow_id s.snapshots)
              (last ∷ [])
              (find-filter-none (λ d. d.flow_id == flow_id) (λ d. not (d.flow_id == flow_id))
                s.snapshots (λ x h. rw h refl)),
          ==-refl flow_id,
        )
        refl

  others_left : (other : Uuid) → (other == flow_id) ≡ false → AreSame other s deployed
  unfolding find_hook_route get_deployment deployed delete_snapshot find
  others_left other e = (
    λ m p. ap match_of (
        find-append_none_after (row_matches other m p) (delete_routes flow_id s.routes)
          (map (row flow_id user_id) routes) (not_new flow_id user_id other m p routes e)
        ∙ left flow_id user_id other m p s.routes e),
    ap snapshot_of (
        find-append_none_after (λ d. d.flow_id == other) (delete_snapshot flow_id s.snapshots) _
          (ground arith)
        ∙ find-filter (λ d. d.flow_id == other) (λ d. not (d.flow_id == flow_id)) s.snapshots
            (λ x h. ground arith)),
  )

-- A flow whose hook routes have been collected is deployed without an error. From then on a
-- request finds the route with its method and path and, with it, the owner and the trigger that
-- declared it; a request with another method or path finds none; and the snapshot that runs is the
-- one that was deployed. What requests to other flows find does not change.
pub deploy_flow-collected :
    (trim to_uppercase : String → String) (f : Flow) (user_id : Uuid) (routes : List HookRoute)
    → (s : Deployments) → collect_hook_routes trim to_uppercase f ≡ ok routes
    → (s' : Deployments) × (deploy_flow f.id user_id f routes s ≡ some s')
      × ((method path : String)
          → find_hook_route f.id method path s'
            ≡ answered user_id (find (matches method path) routes))
      × (get_deployment f.id s' ≡ some f)
      × ((other : Uuid) → (other == f.id) ≡ false → AreSame other s s')
deploy_flow-collected trim to_uppercase f user_id routes s e =
    let d = ((collect_hook_routes_lem trim to_uppercase f routes).0 e).1 in
    (
      deployed f.id user_id f routes s,
      deploys f.id user_id f routes s d,
      answers f.id user_id f routes s,
      snapshot_stored f.id user_id f routes s,
      others_left f.id user_id f routes s,
    )

-- A flow that is retired has no hook any more, and no snapshot; other flows keep theirs.
pub undeploy_flow_lem :
    (flow_id : Uuid) (s : Deployments)
    → ((method path : String)
        → find_hook_route flow_id method path (undeploy_flow flow_id s) ≡ none)
      × (get_deployment flow_id (undeploy_flow flow_id s) ≡ none)
      × ((other : Uuid) → (other == flow_id) ≡ false → AreSame other s (undeploy_flow flow_id s))
unfolding undeploy_flow find_hook_route get_deployment delete_snapshot
undeploy_flow_lem flow_id s = (
  λ m p. ap match_of (deleted flow_id flow_id m p s.routes),
  ap snapshot_of (
      find-filter-none (λ d. d.flow_id == flow_id) (λ d. not (d.flow_id == flow_id)) s.snapshots
        (λ x h. rw h refl)),
  λ other e. (
    λ m p. ap match_of (left flow_id flow_id other m p s.routes e),
    ap snapshot_of (
        find-filter (λ d. d.flow_id == other) (λ d. not (d.flow_id == flow_id)) s.snapshots
          (λ x h. ground arith)),
  ),
)
