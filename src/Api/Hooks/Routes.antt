-- ===== src/Api/Hooks/Routes.antt =====
-- The routes that are collected from a canvas.
use z8run.Base.{
  ◌≤◌, String, true, Option, none, some, List, [], ◌∷◌, ◌++◌, find, passing, passing-append,
  passing-find-none, passing-find-some, eq_iff, ◌≡◌, refl, sym, ap, subst, ◌∙◌, ◌↔◌, arith,
  Bool-cases, inl, inr,
}
use mathlib.Core.List.{append-nil, append_assoc}
use z8run.Json.{Items, no_items, item}
use z8run.Flow.{Flow}
use z8run.Api.{ok, ok_inv}
use z8run.Api.Hooks.{
  HookRoute, matches, node_route, collect_from, collect_hook_routes, canvas_nodes,
}

-- No method and path has two routes.
unfoldable pub AreDistinct : List HookRoute → Type 0
AreDistinct routes = (method path : String) → passing (matches method path) routes ≤ 1

pub matches_self : (r : HookRoute) → matches r.method r.path r ≡ true
unfolding matches
matches_self r = ground (arith, eq_iff r.method r.method, eq_iff r.path r.path)

-- A route that matches has the method and the path.
pub passing-matches :
    (method path : String) (r : HookRoute) (rs : List HookRoute)
    → matches method path r ≡ true
    → passing (matches method path) rs ≡ passing (matches r.method r.path) rs
unfolding matches
passing-matches method path r rs h =
    let m : r.method ≡ method = ground (arith, eq_iff r.method method) in
    let p : r.path ≡ path = ground (arith, eq_iff r.path path) in rw (m, p) refl

nothing-AreDistinct : AreDistinct []
unfolding AreDistinct passing
nothing-AreDistinct method path = omega arith

module _ (trim to_uppercase : String → String) where
  -- The routes of all nodes that declare one, in the order of the canvas.
  abbrev pub add_route : Option HookRoute → List HookRoute → List HookRoute
  add_route none rs = rs
  add_route (some r) rs = r ∷ rs

  unfoldable pub routes_of : Items → List HookRoute
  routes_of no_items = []
  routes_of (item node nodes) = add_route (node_route trim to_uppercase node) (routes_of nodes)

  add_distinct :
      (acc : List HookRoute) (r : HookRoute)
      → AreDistinct acc
      → find (matches r.method r.path) acc ≡ none
      → AreDistinct (acc ++ r ∷ [])
  unfolding AreDistinct passing
  add_distinct acc r d e method path =
      let one = passing-append (matches method path) acc (r ∷ []) in
      elim (Bool-cases (matches method path r)) [
        | inl same ↦ ground (
          arith,
          one,
          same,
          passing-matches method path r acc same,
          passing-find-none (matches r.method r.path) acc e,
        )
        | inr other ↦ ground (arith, one, other, d method path)
      ]

  collect_sound :
      (nodes : Items) (acc rs : List HookRoute)
      → AreDistinct acc
      → collect_from trim to_uppercase nodes acc ≡ ok rs
      → (rs ≡ acc ++ routes_of nodes) × AreDistinct rs
  unfolding collect_from routes_of
  collect_sound no_items acc rs d e =
      (sym (ok_inv e) ∙ sym (append-nil acc), subst AreDistinct (ok_inv e) d)
  collect_sound (item node nodes) acc rs d e =
      go (λ acc' d' e'. collect_sound nodes acc' rs d' e') (node_route trim to_uppercase node) refl
    where
      Rest : Type 0
      Rest =
          (acc' : List HookRoute)
          → AreDistinct acc'
          → collect_from trim to_uppercase nodes acc' ≡ ok rs
          → (rs ≡ acc' ++ routes_of nodes) × AreDistinct rs

      added :
          Rest
          → (r : HookRoute) → node_route trim to_uppercase node ≡ some r
          → (o : Option HookRoute) → find (matches r.method r.path) acc ≡ o
          → (rs ≡ acc ++ r ∷ routes_of nodes) × AreDistinct rs
      added rest r f (some existing) g = let no = rw (f, g, collect_from) at e in cc
      added rest r f none g =
          let (same, dist) =
            rest (acc ++ r ∷ []) (add_distinct acc r d g) (rw (f, g, collect_from) at e) in
          (same ∙ append_assoc acc (r ∷ []) (routes_of nodes), dist)

      go :
          Rest
          → (o : Option HookRoute) → node_route trim to_uppercase node ≡ o
          → (rs ≡ acc ++ add_route o (routes_of nodes)) × AreDistinct rs
      go rest none f = rest acc d (rw (f, collect_from) at e)
      go rest (some r) f = added rest r f (find (matches r.method r.path) acc) refl

  clash :
      (acc rest : List HookRoute) (r existing : HookRoute)
      → find (matches r.method r.path) acc ≡ some existing
      → AreDistinct (acc ++ r ∷ rest)
      → ⊥
  unfolding AreDistinct passing
  clash acc rest r existing e d = ground (
    arith,
    d r.method r.path,
    passing-append (matches r.method r.path) acc (r ∷ rest),
    passing-find-some (matches r.method r.path) existing acc e,
    matches_self r,
  )

  collect_complete :
      (nodes : Items) (acc : List HookRoute)
      → AreDistinct (acc ++ routes_of nodes)
      → collect_from trim to_uppercase nodes acc ≡ ok (acc ++ routes_of nodes)
  unfolding collect_from routes_of
  collect_complete no_items acc d = ap ok (sym (append-nil acc))
  collect_complete (item node nodes) acc d =
      go (λ acc' d'. collect_complete nodes acc' d') (node_route trim to_uppercase node) refl
    where
      Rest : Type 0
      Rest =
          (acc' : List HookRoute)
          → AreDistinct (acc' ++ routes_of nodes)
          → collect_from trim to_uppercase nodes acc' ≡ ok (acc' ++ routes_of nodes)

      Goal : Option HookRoute → Type 0
      Goal o =
          collect_from trim to_uppercase (item node nodes) acc
          ≡ ok (acc ++ add_route o (routes_of nodes))

      added :
          Rest
          → (r : HookRoute) → node_route trim to_uppercase node ≡ some r
          → AreDistinct (acc ++ r ∷ routes_of nodes)
          → (o : Option HookRoute) → find (matches r.method r.path) acc ≡ o
          → Goal (some r)
      added rest r f dist (some existing) g = absurd (clash acc (routes_of nodes) r existing g dist)
      added rest r f dist none g =
          let step = append_assoc acc (r ∷ []) (routes_of nodes) in
          rw (f, g, collect_from)
            (rest (acc ++ r ∷ []) (subst AreDistinct (sym step) dist) ∙ ap ok step)

      go :
          Rest
          → (o : Option HookRoute) → node_route trim to_uppercase node ≡ o
          → Goal (node_route trim to_uppercase node)
      go rest none f = rw (f, collect_from) (rest acc (rw f at d))
      go rest (some r) f =
          rw f (added rest r f (rw f at d) (find (matches r.method r.path) acc) refl)

  -- The routes that a stored flow declares.
  abbrev pub declared_routes : Option Items → List HookRoute
  declared_routes none = []
  declared_routes (some nodes) = routes_of nodes

  -- Collecting the hook routes of a flow succeeds just when no method and path has two triggers,
  -- and then it returns the route of every trigger of the canvas that has an identifier, bound to
  -- that trigger, in the order of the canvas.
  pub collect_hook_routes_lem :
      (f : Flow) (rs : List HookRoute)
      → (collect_hook_routes trim to_uppercase f ≡ ok rs)
        ↔ ((rs ≡ declared_routes (canvas_nodes f)) × AreDistinct rs)
  unfolding collect_hook_routes
  collect_hook_routes_lem f rs = go (canvas_nodes f) refl
    where
      go :
          (o : Option Items)
          → canvas_nodes f ≡ o
          → (collect_hook_routes trim to_uppercase f ≡ ok rs)
            ↔ ((rs ≡ declared_routes (canvas_nodes f)) × AreDistinct rs)
      go none e =
          rw (e, collect_hook_routes)
            (
              λ h. (sym (ok_inv h), subst AreDistinct (ok_inv h) nothing-AreDistinct),
              λ h. ap ok (sym h.0),
            )
      go (some nodes) e =
          rw (e, collect_hook_routes)
            (
              λ h. collect_sound nodes [] rs nothing-AreDistinct h,
              λ (same, d). collect_complete nodes [] (subst AreDistinct same d) ∙ ap ok (sym same),
            )
