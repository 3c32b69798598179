-- ===== src/Kahn.antt =====
-- The cycle check and the topological order of crates/z8run-core/src/flow.rs, which are Kahn's
-- algorithm over a `HashMap` of in-degrees. `none` stands for what ends no run of the code: a
-- decrement of a zero in-degree, which panics, or fuel that ran out.
pub mod Counts
pub mod Degrees
pub mod Relax
pub mod Loop
pub mod Start
pub mod Acyclic
use mathlib.Core.List.{Perm}
use z8run.Base.{
  ℕ, zero, suc, ◌+◌, ◌≡◌, Bool, true, false, Option, none, some, List, [], ◌∷◌, ◌++◌, map, filter,
  dedup, length, if◌then◌else◌, ◌==◌,
}
use z8run.Error.{Uuid, cycle_detected, Z8Result, ok, err}
use z8run.Node.{Node}
use z8run.Flow.{Edge, Flow, outgoing}

-- `HashMap<Uuid, usize>`: its entries, one for each key.
abbrev pub InDegree : Type 0
InDegree = List (Uuid × ℕ)

-- A `HashMap` visits each entry once, in an order that is not specified.
pub record HashOrder : Type 0 where
  pub iter : InDegree → InDegree
  pub iter_perm : (m : InDegree) → Perm (iter m) m

unfoldable pub get : Uuid → InDegree → Option ℕ
get k [] = none
get k ((j, d) ∷ m) = let rest = get k m in if j == k then some d else rest

-- The entry of a key that is present, overwritten (`*deg -= 1` through `get_mut`).
unfoldable pub put : Uuid → ℕ → InDegree → InDegree
put k v [] = []
put k v ((j, d) ∷ m) = let rest = put k v m in if j == k then (j, v) ∷ m else (j, d) ∷ rest

-- `*in_degree.entry(k).or_insert(0) += 1`
unfoldable pub bump : Uuid → InDegree → InDegree
bump k [] = (k, 1) ∷ []
bump k ((j, d) ∷ m) = let rest = bump k m in if j == k then (j, d + 1) ∷ m else (j, d) ∷ rest

-- The map that holds 0 at each of the given keys.
unfoldable pub seed : List Uuid → InDegree
seed ids = map (λ id. (id, zero)) (dedup ids)

-- `for edge in edges { *in_degree.entry(edge.to_node).or_insert(0) += 1 }`
unfoldable pub count_edges : List Edge → InDegree → InDegree
count_edges [] m = m
count_edges (e ∷ es) m = count_edges es (bump e.to_node m)

-- The keys of the entries with in-degree 0, in the order of the entries.
unfoldable pub zeros : InDegree → List Uuid
zeros [] = []
zeros ((j, d) ∷ m) = let rest = zeros m in if d == 0 then j ∷ rest else rest

-- The loop over the outgoing edges of a node that is taken off the queue.
unfoldable pub relax : List Edge → InDegree → List Uuid → Option (InDegree × List Uuid)
relax [] m queue = some (m, queue)
relax (e ∷ es) m queue = elim (get e.to_node m) [
  | none ↦ relax es m queue
  | some zero ↦ none
  | some (suc d) ↦ relax es (put e.to_node d m) (if d == 0 then queue ++ e.to_node ∷ [] else queue)
]

-- `while let Some(node_id) = queue.pop_front()` of `validate_acyclic`.
unfoldable pub count_visited : List Edge → ℕ → InDegree → List Uuid → ℕ → Option ℕ
count_visited edges zero m queue visited = none
count_visited edges (suc fuel) m [] visited = some visited
count_visited edges (suc fuel) m (x ∷ queue) visited = elim (relax (outgoing edges x) m queue) [
  | none ↦ none
  | some (m', queue') ↦ count_visited edges fuel m' queue' (visited + 1)
]

-- The same loop of `topological_order`, which collects the nodes.
unfoldable pub collect_order : List Edge → ℕ → InDegree → List Uuid → List Uuid → Option (List Uuid)
collect_order edges zero m queue order = none
collect_order edges (suc fuel) m [] order = some order
collect_order edges (suc fuel) m (x ∷ queue) order = elim (relax (outgoing edges x) m queue) [
  | none ↦ none
  | some (m', queue') ↦ collect_order edges fuel m' queue' (order ++ x ∷ [])
]

abbrev pub node_ids : Flow → List Uuid
node_ids f = dedup (map (λ n. n.id) f.nodes)

-- Both functions start from this map and queue.
unfoldable pub in_degrees : Flow → InDegree
in_degrees f = count_edges f.edges (seed (map (λ n. n.id) f.nodes))

abbrev pub verdict : Flow → ℕ → Z8Result (Unit {0})
verdict f visited = if visited == length (node_ids f) then ok tt else err (cycle_detected f.id)

unfoldable pub validate_acyclic : HashOrder → Flow → Option (Z8Result (Unit {0}))
validate_acyclic h f =
    let m = in_degrees f in
    elim (count_visited f.edges (suc (length m)) m (zeros (h.iter m)) 0) [
      | none ↦ none
      | some visited ↦ some (verdict f visited)
    ]

abbrev pub ok_order : Option (List Uuid) → Option (Z8Result (List Uuid))
ok_order none = none
ok_order (some order) = some (ok order)

unfoldable pub topological_order : HashOrder → Flow → Option (Z8Result (List Uuid))
topological_order h f =
    let m = in_degrees f in
    elim (validate_acyclic h f) [
      | none ↦ none
      | some (err e) ↦ some (err e)
      | some (ok _) ↦ ok_order (collect_order f.edges (suc (length m)) m (zeros (h.iter m)) [])
    ]
