-- ===== src/Api/Trigger.antt =====
-- `restrict_to_trigger` of crates/z8run-api/src/routes.rs: the branch of a flow below a trigger.
pub mod Reach
use z8run.Base.{
  ℕ, zero, suc, not, ◌&&◌, Option, none, some, List, [], ◌∷◌, ◌++◌, filter, elem, length,
  if◌then◌else◌, ◌==◌,
}
use z8run.Error.{Uuid}
use z8run.Node.{Node}
use z8run.Flow.{Edge, Flow}

-- The set `keep` and the queue.
abbrev pub Search : Type 0
Search = List Uuid × List Uuid

-- `if keep.insert(edge.to_node)`, for an edge that starts at the node.
unfoldable pub visit : Uuid → Edge → Search → Search
visit node e (keep, queue) =
    if (e.from_node == node) && not (elem e.to_node keep)
    then (e.to_node ∷ keep, queue ++ e.to_node ∷ [])
    else (keep, queue)

unfoldable pub visit_all : Uuid → List Edge → Search → Search
unfolding visit
visit_all node [] s = s
visit_all node (e ∷ es) s = visit_all node es (visit node e s)

-- `while let Some(node) = queue.pop_front()`; `none` is fuel that ran out.
unfoldable pub search : List Edge → (fuel : ℕ) → Search → Option (List Uuid)
unfolding visit_all
search edges fuel (keep, []) = some keep
search edges zero (keep, node ∷ queue) = none
search edges (suc fuel) (keep, node ∷ queue) =
    search edges fuel (visit_all node edges (keep, queue))

-- `retain` on the nodes and on the edges.
abbrev pub retain : Flow → Option (List Uuid) → Option Flow
retain f none = none
retain f (some keep) = some (record f {
  nodes = filter (λ n. elem n.id keep) f.nodes;
  edges = filter (λ e. elem e.from_node keep && elem e.to_node keep) f.edges;
})

unfoldable pub restrict_to_trigger : Flow → Uuid → Option Flow
unfolding search
restrict_to_trigger f trigger =
    retain f (search f.edges (suc (length f.edges)) (trigger ∷ [], trigger ∷ []))
