-- ===== src/Scheduler.antt =====
-- crates/z8run-core/src/scheduler.rs: a flow compiled into steps of nodes that run in parallel.
pub mod Steps
pub mod Compile
use z8run.Base.{
  ℕ, zero, suc, ◌+◌, Bool, ◌&&◌, Option, none, some, List, [], ◌∷◌, ◌++◌, map, filter, elem, dedup,
  length, leb, if◌then◌else◌,
}
use z8run.Error.{Uuid, Z8Result, ok, err}
use z8run.Flow.{Edge, Flow, outgoing}
use z8run.Kahn.{InDegree, HashOrder, seed, count_edges, zeros, relax, validate_acyclic}

pub record ExecutionStep : Type 0 where
  pub node_ids : List Uuid
  pub step : ℕ

pub record ExecutionPlan : Type 0 where
  pub steps : List ExecutionStep
  pub total_nodes : ℕ

abbrev pub enabled_ids : Flow → List Uuid
enabled_ids f = map (λ n. n.id) (filter (λ n. n.enabled) f.nodes)

-- `enabled_nodes.contains(from) && enabled_nodes.contains(to)`
abbrev pub both_enabled : Flow → Edge → Bool
both_enabled f e = elem e.from_node (enabled_ids f) && elem e.to_node (enabled_ids f)

unfoldable pub enabled_in_degrees : Flow → InDegree
enabled_in_degrees f = count_edges (filter (both_enabled f) f.edges) (seed (enabled_ids f))

-- `for node_id in &current_batch`: the successors that become ready go to the next queue.
unfoldable pub relax_batch :
    List Edge → (batch : List Uuid) → InDegree → (queue : List Uuid) → Option (InDegree × List Uuid)
relax_batch edges [] m queue = some (m, queue)
relax_batch edges (x ∷ batch) m queue = elim (relax (outgoing edges x) m queue) [
  | none ↦ none
  | some (m', queue') ↦ relax_batch edges batch m' queue'
]

-- `while !queue.is_empty()`; `none` as in `Kahn`.
unfoldable pub plan_steps :
    List Edge
    → (fuel : ℕ) → InDegree
    → (queue : List Uuid) → (step_num : ℕ) → (steps : List ExecutionStep)
    → Option (List ExecutionStep)
plan_steps edges zero m queue step_num steps = none
plan_steps edges (suc fuel) m [] step_num steps = some steps
plan_steps edges (suc fuel) m (x ∷ queue) step_num steps =
    elim (relax_batch edges (x ∷ queue) m []) [
      | none ↦ none
      | some (m', queue') ↦
          plan_steps edges fuel m' queue' (step_num + 1)
            (steps ++ record { node_ids = x ∷ queue; step = step_num } ∷ [])
    ]

-- `steps.iter().map(|s| s.node_ids.len()).sum()`
unfoldable pub count_nodes : List ExecutionStep → ℕ
count_nodes [] = 0
count_nodes (s ∷ steps) = length s.node_ids + count_nodes steps

abbrev pub finish_plan : List ExecutionStep → ExecutionPlan
finish_plan steps = record { steps = steps; total_nodes = count_nodes steps }

unfoldable pub compile : HashOrder → Flow → Option (Z8Result ExecutionPlan)
compile h f =
    let m = enabled_in_degrees f in
    elim (validate_acyclic h f) [
      | none ↦ none
      | some (err e) ↦ some (err e)
      | some (ok _) ↦ elim (plan_steps f.edges (suc (length m)) m (zeros (h.iter m)) 0 []) [
        | none ↦ none
        | some steps ↦ some (ok (finish_plan steps))
      ]
    ]

-- `.map(|s| s.node_ids.len()).max().unwrap_or(0)`
unfoldable pub max_len : List ExecutionStep → ℕ
max_len [] = 0
max_len (s ∷ steps) =
    let rest = max_len steps in if leb rest (length s.node_ids) then length s.node_ids else rest

unfoldable pub max_parallelism : ExecutionPlan → ℕ
max_parallelism plan = max_len plan.steps

unfoldable pub depth : ExecutionPlan → ℕ
depth plan = length plan.steps
