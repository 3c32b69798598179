-- ===== src/Tests/Graph.antt =====
-- The cycle check, the topological order and the execution plan at the sample flows.
use z8run.Base.{
  ℕ, ◌≡◌, ◌<◌, refl, true, some, List, [], ◌∷◌, elem, count, dedup, filter, All, if◌then◌else◌,
  index_of, arith,
}
use z8run.Error.{Z8Result, ok, err, cycle_detected}
use z8run.Kahn.{
  get, put, bump, seed, count_edges, zeros, relax, count_visited, collect_order, in_degrees,
  validate_acyclic, topological_order,
}
use z8run.Flow.{outgoing}
use z8run.Kahn.Acyclic.{
  Follows, KnownTargets, KnownEnds, listed, validate_acyclic_sound, topological_order_sound,
  topological_order_complete,
}
use z8run.Scheduler.{
  ExecutionPlan, enabled_in_degrees, relax_batch, plan_steps, count_nodes, compile, both_enabled,
}
use z8run.Scheduler.Steps.{nodes_of, step_of}
use z8run.Scheduler.Compile.{enabled, compile_sound, compile_total}
use z8run.Tests.Samples.{chain, partly, cyclic, dangling, insertion_order, reverse_order}

runs : Unit {0}
unfolding topological_order validate_acyclic collect_order count_visited relax zeros count_edges
    seed bump put get in_degrees outgoing filter dedup elem count compile plan_steps relax_batch
    enabled_in_degrees count_nodes
runs = tt

chain_order : topological_order insertion_order chain ≡ some (ok (1 ∷ 2 ∷ 3 ∷ []))
unfolding runs
chain_order = refl

chain_passes : validate_acyclic insertion_order chain ≡ some (ok tt)
unfolding runs
chain_passes = refl

cyclic_rejected : validate_acyclic insertion_order cyclic ≡ some (err (cycle_detected 99))
unfolding runs
cyclic_rejected = refl

-- A cycle passes the check when an edge leads to a node that is not in the flow.
dangling_passes : validate_acyclic insertion_order dangling ≡ some (ok tt)
unfolding runs
dangling_passes = refl

abbrev pub partly_plan : ExecutionPlan
partly_plan = record {
  steps = record { node_ids = 1 ∷ []; step = 0 } ∷ record { node_ids = 3 ∷ []; step = 1 } ∷ [];
  total_nodes = 2;
}

pub partly_compiles : compile insertion_order partly ≡ some (ok partly_plan)
unfolding runs
partly_compiles = refl

chain_targets : KnownTargets chain
unfolding elem count
chain_targets = (refl, (refl, (refl, tt)))

chain_ends : KnownEnds chain
unfolding elem count
chain_ends = ((refl, refl), ((refl, refl), ((refl, refl), tt)))

pub partly_targets : KnownTargets partly
unfolding elem count
partly_targets = (refl, (refl, (refl, tt)))

validate_acyclic_sound_example : (rank : ℕ → ℕ) × Follows chain rank
validate_acyclic_sound_example =
    validate_acyclic_sound insertion_order chain chain_targets chain_passes

topological_order_sound_example :
    ((n : ℕ) → count n (1 ∷ 2 ∷ 3 ∷ []) ≡ (if listed chain n then 1 else 0))
    × Follows chain (λ n. index_of n (1 ∷ 2 ∷ 3 ∷ []))
topological_order_sound_example =
    topological_order_sound insertion_order chain (1 ∷ 2 ∷ 3 ∷ []) chain_targets chain_order

topological_order_complete_example :
    (order : List ℕ) × (topological_order reverse_order chain ≡ some (ok order))
topological_order_complete_example =
    topological_order_complete reverse_order chain (λ n. n) chain_ends (omega arith)

compile_sound_example :
    ((n : ℕ) → count n (nodes_of partly_plan.steps) ≡ (if enabled partly n then 1 else 0))
    × All
        (λ e.
          both_enabled partly e ≡ true
          → step_of e.from_node partly_plan.steps < step_of e.to_node partly_plan.steps)
        partly.edges
compile_sound_example =
    compile_sound insertion_order partly partly_plan partly_targets partly_compiles

compile_total_example : (r : Z8Result ExecutionPlan) × (compile insertion_order partly ≡ some r)
compile_total_example = compile_total insertion_order partly
