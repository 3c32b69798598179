-- ===== src/Scheduler/Compile.antt =====
-- `ExecutionPlan::compile` of scheduler.rs: the plan as a whole, and its measures.
use z8run.Base.{
  inl, inr, ℕ, suc, ◌*◌, ◌≤◌, ◌<◌, ◌≡◌, refl, sym, ap, ◌∙◌, Bool, true, false, ◌&&◌, some, List, [],
  ◌∷◌, count, elem, All, All_at, All-tabulate, length, if◌then◌else◌, ◌==◌, ==→≡, Bool-cases, arith,
  filter, subst,
}
use z8run.Error.{Uuid, Z8Error, Z8Result, ok, err}
use z8run.Flow.{Edge, Flow}
use z8run.Kahn.{HashOrder, get, zeros, validate_acyclic}
use z8run.Kahn.Counts.{into}
use z8run.Kahn.Degrees.{Once, keys, seed-Once, count_edges-Once}
use z8run.Kahn.Loop.{IsClosed}
use z8run.Kahn.Loop.Order.{rank_seen}
use z8run.Kahn.Start.{start_entry, get-count_filtered, has, count-keys, start_lem}
use z8run.Kahn.Acyclic.{
  KnownTargets, KnownEnds, Follows, length-keys, validate_acyclic_total, validate_acyclic_sound,
  validate_acyclic_complete,
}
use z8run.Scheduler.{
  ExecutionStep, ExecutionPlan, enabled_ids, both_enabled, enabled_in_degrees, plan_steps,
  finish_plan, compile, max_len, max_parallelism, depth,
}
use z8run.Scheduler.Steps.{
  nodes_of, length-nodes_of, step_of, Numbered, length-le-count_nodes, count_nodes-le,
  Layered-step_of, Planned, plan_steps_lem,
}

abbrev pub enabled : Flow → Uuid → Bool
enabled f n = elem n (enabled_ids f)

get-enabled :
    (f : Flow) (n : ℕ)
    → get n (enabled_in_degrees f) ≡ start_entry (enabled f n) (into (both_enabled f) n f.edges)
unfolding enabled_in_degrees
get-enabled f n = get-count_filtered (both_enabled f) (enabled_ids f) f.edges n

enabled-Once : (f : Flow) → Once (enabled_in_degrees f)
unfolding enabled_in_degrees
enabled-Once f = count_edges-Once (filter (both_enabled f) f.edges) _ (seed-Once (enabled_ids f))

enabled_keys :
    (f : Flow) (n : ℕ)
    → count n (keys (enabled_in_degrees f)) ≡ (if has (enabled_in_degrees f) n then 1 else 0)
enabled_keys f n = count-keys (enabled_in_degrees f) n (enabled-Once f)

into_enabled :
    (f : Flow) (n : ℕ) (es : List Edge) → enabled f n ≡ false → into (both_enabled f) n es ≡ 0
unfolding into
into_enabled f n [] off = refl
into_enabled f n (e ∷ es) off = elim (Bool-cases (e.to_node == n)) [
  | inl here ↦
      let target_off = ap (enabled f) (==→≡ e.to_node n here) ∙ off in
      ground (arith, into_enabled f n es off)
  | inr other ↦ ground (arith, into_enabled f n es off)
]

-- The map has an entry for the enabled nodes, and for no other.
has-enabled : (f : Flow) (n : ℕ) → has (enabled_in_degrees f) n ≡ enabled f n
has-enabled f n = elim (Bool-cases (enabled f n)) [
  | inl on ↦ ground (arith, get-enabled f n)
  | inr off ↦ ground (arith, get-enabled f n, into_enabled f n f.edges off)
]

module _ (h : HashOrder) (f : Flow) where
  closed_lem : IsClosed (both_enabled f) f.edges (has (enabled_in_degrees f))
  closed_lem = All-tabulate f.edges λ e m k.
      has-enabled f e.to_node
      ∙ ap (λ b. b && enabled f e.to_node) (sym (sym (has-enabled f e.from_node) ∙ k))

  run_lem :
      Planned
        (both_enabled f)
        f.edges
        (has (enabled_in_degrees f))
        (keys (enabled_in_degrees f))
        (enabled_keys f)
        (suc (length (enabled_in_degrees f)))
        (enabled_in_degrees f)
        (zeros (h.iter (enabled_in_degrees f)))
        0
        []
  unfolding nodes_of
  run_lem =
      plan_steps_lem (both_enabled f) f.edges (has (enabled_in_degrees f))
        (keys (enabled_in_degrees f)) (enabled_keys f) (suc (length (enabled_in_degrees f)))
        (enabled_in_degrees f) (zeros (h.iter (enabled_in_degrees f))) 0 [] closed_lem
        (start_lem h (both_enabled f) (enabled_ids f) f.edges (enabled_in_degrees f)
          (enabled-Once f) (get-enabled f))
        tt tt refl (omega (arith, length-keys (enabled_in_degrees f)))

  abbrev final_steps : List ExecutionStep
  final_steps = run_lem.0

  steps_lem :
      plan_steps f.edges
        (suc (length (enabled_in_degrees f)))
        (enabled_in_degrees f)
        (zeros (h.iter (enabled_in_degrees f)))
        0
        []
      ≡ some final_steps
  steps_lem = run_lem.2

  compile_err : (e : Z8Error) → validate_acyclic h f ≡ some (err e) → compile h f ≡ some (err e)
  unfolding compile
  compile_err e v = ground arith

  compile_ok :
      validate_acyclic h f ≡ some (ok tt) → compile h f ≡ some (ok (finish_plan final_steps))
  unfolding compile
  compile_ok v = ground (arith, steps_lem)

  compile_inv :
      (plan : ExecutionPlan)
      → compile h f ≡ some (ok plan)
      → (validate_acyclic h f ≡ some (ok tt)) × (plan ≡ finish_plan final_steps)
  unfolding compile
  compile_inv plan c = (ground (arith, steps_lem), ground (arith, steps_lem))

  -- Compilation returns a plan or an error on every flow: no run of it is out of fuel or decrements
  -- a zero.
  pub compile_total : (r : Z8Result ExecutionPlan) × (compile h f ≡ some r)
  compile_total = go (validate_acyclic_total h f).0 (validate_acyclic_total h f).1
    where
      go :
          (v : Z8Result (Unit {0}))
          → validate_acyclic h f ≡ some v
          → (r : Z8Result ExecutionPlan) × (compile h f ≡ some r)
      go (ok tt) e = (ok (finish_plan final_steps), compile_ok e)
      go (err x) e = (err x, compile_err x e)

  final_enabled :
      (rank : Uuid → ℕ)
      → Follows f rank
      → (n : ℕ) → count n (nodes_of final_steps) ≡ (if enabled f n then 1 else 0)
  unfolding count
  final_enabled rank follows n = elim (Bool-cases (enabled f n)) [
    | inl on ↦ rw on (
        rank_seen (both_enabled f) f.edges (has (enabled_in_degrees f)) run_lem.1
          (nodes_of final_steps) rank run_lem.3
          (All-tabulate f.edges λ e m c. (
            has-enabled f e.from_node ∙ ground arith,
            All_at (λ e. rank e.from_node < rank e.to_node) f.edges follows m,
          ))
          (suc (rank n)) n (omega arith) (has-enabled f n ∙ on))
    | inr off ↦ rw off (ground (arith, run_lem.3.exact n, run_lem.3.known n, has-enabled f n))
  ]

  final_before :
      (rank : Uuid → ℕ)
      → Follows f rank
      → All
          (λ e.
            both_enabled f e ≡ true
            → step_of e.from_node final_steps < step_of e.to_node final_steps)
          f.edges
  final_before rank follows = All-tabulate f.edges λ e m on.
      Layered-step_of (both_enabled f) f.edges final_steps e run_lem.4 m on
        (one_pos (final_enabled rank follows e.to_node) (target_on e on))
    where
      target_on : (e : Edge) → both_enabled f e ≡ true → enabled f e.to_node ≡ true
      target_on e on = ground arith

      one_pos : {c : ℕ} {b : Bool} → c ≡ (if b then 1 else 0) → b ≡ true → 0 < c
      one_pos e on = ground arith

  -- If every edge leads to a node of the flow, a plan that compile returns holds each enabled node
  -- once and no other node, and an edge between enabled nodes leads from an earlier step to a later
  -- one.
  pub compile_sound :
      (plan : ExecutionPlan)
      → KnownTargets f
      → compile h f ≡ some (ok plan)
      → ((n : ℕ) → count n (nodes_of plan.steps) ≡ (if enabled f n then 1 else 0))
        × All
            (λ e.
              both_enabled f e ≡ true
              → step_of e.from_node plan.steps < step_of e.to_node plan.steps)
            f.edges
  compile_sound plan known c =
      let (passed, same) = compile_inv plan c in
      let (rank, follows) = validate_acyclic_sound h f known passed in
      subst
        (λ (p : ExecutionPlan).
          ((n : ℕ) → count n (nodes_of p.steps) ≡ (if enabled f n then 1 else 0))
          × All
              (λ e.
                both_enabled f e ≡ true → step_of e.from_node p.steps < step_of e.to_node p.steps)
              f.edges)
        (sym same) (final_enabled rank follows, final_before rank follows)

  -- The steps of a plan are numbered from 0 and have a node each, total_nodes is the number of
  -- their nodes, depth is at most total_nodes, and total_nodes is at most depth times
  -- max_parallelism.
  pub compile_bounds :
      (plan : ExecutionPlan)
      → compile h f ≡ some (ok plan)
      → Numbered 0 plan.steps
        × (plan.total_nodes ≡ length (nodes_of plan.steps))
        × (depth plan ≤ plan.total_nodes)
        × (plan.total_nodes ≤ depth plan * max_parallelism plan)
  unfolding depth max_parallelism
  compile_bounds plan c =
      subst
        (λ (p : ExecutionPlan).
          Numbered 0 p.steps
          × (p.total_nodes ≡ length (nodes_of p.steps))
          × (depth p ≤ p.total_nodes)
          × (p.total_nodes ≤ depth p * max_parallelism p))
        (sym (compile_inv plan c).1)
        (
          run_lem.5,
          sym (length-nodes_of final_steps),
          length-le-count_nodes 0 final_steps run_lem.5,
          count_nodes-le (max_len final_steps) final_steps (omega arith),
        )

  -- A flow whose edges join its nodes and follow a ranking is compiled to a plan.
  pub compile_complete :
      (rank : Uuid → ℕ)
      → KnownEnds f
      → Follows f rank
      → (plan : ExecutionPlan) × (compile h f ≡ some (ok plan))
  compile_complete rank ends follows =
      (finish_plan final_steps, compile_ok (validate_acyclic_complete h f rank ends follows))
