-- ===== src/Kahn/Acyclic.antt =====
-- The results of `Flow::validate_acyclic` and `Flow::topological_order` of flow.rs, and rankings of
-- the nodes that the edges follow.
use z8run.Base.{
  ◌⊎◌, inl, inr, ℕ, suc, ◌≤◌, ◌<◌, ◌≡◌, refl, sym, ap, ◌∙◌, Bool, true, some, List, [], ◌∷◌, map,
  count, elem, count-dedup, All, All_at, All-tabulate, All-map, length, length_mono, length-lt,
  index_of, if◌then◌else◌, ◌==◌, arith, subst, Memᴰ, Bool-cases, ==→≡,
}
use z8run.Error.{Uuid, Z8Result, ok}
use z8run.Flow.{Edge, Flow}
use z8run.Kahn.{
  InDegree, HashOrder, zeros, in_degrees, collect_order, count_visited, node_ids, verdict,
  validate_acyclic, topological_order,
}
use z8run.Kahn.Counts.{Counted, into}
use z8run.Kahn.Degrees.{keys}
use z8run.Kahn.Loop.{IsClosed}
use z8run.Kahn.Loop.Order.{
  Collected, collect_lem, count_visited_lem, rank_seen, Ordered-index_of, final_mono,
}
use z8run.Kahn.Start.{get-in_degrees, in_degrees-Once, into_pos, has, count-keys, start_lem}

abbrev every : Counted
every _ = true

abbrev pub listed : Flow → Uuid → Bool
listed f n = elem n (map (λ x. x.id) f.nodes)

-- Every edge leads to a node of the flow.
abbrev pub KnownTargets : Flow → Type 0
KnownTargets f = All (λ e. listed f e.to_node ≡ true) f.edges

-- Both ends of every edge are nodes of the flow.
abbrev pub KnownEnds : Flow → Type 0
KnownEnds f = All (λ e. (listed f e.from_node ≡ true) × (listed f e.to_node ≡ true)) f.edges

-- A ranking of the nodes that every edge follows: the flow has no cycle.
abbrev pub Follows : Flow → (Uuid → ℕ) → Type 0
Follows f rank = All (λ e. rank e.from_node < rank e.to_node) f.edges

pub length-keys : (m : InDegree) → length (keys m) ≡ length m
length-keys [] = refl
length-keys ((j, d) ∷ m) = ap suc (length-keys m)

-- The run of either loop, from the map and the queue in which both start.
abbrev start_queue : HashOrder → Flow → List Uuid
start_queue h f = zeros (h.iter (in_degrees f))

ids_known :
    (f : Flow) (n : ℕ) → count n (keys (in_degrees f)) ≡ (if has (in_degrees f) n then 1 else 0)
ids_known f n = count-keys (in_degrees f) n (in_degrees-Once f)

into-listed :
    (f : Flow) (n : ℕ) (es : List Edge)
    → All (λ e. listed f e.to_node ≡ true) es
    → (listed f n ≡ true) ⊎ (into every n es ≡ 0)
unfolding into
into-listed f n [] k = inr refl
into-listed f n (e ∷ es) k = elim (Bool-cases (e.to_node == n)) [
  | inl here ↦ inl (sym (ap (listed f) (==→≡ e.to_node n here)) ∙ k.0)
  | inr other ↦ elim (into-listed f n es k.1) [ inl l ↦ inl l | inr z ↦ inr (ground arith) ]
]

-- Only nodes of the flow have an entry.
has-listed : (f : Flow) → KnownTargets f → (n : ℕ) → has (in_degrees f) n ≡ listed f n
has-listed f known n = ground (arith, get-in_degrees f n, into-listed f n f.edges known)

count-node_ids : (f : Flow) (n : ℕ) → count n (node_ids f) ≡ (if listed f n then 1 else 0)
count-node_ids f n = count-dedup n (map (λ x. x.id) f.nodes)

module _ (h : HashOrder) (f : Flow) where
  has_target : (e : Edge) → Memᴰ e f.edges → has (in_degrees f) e.to_node ≡ true
  has_target e m =
      ground (arith, get-in_degrees f e.to_node, into_pos every e e.to_node f.edges m refl refl)

  closed_lem : IsClosed every f.edges (has (in_degrees f))
  closed_lem = All-tabulate f.edges (λ e m _. has_target e m)

  run_lem :
      Collected every f.edges
        (has (in_degrees f))
        (keys (in_degrees f))
        (ids_known f)
        (suc (length (in_degrees f)))
        (in_degrees f)
        (start_queue h f)
        []
  run_lem =
      collect_lem every f.edges (has (in_degrees f)) (keys (in_degrees f)) (ids_known f)
        (suc (length (in_degrees f))) (in_degrees f) (start_queue h f) [] closed_lem
        (start_lem h every (map (λ x. x.id) f.nodes) f.edges (in_degrees f) (in_degrees-Once f)
          (get-in_degrees f))
        tt (omega (arith, length-keys (in_degrees f)))

  abbrev final_order : List Uuid
  final_order = run_lem.0

  visited_lem :
      count_visited f.edges (suc (length (in_degrees f))) (in_degrees f) (start_queue h f) 0
      ≡ some (length final_order)
  visited_lem =
      count_visited_lem every f.edges (suc (length (in_degrees f))) (in_degrees f) (start_queue h f)
        [] final_order run_lem.2

  validate_acyclic_lem : validate_acyclic h f ≡ some (verdict f (length final_order))
  unfolding validate_acyclic
  validate_acyclic_lem = ground (arith, visited_lem)

  -- The cycle check returns a verdict on every flow: no run of it is out of fuel or decrements a
  -- zero.
  pub validate_acyclic_total : (r : Z8Result (Unit {0})) × (validate_acyclic h f ≡ some r)
  validate_acyclic_total = (verdict f (length final_order), validate_acyclic_lem)

  count-final : (n : ℕ) → count n final_order ≤ (if has (in_degrees f) n then 1 else 0)
  unfolding count
  count-final n = ground (arith, run_lem.3.exact n, run_lem.3.known n)

  -- Every known node has been seen, if the flow has a ranking and its edges start at nodes.
  final_complete :
      (rank : Uuid → ℕ)
      → KnownEnds f
      → Follows f rank
      → (n : ℕ) → has (in_degrees f) n ≡ true
      → count n final_order ≡ 1
  final_complete rank ends follows n =
      rank_seen every f.edges (has (in_degrees f)) run_lem.1 final_order rank run_lem.3
        (All-tabulate f.edges (λ e m _. (
          ground (
            arith,
            get-in_degrees f e.from_node,
            All_at (λ e. (listed f e.from_node ≡ true) × (listed f e.to_node ≡ true)) f.edges ends
                m,
          ),
          All_at (λ e. rank e.from_node < rank e.to_node) f.edges follows m,
        )))
        (suc (rank n)) n (omega arith)

  count-final_le : KnownTargets f → (n : ℕ) → count n final_order ≤ count n (node_ids f)
  count-final_le known n = ground (arith, count-final n, has-listed f known n, count-node_ids f n)

  count-final_ge :
      (rank : Uuid → ℕ)
      → KnownEnds f
      → Follows f rank
      → KnownTargets f
      → (n : ℕ) → count n (node_ids f) ≤ count n final_order
  count-final_ge rank ends follows known n =
      ground (arith, final_complete rank ends follows n, has-listed f known n, count-node_ids f n)

  verdict_ok : (v : ℕ) → v ≡ length (node_ids f) → verdict f v ≡ ok tt
  verdict_ok v e = ground arith

  verdict_ok_inv : (v : ℕ) → verdict f v ≡ ok tt → v ≡ length (node_ids f)
  verdict_ok_inv v e = ground arith

  -- A flow whose edges join its nodes and follow a ranking passes the cycle check.
  pub validate_acyclic_complete :
      (rank : Uuid → ℕ) → KnownEnds f → Follows f rank → validate_acyclic h f ≡ some (ok tt)
  validate_acyclic_complete rank ends follows =
      let targets : KnownTargets f = All-map (λ e p. p.1) f.edges ends in
      let same : length final_order ≡ length (node_ids f) = omega (
        arith,
        length_mono final_order (node_ids f) (count-final_le targets),
        length_mono (node_ids f) final_order (count-final_ge rank ends follows targets),
      ) in
      validate_acyclic_lem ∙ ap some (verdict_ok (length final_order) same)

  -- A final order of the length of the node list holds every node.
  final_all :
      KnownTargets f
      → length final_order ≡ length (node_ids f)
      → (n : ℕ) → count n final_order ≡ (if listed f n then 1 else 0)
  final_all known same n = elim (Bool-cases (count n final_order == count n (node_ids f))) [
    | inl e ↦ ==→≡ _ _ e ∙ count-node_ids f n
    | inr ne ↦ absurd (
        omega (
          arith,
          same,
          length-lt n final_order (node_ids f) (count-final_le known)
              (ground (arith, count-final_le known n)),
        ))
  ]

  final_before :
      KnownTargets f
      → length final_order ≡ length (node_ids f)
      → Follows f (λ n. index_of n final_order)
  final_before known same = All-tabulate f.edges λ e m.
      Ordered-index_of every f.edges final_order e run_lem.4 m refl (
        omega (
          arith,
          final_all known same e.to_node,
          listed_one e.to_node (All_at (λ e. listed f e.to_node ≡ true) f.edges known m),
        ))
    where
      listed_one : (n : ℕ) → listed f n ≡ true → ◌≡◌ {A = ℕ} (if listed f n then 1 else 0) 1
      listed_one n l = ground arith

  passed_length : validate_acyclic h f ≡ some (ok tt) → length final_order ≡ length (node_ids f)
  passed_length passed = verdict_ok_inv (length final_order) (ground (arith, validate_acyclic_lem))

  -- A flow that passes the cycle check, and whose edges lead to its nodes, has a ranking that every
  -- edge follows, so no cycle.
  pub validate_acyclic_sound :
      KnownTargets f → validate_acyclic h f ≡ some (ok tt) → (rank : Uuid → ℕ) × Follows f rank
  validate_acyclic_sound known passed =
      ((λ n. index_of n final_order), final_before known (passed_length passed))

  collected_lem :
      collect_order f.edges (suc (length (in_degrees f))) (in_degrees f) (start_queue h f) []
      ≡ some final_order
  collected_lem = run_lem.2

  topological_order_inv :
      (order : List Uuid)
      → topological_order h f ≡ some (ok order)
      → (order ≡ final_order) × (validate_acyclic h f ≡ some (ok tt))
  unfolding topological_order
  topological_order_inv order run = (ground (arith, collected_lem), ground (arith, collected_lem))

  -- If every edge leads to a node of the flow, an order that topological_order returns holds each
  -- node once and nothing else, and the source of every edge stands before its target.
  pub topological_order_sound :
      (order : List Uuid)
      → KnownTargets f
      → topological_order h f ≡ some (ok order)
      → ((n : ℕ) → count n order ≡ (if listed f n then 1 else 0))
        × Follows f (λ n. index_of n order)
  topological_order_sound order known run =
      let (same, passed) = topological_order_inv order run in
      (
        λ n. ap (count n) same ∙ final_all known (passed_length passed) n,
        subst (λ o. Follows f (λ n. index_of n o)) (sym same)
            (final_before known (passed_length passed)),
      )

  topological_order_ok :
      validate_acyclic h f ≡ some (ok tt) → topological_order h f ≡ some (ok final_order)
  unfolding topological_order
  topological_order_ok e = ground (arith, collected_lem)

  -- A flow whose edges join its nodes and follow a ranking has a topological order, which is
  -- returned.
  pub topological_order_complete :
      (rank : Uuid → ℕ)
      → KnownEnds f
      → Follows f rank
      → (order : List Uuid) × (topological_order h f ≡ some (ok order))
  topological_order_complete rank ends follows =
      (final_order, topological_order_ok (validate_acyclic_complete rank ends follows))

-- The verdict of the cycle check does not depend on the order in which the hash map is read.
pub validate_acyclic_stable :
    (h h' : HashOrder) (f : Flow) → validate_acyclic h f ≡ validate_acyclic h' f
validate_acyclic_stable h h' f =
    let le = λ (a b : HashOrder). length_mono (final_order a f) (final_order b f) (
      final_mono every f.edges (has (in_degrees f)) (run_lem a f).1 (final_order a f)
        (run_lem b f).1 (final_order b f) (run_lem a f).3 (run_lem a f).4 (run_lem b f).3) in
    validate_acyclic_lem h f
    ∙ ap (λ v. some (verdict f v)) (omega (arith, le h h', le h' h))
    ∙ sym (validate_acyclic_lem h' f)
