-- ===== src/Api/Canvas/Compiled.antt =====
-- The flow that a canvas is compiled to.
use z8run.Base.{
  ℕ, suc, String, true, Option, none, some, List, [], ◌∷◌, ◌++◌, map, elem, count, All,
  if◌then◌else◌, ◌==◌, str_eq, eq_iff, some_inv, ◌≡◌, refl, sym, ap, subst, ◌∙◌, arith, Bool-cases,
  inl, inr,
}
use z8run.Json.{Value, Items, no_items, item}
use z8run.StringMap.{StringMap, get, put}
use z8run.StringMap.Laws.{get-put}
use z8run.Error.{Uuid}
use z8run.Node.{Node, with_input, with_output, with_config, new_node}
use z8run.Flow.{Edge, Flow, new_flow}
use z8run.Kahn.Acyclic.{KnownEnds, listed}
use z8run.Api.{ok, ok_inv, unwrap_or, str_of, index}
use z8run.Api.Hooks.{canvas_nodes}
use z8run.Api.Canvas.{
  Vault, Compiled, add_inputs, add_outputs, input_ports, output_ports, set_config, canvas_id,
  compile_node, compile_nodes, compile_edges, edge_between, canvas_edges, started, with_edges,
  canvas_to_flow, end_of,
}

inputs-id : (ports : Items) (n : Node) → (add_inputs ports n).id ≡ n.id
unfolding add_inputs with_input
inputs-id no_items n = refl
inputs-id (item p ps) n = inputs-id ps _

outputs-id : (ports : Items) (n : Node) → (add_outputs ports n).id ≡ n.id
unfolding add_outputs with_output
outputs-id no_items n = refl
outputs-id (item p ps) n = outputs-id ps _

input_ports-id : (ports : Option Items) (n : Node) → (input_ports ports n).id ≡ n.id
unfolding with_input
input_ports-id none n = refl
input_ports-id (some ps) n = inputs-id ps n

output_ports-id : (ports : Option Items) (n : Node) → (output_ports ports n).id ≡ n.id
unfolding with_output
output_ports-id none n = refl
output_ports-id (some ps) n = outputs-id ps n

set_config-id : (config : Option Value) (n : Node) → (set_config config n).id ≡ n.id
unfolding with_config
set_config-id none n = refl
set_config-id (some c) n = refl

module _ (new_v5 : Uuid → String → Uuid) (vault : Vault) (user_id : Uuid) where
  compile_node-id :
      (namespace : Uuid) (node : Value)
      → (compile_node new_v5 vault user_id namespace node).id ≡ new_v5 namespace (canvas_id node)
  unfolding compile_node new_node
  compile_node-id namespace node = simp (set_config-id, output_ports-id, input_ports-id)

  -- A canvas identifier leads to the node that is made of it, which is in the flow.
  Mapped : Compiled → Type 0
  Mapped (f, id_map) =
      (k : String) (u : Uuid) → get k id_map ≡ some u → (u ≡ new_v5 f.id k) × (listed f u ≡ true)

  listed-snoc :
      (u : Uuid) (ns : List Node) (n : Node)
      → elem u (map (λ x. x.id) (ns ++ n ∷ []))
        ≡ (if n.id == u then true else elem u (map (λ x. x.id) ns))
  unfolding elem count
  listed-snoc u [] n = ground arith
  listed-snoc u (x ∷ ns) n = ground (arith, listed-snoc u ns n)

  add-Mapped :
      (f : Flow) (id_map : StringMap Uuid) (k : String) (n : Node)
      → n.id ≡ new_v5 f.id k
      → Mapped (f, id_map)
      → Mapped (record f { nodes = f.nodes ++ n ∷ [] }, put k n.id id_map)
  unfolding Mapped
  add-Mapped f id_map k n e h j u g = elim (Bool-cases (str_eq k j)) [
    | inl same ↦
        let new : n.id ≡ u = some_inv (rw (get-put k j n.id id_map, same) at g) in
        (
          sym new ∙ e ∙ ap (new_v5 f.id) ((eq_iff k j).0 same),
          rw (listed-snoc u f.nodes n) (ground (arith, new)),
        )
    | inr other ↦
        let (id, known) = h j u (rw (get-put k j n.id id_map, other) at g) in
        (id, rw (listed-snoc u f.nodes n) (ground (arith, known)))
  ]

  compile_nodes-Mapped :
      (nodes : Items) (c : Compiled)
      → Mapped c
      → Mapped (compile_nodes new_v5 vault user_id nodes c)
  unfolding compile_nodes
  compile_nodes-Mapped no_items c h = h
  compile_nodes-Mapped (item node nodes) (f, id_map) h =
      let n = compile_node new_v5 vault user_id f.id node in
      compile_nodes-Mapped nodes
        (record f { nodes = f.nodes ++ n ∷ [] }, put (canvas_id node) n.id id_map)
        (add-Mapped f id_map (canvas_id node) n (compile_node-id f.id node) h)

  compile_nodes-id :
      (nodes : Items) (c : Compiled) → (compile_nodes new_v5 vault user_id nodes c).0.id ≡ c.0.id
  unfolding compile_nodes
  compile_nodes-id no_items c = refl
  compile_nodes-id (item node nodes) (f, id_map) = compile_nodes-id nodes _

  edges-known :
      (fresh : ℕ → Uuid) (k : ℕ) (f : Flow) (id_map : StringMap Uuid) (edges : Items)
      → Mapped (f, id_map)
      → All
          (λ e. (listed f e.from_node ≡ true) × (listed f e.to_node ≡ true))
          (compile_edges fresh k id_map edges)
  unfolding compile_edges Mapped
  edges-known fresh k f id_map no_items h = tt
  edges-known fresh k f id_map (item edge edges) h =
      let rest = edges-known fresh (suc k) f id_map edges h in
      go (get (end_of "source" edge) id_map) refl (get (end_of "target" edge) id_map) refl rest
    where
      Ends : Edge → Type 0
      Ends e = (listed f e.from_node ≡ true) × (listed f e.to_node ≡ true)

      go :
          (from : Option Uuid)
          → get (end_of "source" edge) id_map ≡ from
          → (to : Option Uuid) → get (end_of "target" edge) id_map ≡ to
          → All Ends (compile_edges fresh (suc k) id_map edges)
          → All Ends (
              edge_between
                (fresh k)
                from
                (unwrap_or "output" (str_of (index edge "sourceHandle")))
                to
                (unwrap_or "input" (str_of (index edge "targetHandle")))
              ++ compile_edges fresh (suc k) id_map edges)
      go (some a) e (some b) g rest = (((h _ a e).1, (h _ b g).1), rest)
      go none e to g rest = rest
      go (some a) e none g rest = rest

abbrev IsCompiled : (new_v5 : Uuid → String → Uuid) → Flow → Compiled → Type 0
IsCompiled new_v5 stored c =
    (c.0.id ≡ stored.id)
    × KnownEnds c.0
    × ((k : String) (u : Uuid)
        → get k c.1 ≡ some u
        → (u ≡ new_v5 stored.id k) × (listed c.0 u ≡ true))

module _ (new_v5 : Uuid → String → Uuid) (vault : Vault) (user_id : Uuid) (fresh : ℕ → Uuid) where
  with_edges-IsCompiled :
      (stored : Flow) (edges : Items) (c : Compiled)
      → c.0.id ≡ stored.id
      → Mapped new_v5 vault user_id c
      → IsCompiled new_v5 stored (with_edges fresh edges c)
  unfolding Mapped
  with_edges-IsCompiled stored edges (f, id_map) e h = (
    e,
    edges-known new_v5 vault user_id fresh 0 f id_map edges h,
    λ k u g. let (a, b) = h k u g in (a ∙ ap (λ i. new_v5 i k) e, b),
  )

  nothing-Mapped : (f : Flow) → Mapped new_v5 vault user_id (f, [])
  unfolding Mapped get
  nothing-Mapped f k u e = cc

-- The flow that a canvas is compiled to keeps the identifier, and every edge of it joins two of
-- its nodes, whatever the edges of the canvas name; each canvas identifier of the map belongs to a
-- node of the flow, whose identifier is made of the flow's and of the canvas identifier.
pub canvas_to_flow-KnownEnds :
    (new_v5 : Uuid → String → Uuid) (fresh : ℕ → Uuid) (now : ℕ) (vault : Vault)
    → (stored : Flow) (user_id : Uuid) (f : Flow) (id_map : StringMap Uuid)
    → canvas_to_flow new_v5 fresh now vault stored user_id ≡ ok (f, id_map)
    → (f.id ≡ stored.id)
      × KnownEnds f
      × ((k : String) (u : Uuid)
          → get k id_map ≡ some u
          → (u ≡ new_v5 stored.id k) × (listed f u ≡ true))
unfolding canvas_to_flow new_flow
canvas_to_flow-KnownEnds new_v5 fresh now vault stored user_id f id_map e =
    go (canvas_nodes stored) refl
  where
    go : (o : Option Items) → canvas_nodes stored ≡ o → IsCompiled new_v5 stored (f, id_map)
    go none g = let no = rw (g, canvas_to_flow) at e in cc
    go (some nodes) g = subst (IsCompiled new_v5 stored) (ok_inv (rw (g, canvas_to_flow) at e)) (
        with_edges-IsCompiled new_v5 vault user_id fresh stored (canvas_edges stored)
          (compile_nodes new_v5 vault user_id nodes (started now stored, []))
          (compile_nodes-id new_v5 vault user_id nodes (started now stored, []))
          (compile_nodes-Mapped new_v5 vault user_id nodes (started now stored, [])
            (nothing-Mapped new_v5 vault user_id fresh (started now stored))))
