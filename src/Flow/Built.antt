-- ===== src/Flow/Built.antt =====
-- The flows that the operations of flow.rs build.
use z8run.Base.{
  ℕ, ◌≡◌, refl, sym, ap, ◌∙◌, Bool, true, false, not, ◌&&◌, String, List, [], ◌∷◌, map, filter,
  elem, count, All, All-tabulate, All-filter, Memᴰ, ◌==◌, Bool-cases, inl, inr, arith,
}
use z8run.Error.{Uuid}
use z8run.Node.{Node}
use z8run.Flow.{Edge, Flow, new_flow, add_node, connect, root_nodes, incoming_edges}
use z8run.Flow.Connect.{AllValid, AllValid-KnownEnds, add_node-AllValid, connect-AllValid}
use z8run.Kahn.Acyclic.{KnownEnds}

pub data Built : Flow → Type 0 where
  new_built : (id : Uuid) (now : ℕ) (name : String) → Built (new_flow id now name)
  add_built : {f : Flow} (now : ℕ) (n : Node) → Built f → Built (add_node now f n)
  connect_built :
      {f : Flow} (id : Uuid) (now : ℕ) (a : Uuid) (p : String) (b : Uuid) (q : String)
      → Built f
      → Built (connect id now f a p b q).0

Built-AllValid : {f : Flow} → Built f → AllValid f
unfolding new_flow
Built-AllValid (new_built id now name) = tt
Built-AllValid (add_built {f = f} now n h) = add_node-AllValid now f n (Built-AllValid h)
Built-AllValid (connect_built {f = f} id now a p b q h) =
    connect-AllValid id now f a p b q (Built-AllValid h)

-- A flow built by new, add_node and connect, failed calls included, has only edges that connect
-- would accept again, and both ends of each are nodes of the flow.
pub Built-well_formed : {f : Flow} → Built f → AllValid f × KnownEnds f
Built-well_formed {f} h = (Built-AllValid h, AllValid-KnownEnds f (Built-AllValid h))

no_target :
    (n : Uuid) (es : List Edge)
    → elem n (map (λ e. e.to_node) es) ≡ false
    → filter (λ e. e.to_node == n) es ≡ []
unfolding elem count filter
no_target n [] h = refl
no_target n (e ∷ es) h = ground (arith, no_target n es)

some_target :
    (n : Uuid) (es : List Edge)
    → filter (λ e. e.to_node == n) es ≡ []
    → elem n (map (λ e. e.to_node) es) ≡ false
unfolding elem count filter
some_target n [] h = refl
some_target n (e ∷ es) h = ground (arith, some_target n es)

filter-mem :
    (p : Node → Bool) (xs : List Node) (x : Node) → Memᴰ x xs → p x ≡ true → Memᴰ x (filter p xs)
unfolding filter
filter-mem p [] x m h = elim m [ ]
filter-mem p (y ∷ ys) x (Memᴰ.head e) h = rw (sym (ap p e) ∙ h) (Memᴰ.head e)
filter-mem p (y ∷ ys) x (Memᴰ.tail m) h =
    let rest = filter-mem p ys x m h in
    elim (Bool-cases (p y)) [ inl e ↦ rw e (Memᴰ.tail rest) | inr e ↦ rw e rest ]

-- The root nodes are enabled and have no incoming edge, and every enabled node of the flow without
-- an incoming edge is among them.
pub root_nodes_lem :
    (f : Flow)
    → All (λ n. (n.enabled ≡ true) × (incoming_edges f n.id ≡ [])) (root_nodes f)
      × ((n : Node)
          → Memᴰ n f.nodes
          → n.enabled ≡ true
          → incoming_edges f n.id ≡ []
          → Memᴰ n (root_nodes f))
unfolding root_nodes incoming_edges
root_nodes_lem f = (
  All-filter (λ n. Memᴰ n f.nodes) (λ n. (n.enabled ≡ true) × (incoming_edges f n.id ≡ []))
      (λ n. n.enabled && not (elem n.id (map (λ e. e.to_node) f.edges))) f.nodes
      (λ n p m. (ground arith, no_target n.id f.edges (ground arith)))
      (All-tabulate f.nodes (λ n m. m)),
  λ n m on none_in.
      filter-mem (λ n. n.enabled && not (elem n.id (map (λ e. e.to_node) f.edges))) f.nodes n m
        (ground (arith, some_target n.id f.edges none_in)),
)
