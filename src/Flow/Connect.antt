-- ===== src/Flow/Connect.antt =====
-- `Flow::connect` and `Flow::add_node` of flow.rs, on every branch.
use mathlib.Core.Logic.{◌↔◌}
use z8run.Base.{
  ◌⊎◌, inl, inr, ℕ, ◌≡◌, refl, sym, ap, ◌∙◌, Bool, true, String, List, [], ◌∷◌, ◌++◌, map, find,
  elem, count, All, All-map, ◌==◌, subst, is_some, arith,
}
use z8run.Error.{Uuid, Z8Error, Z8Result, ok, err}
use z8run.Node.{Node, PortType, any, is_compatible_with}
use z8run.Flow.{Edge, Flow, add_node, find_node, validate_edge, insert_edge, connect}
use z8run.Kahn.Acyclic.{KnownEnds, listed}

-- Two port types are compatible just when they are the same or one of them is any.
pub is_compatible_with_iff :
    (a b : PortType) → (is_compatible_with a b ≡ true) ↔ ((a ≡ b) ⊎ (a ≡ any) ⊎ (b ≡ any))
unfolding is_compatible_with
is_compatible_with_iff any any = (λ h. ground arith, λ h. ground arith)
is_compatible_with_iff _ _ = (λ h. ground arith, λ h. ground arith)

-- An edge that `connect` would make now.
abbrev pub IsValid : Flow → Edge → Type 0
IsValid f e = validate_edge e.id f e.from_node e.from_port e.to_node e.to_port ≡ ok e

abbrev pub AllValid : Flow → Type 0
AllValid f = All (IsValid f) f.edges

-- The parts of a successful validation.
validate_edge_inv :
    (id : Uuid) (f : Flow) (a : Uuid) (p : String) (b : Uuid) (q : String) {e : Edge}
    → validate_edge id f a p b q ≡ ok e
    → (e ≡ record { id = id; from_node = a; from_port = p; to_node = b; to_port = q })
      × (is_some (find_node f a) ≡ true)
      × (is_some (find_node f b) ≡ true)
unfolding validate_edge
validate_edge_inv id f a p b q h = (ground arith, ground arith, ground arith)

find-listed :
    (id : Uuid) (ns : List Node)
    → is_some (find (λ n. n.id == id) ns) ≡ elem id (map (λ n. n.id) ns)
unfolding find elem count
find-listed id [] = refl
find-listed id (n ∷ ns) = ground (arith, find-listed id ns)

find_node-listed : (f : Flow) (id : Uuid) → is_some (find_node f id) ≡ listed f id
unfolding find_node
find_node-listed f id = find-listed id f.nodes

-- A valid edge joins nodes of the flow.
IsValid-listed :
    (f : Flow) (e : Edge)
    → IsValid f e
    → (listed f e.from_node ≡ true) × (listed f e.to_node ≡ true)
IsValid-listed f e h =
    let (_, source, target) =
      validate_edge_inv e.id f e.from_node e.from_port e.to_node e.to_port h in
    (sym (find_node-listed f e.from_node) ∙ source, sym (find_node-listed f e.to_node) ∙ target)

pub AllValid-KnownEnds : (f : Flow) → AllValid f → KnownEnds f
AllValid-KnownEnds f h = All-map (IsValid-listed f) f.edges h

find-append :
    (p : Node → Bool) (xs ys : List Node)
    → is_some (find p xs) ≡ true
    → find p (xs ++ ys) ≡ find p xs
unfolding find
find-append p [] ys h = cc
find-append p (x ∷ xs) ys h = ground (arith, find-append p xs ys)

-- A node that is added hides none that was there.
find_node-add_node :
    (now : ℕ) (f : Flow) (n : Node) (id : Uuid)
    → is_some (find_node f id) ≡ true
    → find_node (add_node now f n) id ≡ find_node f id
unfolding find_node add_node
find_node-add_node now f n id h = find-append (λ x. x.id == id) f.nodes (n ∷ []) h

validate_edge_cong :
    (id : Uuid) (f g : Flow) (a : Uuid) (p : String) (b : Uuid) (q : String)
    → find_node g a ≡ find_node f a
    → find_node g b ≡ find_node f b
    → validate_edge id g a p b q ≡ validate_edge id f a p b q
unfolding validate_edge
validate_edge_cong id f g a p b q h k = rw (h, k)

add_node-IsValid :
    (now : ℕ) (f : Flow) (n : Node) (e : Edge) → IsValid f e → IsValid (add_node now f n) e
add_node-IsValid now f n e h =
    let (_, source, target) =
      validate_edge_inv e.id f e.from_node e.from_port e.to_node e.to_port h in
    validate_edge_cong e.id f (add_node now f n) e.from_node e.from_port e.to_node e.to_port
      (find_node-add_node now f n e.from_node source) (find_node-add_node now f n e.to_node target)
    ∙ h

-- Adding a node keeps every edge valid.
pub add_node-AllValid : (now : ℕ) (f : Flow) (n : Node) → AllValid f → AllValid (add_node now f n)
unfolding add_node
add_node-AllValid now f n h = All-map (λ e. add_node-IsValid now f n e) f.edges h

All-snoc :
    (f : Flow) (es : List Edge) (e : Edge)
    → All (IsValid f) es
    → IsValid f e
    → All (IsValid f) (es ++ e ∷ [])
All-snoc f [] e h v = (v, tt)
All-snoc f (x ∷ es) e h v = (h.0, All-snoc f es e h.1 v)

-- The edges of a flow do not enter into the validity of an edge.
edges-IsValid : (f g : Flow) (e : Edge) → g.nodes ≡ f.nodes → IsValid f e → IsValid g e
unfolding find_node
edges-IsValid f g e same h =
    let find_same = λ (id : Uuid). ap (λ ns. find (λ n. n.id == id) ns) same in
    validate_edge_cong e.id f g e.from_node e.from_port e.to_node e.to_port (find_same e.from_node)
      (find_same e.to_node)
    ∙ h

insert_edge-AllValid :
    (now : ℕ) (f : Flow) (id : Uuid) (a : Uuid) (p : String) (b : Uuid) (q : String)
    → AllValid f
    → (r : Z8Result Edge) → validate_edge id f a p b q ≡ r
    → AllValid (insert_edge now f r).0
insert_edge-AllValid now f id a p b q h (err x) v = h
insert_edge-AllValid now f id a p b q h (ok e) v =
    let g = (insert_edge now f (ok e)).0 in
    All-map (λ x. edges-IsValid f g x refl) (f.edges ++ e ∷ [])
      (All-snoc f f.edges e h (made (validate_edge_inv id f a p b q v).0))
  where
    made :
        e ≡ record { id = id; from_node = a; from_port = p; to_node = b; to_port = q } → IsValid f e
    made e' = subst (IsValid f) (sym e') (v ∙ ap ok e')

-- `connect` keeps every edge valid: both nodes and both ports exist and the types are compatible,
-- also when it fails.
pub connect-AllValid :
    (id : Uuid) (now : ℕ) (f : Flow) (a : Uuid) (p : String) (b : Uuid) (q : String)
    → AllValid f
    → AllValid (connect id now f a p b q).0
unfolding connect
connect-AllValid id now f a p b q h =
    insert_edge-AllValid now f id a p b q h (validate_edge id f a p b q) refl

-- connect either adds at the end exactly the edge that it returns, between the nodes that it was
-- given, and changes no node, or it returns an error and leaves the flow unchanged.
pub connect_effect :
    (id : Uuid) (now : ℕ) (f : Flow) (a : Uuid) (p : String) (b : Uuid) (q : String)
    → ((e : Edge) × ((connect id now f a p b q).1 ≡ ok e)
        × ((connect id now f a p b q).0.edges ≡ f.edges ++ e ∷ [])
        × ((connect id now f a p b q).0.nodes ≡ f.nodes)
        × (e.from_node ≡ a)
        × (e.to_node ≡ b))
      ⊎ ((x : Z8Error) × (connect id now f a p b q ≡ (f, err x)))
unfolding connect
connect_effect id now f a p b q = go (validate_edge id f a p b q) refl
  where
    go :
        (r : Z8Result Edge)
        → validate_edge id f a p b q ≡ r
        → ((e : Edge) × ((insert_edge now f r).1 ≡ ok e)
            × ((insert_edge now f r).0.edges ≡ f.edges ++ e ∷ [])
            × ((insert_edge now f r).0.nodes ≡ f.nodes)
            × (e.from_node ≡ a)
            × (e.to_node ≡ b))
          ⊎ ((x : Z8Error) × (insert_edge now f r ≡ (f, err x)))
    go (ok e) v =
        let made = (validate_edge_inv id f a p b q v).0 in
        inl (e, refl, refl, refl, ap (λ x. x.from_node) made, ap (λ x. x.to_node) made)
    go (err x) v = inr (x, refl)
