-- ===== src/Api/Trigger/Reach.antt =====
-- The search below a trigger: it ends, and what it keeps is what the trigger reaches.
use z8run.Base.{
  ℕ, zero, suc, ◌+◌, ◌≤◌, ltb, true, false, not, ◌&&◌, some, List, [], ◌∷◌, ◌++◌, filter, elem,
  count, count-append, length, length-append, if◌then◌else◌, ◌==◌, ◌≡◌, refl, arith, Mem-filter,
  filter-Mem, Bool-cases, inl, inr, ◌⊎◌, Memᴰ, some_inv, ◌↔◌, sym, ap, subst, ◌∙◌,
}
use z8run.Error.{Uuid}
use z8run.Node.{Node}
use z8run.Flow.{Edge, Flow}
use z8run.Api.Trigger.{Search, visit, visit_all, search, restrict_to_trigger}

-- The nodes that lie on a path of edges from a node.
pub data Reach (edges : List Edge) (start : Uuid) : Uuid → Type 0 where
  here : Reach edges start start
  along : (e : Edge) → Memᴰ e edges → Reach edges start e.from_node → Reach edges start e.to_node

-- How many edges lead out of the set.
missing : List Uuid → List Edge → ℕ
missing keep [] = 0
missing keep (e ∷ es) = (if elem e.to_node keep then 0 else 1) + missing keep es

missing_mono :
    (keep : List Uuid) (t : Uuid) (es : List Edge) → missing (t ∷ keep) es ≤ missing keep es
unfolding missing elem count
missing_mono keep t [] = omega arith
missing_mono keep t (e ∷ es) = ground (arith, missing_mono keep t es)

missing_drop :
    (keep : List Uuid) (e : Edge) (es : List Edge)
    → Memᴰ e es
    → elem e.to_node keep ≡ false
    → suc (missing (e.to_node ∷ keep) es) ≤ missing keep es
unfolding missing elem count
missing_drop keep e [] m h = elim m [ ]
missing_drop keep e (d ∷ es) (Memᴰ.head same) h =
    let to : e.to_node ≡ d.to_node = ap (λ x. x.to_node) same in
    ground (arith, missing_mono keep e.to_node es)
missing_drop keep e (d ∷ es) (Memᴰ.tail m) h = ground (arith, missing_drop keep e es m h)

missing_bound : (keep : List Uuid) (es : List Edge) → missing keep es ≤ length es
unfolding missing
missing_bound keep [] = omega arith
missing_bound keep (e ∷ es) = ground (arith, missing_bound keep es)

module _ (edges : List Edge) where
  -- The work that is left.
  work : Search → ℕ
  work s = missing s.0 edges + length s.1

  work-visit : (node : Uuid) (e : Edge) (s : Search) → Memᴰ e edges → work (visit node e s) ≤ work s
  unfolding work visit
  work-visit node e (keep, queue) m = elim (Bool-cases (elem e.to_node keep)) [
    | inl old ↦ rw old (ground arith)
    | inr new ↦
        ground (arith, new, missing_drop keep e edges m new, length-append queue (e.to_node ∷ []))
  ]

  work-visit_all :
      (node : Uuid) (es : List Edge) (s : Search)
      → ((e : Edge) → Memᴰ e es → Memᴰ e edges)
      → work (visit_all node es s) ≤ work s
  unfolding visit_all
  work-visit_all node [] s m = omega arith
  work-visit_all node (e ∷ es) s m = omega (
    arith,
    work-visit node e s (m e (Memᴰ.head refl)),
    work-visit_all node es (visit node e s) (λ d k. m d (Memᴰ.tail k)),
  )

  search_total :
      (fuel : ℕ) (s : Search)
      → work s ≤ fuel
      → (keep : List Uuid) × (search edges fuel s ≡ some keep)
  unfolding search work
  search_total zero (keep, []) h = (keep, refl)
  search_total (suc fuel) (keep, []) h = (keep, refl)
  search_total zero (keep, node ∷ queue) h = absurd (omega arith)
  search_total (suc fuel) (keep, node ∷ queue) h =
      search_total fuel (visit_all node edges (keep, queue))
        (omega (arith, work-visit_all node edges (keep, queue) (λ e m. m)))

  -- What the search keeps true, for a node whose edges `es` are still to be read.
  record Searching (start node : Uuid) (es : List Edge) (s : Search) : Type 0 where
    sound : (x : Uuid) → elem x s.0 ≡ true → Reach edges start x
    kept : (x : Uuid) → elem x s.1 ≡ true → elem x s.0 ≡ true
    closed :
        (e : Edge)
        → Memᴰ e edges
        → elem e.from_node s.0 ≡ true
        → (elem e.from_node s.1 ≡ true)
          ⊎ (elem e.to_node s.0 ≡ true)
          ⊎ ((e.from_node ≡ node) × Memᴰ e es)
    start_kept : elem start s.0 ≡ true
    node_reached : Reach edges start node

  elem-cons : (x t : Uuid) (xs : List Uuid) → elem x (t ∷ xs) ≡ true → (x ≡ t) ⊎ (elem x xs ≡ true)
  unfolding elem count
  elem-cons x t xs h = elim (Bool-cases (t == x)) [
    | inl e ↦ inl (ground arith)
    | inr e ↦ inr (ground arith)
  ]

  elem-snoc :
      (x t : Uuid) (xs : List Uuid) → elem x (xs ++ t ∷ []) ≡ true → (x ≡ t) ⊎ (elem x xs ≡ true)
  unfolding elem count
  elem-snoc x t xs h = elim (Bool-cases (t == x)) [
    | inl e ↦ inl (ground arith)
    | inr e ↦ inr (ground (arith, count-append x xs (t ∷ [])))
  ]

  elem_later : (x t : Uuid) (xs : List Uuid) → elem x xs ≡ true → elem x (t ∷ xs) ≡ true
  unfolding elem count
  elem_later x t xs h = ground arith

  elem_earlier : (x t : Uuid) (xs : List Uuid) → elem x xs ≡ true → elem x (xs ++ t ∷ []) ≡ true
  unfolding elem count
  elem_earlier x t xs h = ground (arith, count-append x xs (t ∷ []))

  elem_here : (t : Uuid) (xs : List Uuid) → elem t (t ∷ xs) ≡ true
  unfolding elem count
  elem_here t xs = ground arith

  elem_end : (t : Uuid) (xs : List Uuid) → elem t (xs ++ t ∷ []) ≡ true
  unfolding elem count
  elem_end t xs = ground (arith, count-append t xs (t ∷ []))

  visit_new :
      (start node : Uuid) (e : Edge) (es : List Edge) (keep queue : List Uuid)
      → Memᴰ e edges
      → e.from_node ≡ node
      → Searching start node (e ∷ es) (keep, queue)
      → Searching start node es (e.to_node ∷ keep, queue ++ e.to_node ∷ [])
  visit_new start node e es keep queue m f s = record {
    sound = λ x h. elim (elem-cons x e.to_node keep h) [
      | inl new ↦
          subst (Reach edges start) (sym new)
            (along e m (subst (Reach edges start) (sym f) s.node_reached))
      | inr old ↦ s.sound x old
    ];
    kept = λ x h. elim (elem-snoc x e.to_node queue h) [
      | inl new ↦ rw new (elem_here e.to_node keep)
      | inr old ↦ elem_later x e.to_node keep (s.kept x old)
    ];
    closed = λ d k h. elim (elem-cons d.from_node e.to_node keep h) [
      | inl new ↦ inl (rw new (elem_end e.to_node queue))
      | inr old ↦ elim (s.closed d k old) [
        | inl q ↦ inl (elem_earlier d.from_node e.to_node queue q)
        | inr (inl t) ↦ inr (inl (elem_later d.to_node e.to_node keep t))
        | inr (inr (g, Memᴰ.head same)) ↦
            inr (inl (rw (ap (λ y. y.to_node) same) (elem_here e.to_node keep)))
        | inr (inr (g, Memᴰ.tail r)) ↦ inr (inr (g, r))
      ]
    ];
    start_kept = elem_later start e.to_node keep s.start_kept;
    node_reached = s.node_reached;
  }

  visit_old :
      (start node : Uuid) (e : Edge) (es : List Edge) (s : Search)
      → ((e.from_node == node) && not (elem e.to_node s.0)) ≡ false
      → Searching start node (e ∷ es) s
      → Searching start node es s
  visit_old start node e es s f h = record {
    sound = h.sound;
    kept = h.kept;
    start_kept = h.start_kept;
    node_reached = h.node_reached;
    closed = λ d k i. elim (h.closed d k i) [
      | inl q ↦ inl q
      | inr (inl t) ↦ inr (inl t)
      | inr (inr (g, Memᴰ.head same)) ↦
          let from : e.from_node ≡ node = ap (λ y. y.from_node) (sym same) ∙ g in
          let to : d.to_node ≡ e.to_node = ap (λ y. y.to_node) same in
          inr (inl (rw to (ground arith)))
      | inr (inr (g, Memᴰ.tail r)) ↦ inr (inr (g, r))
    ];
  }

  visit-Searching :
      (start node : Uuid) (e : Edge) (es : List Edge) (s : Search)
      → Memᴰ e edges
      → Searching start node (e ∷ es) s
      → Searching start node es (visit node e s)
  unfolding visit
  visit-Searching start node e es (keep, queue) m h =
      elim (Bool-cases ((e.from_node == node) && not (elem e.to_node keep))) [
        | inl new ↦ rw new (visit_new start node e es keep queue m (ground arith) h)
        | inr old ↦ rw old (visit_old start node e es (keep, queue) old h)
      ]

  visit_all-Searching :
      (start node : Uuid) (es : List Edge) (s : Search)
      → ((e : Edge) → Memᴰ e es → Memᴰ e edges)
      → Searching start node es s
      → Searching start node [] (visit_all node es s)
  unfolding visit_all
  visit_all-Searching start node [] s m h = h
  visit_all-Searching start node (e ∷ es) s m h =
      visit_all-Searching start node es (visit node e s) (λ d k. m d (Memᴰ.tail k))
        (visit-Searching start node e es s (m e (Memᴰ.head refl)) h)

  pop :
      (start last node : Uuid) (keep queue : List Uuid)
      → Searching start last [] (keep, node ∷ queue)
      → Searching start node edges (keep, queue)
  pop start last node keep queue h = record {
    sound = h.sound;
    kept = λ x i. h.kept x (elem_later x node queue i);
    start_kept = h.start_kept;
    node_reached = h.sound node (h.kept node (elem_here node queue));
    closed = λ d k i. elim (h.closed d k i) [
      | inl q ↦ elim (elem-cons d.from_node node queue q) [
        | inl first ↦ inr (inr (first, k))
        | inr later ↦ inl later
      ]
      | inr (inl t) ↦ inr (inl t)
      | inr (inr (g, m)) ↦ elim m [ ]
    ];
  }

  finish :
      (start last : Uuid) (keep : List Uuid)
      → Searching start last [] (keep, [])
      → (x : Uuid) → Reach edges start x
      → elem x keep ≡ true
  unfolding elem count
  finish start last keep h x here = h.start_kept
  finish start last keep h x (along e m r) =
      elim (h.closed e m (finish start last keep h e.from_node r)) [
        | inl q ↦ absurd (ground arith)
        | inr (inl t) ↦ t
        | inr (inr (g, k)) ↦ elim k [ ]
      ]

  search_reaches :
      (start last : Uuid) (fuel : ℕ) (s : Search) (keep : List Uuid)
      → search edges fuel s ≡ some keep
      → Searching start last [] s
      → (x : Uuid) → (elem x keep ≡ true) ↔ Reach edges start x
  unfolding search
  search_reaches start last zero (set, []) keep e h x =
      (λ i. h.sound x (rw (some_inv e) i), λ r. rw (sym (some_inv e)) (finish start last set h x r))
  search_reaches start last (suc fuel) (set, []) keep e h x =
      (λ i. h.sound x (rw (some_inv e) i), λ r. rw (sym (some_inv e)) (finish start last set h x r))
  search_reaches start last zero (set, node ∷ queue) keep e h x = cc
  search_reaches start last (suc fuel) (set, node ∷ queue) keep e h x =
      search_reaches start node fuel (visit_all node edges (set, queue)) keep e
        (visit_all-Searching start node edges (set, queue) (λ d m. m)
          (pop start last node set queue h))
        x

first_search :
    (edges : List Edge) (start : Uuid) → Searching edges start start [] (start ∷ [], start ∷ [])
unfolding elem count
first_search edges start = record {
  sound = λ x i. elim (elem-cons edges x start [] i) [
    | inl same ↦ subst (Reach edges start) (sym same) here
    | inr rest ↦ absurd (nothing x rest)
  ];
  kept = λ x i. i;
  closed = λ e m i. inl i;
  start_kept = elem_here edges start [];
  node_reached = here;
}
  where
    nothing : (x : Uuid) → ltb 0 0 ≡ true → ⊥
    nothing x i = ground arith

-- What is left of a flow is the branch below the trigger: its nodes are the nodes that the trigger
-- reaches along the edges, and its edges are the edges that start at such a node. The search for
-- them always ends, and nothing else of the flow changes.
pub restrict_to_trigger_lem :
    (f : Flow) (trigger : Uuid)
    → (g : Flow) × (restrict_to_trigger f trigger ≡ some g)
      × (g ≡ record f { nodes = g.nodes; edges = g.edges })
      × ((n : Node) → Memᴰ n g.nodes ↔ (Memᴰ n f.nodes × Reach f.edges trigger n.id))
      × ((e : Edge) → Memᴰ e g.edges ↔ (Memᴰ e f.edges × Reach f.edges trigger e.from_node))
unfolding restrict_to_trigger work
restrict_to_trigger_lem f trigger =
    let start : Search = (trigger ∷ [], trigger ∷ []) in
    let (keep, e) =
      search_total f.edges (suc (length f.edges)) start
        (omega (arith, missing_bound (trigger ∷ []) f.edges)) in
    let reaches =
      search_reaches f.edges trigger trigger (suc (length f.edges)) start keep e
        (first_search f.edges trigger) in
    (
      record f {
        nodes = filter (λ n. elem n.id keep) f.nodes;
        edges = filter (λ d. elem d.from_node keep && elem d.to_node keep) f.edges;
      },
      rw e refl,
      refl,
      λ n. (
        λ m. let (k, h) = Mem-filter _ n f.nodes m in (k, (reaches n.id).0 h),
        λ (k, r). filter-Mem _ n f.nodes k ((reaches n.id).1 r),
      ),
      λ d. (
        λ m. let (k, h) = Mem-filter _ d f.edges m in (k, (reaches d.from_node).0 (ground arith)),
        λ (k, r).
            filter-Mem _ d f.edges k
              (both keep d ((reaches d.from_node).1 r) ((reaches d.to_node).1 (along d k r))),
      ),
    )
  where
    both :
        (keep : List Uuid) (d : Edge)
        → elem d.from_node keep ≡ true
        → elem d.to_node keep ≡ true
        → (elem d.from_node keep && elem d.to_node keep) ≡ true
    both keep d a b = rw (a, b) refl
