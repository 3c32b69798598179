-- ===== src/Kahn/Loop/Order.antt =====
-- The order in which the loops of flow.rs take the nodes.
use mathlib.Core.List.{append-nil, append_assoc}
use z8run.Base.{
  ℕ, zero, suc, ◌+◌, ◌≤◌, ◌<◌, ◌≡◌, refl, sym, ap, Bool, true, false, ◌⊎◌, inl, inr, Option, none,
  some, List, [], ◌∷◌, ◌++◌, count, count-append, All, All_at, length, index_of, length-append,
  if◌then◌else◌, ◌==◌, ==→≡, Bool-cases, arith, Memᴰ,
}
use z8run.Error.{Uuid}
use z8run.Flow.{Edge, outgoing}
use z8run.Kahn.{InDegree, get, relax, collect_order, count_visited}
use z8run.Kahn.Counts.{Counted, waiting, waiting-zero, waiting_mono, waiting_pos}
use z8run.Kahn.Loop.{Ordered, IsClosed, Inv, pop_lem, take_off, pop_zero, length-le_ids}

module _ (counts : Counted) (edges : List Edge) where
  pub Ordered-snoc :
      (seen order : List Uuid) (x : Uuid)
      → Ordered counts edges seen order
      → waiting counts x (seen ++ order) edges ≡ 0
      → Ordered counts edges seen (order ++ x ∷ [])
  Ordered-snoc seen [] x o w = (rw append-nil at w, tt)
  Ordered-snoc seen (y ∷ ys) x o w =
      (o.0, Ordered-snoc (seen ++ y ∷ []) ys x o.1 (rw (append_assoc seen (y ∷ []) ys) w))

  -- In an order, the source of a counted edge stands before its target.
  Ordered-before :
      (seen order : List Uuid) (e : Edge)
      → Ordered counts edges seen order
      → Memᴰ e edges
      → counts e ≡ true
      → 0 < count e.to_node order
      → (0 < count e.from_node seen) ⊎ (index_of e.from_node order < index_of e.to_node order)
  unfolding count index_of
  Ordered-before seen [] e o m c h = absurd (omega arith)
  Ordered-before seen (x ∷ xs) e o m c h = elim (Bool-cases (x == e.to_node)) [
    | inl here ↦ inl (
        All_at (λ d. counts d ≡ true → d.to_node ≡ x → 0 < count d.from_node seen) edges
          (waiting-zero counts x seen edges o.0) m c (sym (==→≡ x e.to_node here)))
    | inr later ↦ elim (Ordered-before (seen ++ x ∷ []) xs e o.1 m c (ground arith)) [
      | inl s ↦ before_or_here later s
      | inr lt ↦ inr (ground arith)
    ]
  ]
    where
      before_or_here :
          (x == e.to_node) ≡ false
          → 0 < count e.from_node (seen ++ x ∷ [])
          → (0 < count e.from_node seen)
            ⊎ (index_of e.from_node (x ∷ xs) < index_of e.to_node (x ∷ xs))
      before_or_here later s = elim (Bool-cases (x == e.from_node)) [
        | inl first ↦ inr (ground arith)
        | inr other ↦ inl (ground (arith, count-append e.from_node seen (x ∷ [])))
      ]

  pub Ordered-index_of :
      (order : List Uuid) (e : Edge)
      → Ordered counts edges [] order
      → Memᴰ e edges
      → counts e ≡ true
      → 0 < count e.to_node order
      → index_of e.from_node order < index_of e.to_node order
  unfolding count
  Ordered-index_of order e o m c h = elim (Ordered-before [] order e o m c h) [
    | inl s ↦ absurd (omega arith)
    | inr lt ↦ lt
  ]

  module _ (key : ℕ → Bool) (ids : List ℕ)
      (ids_known : (n : ℕ) → count n ids ≡ (if key n then 1 else 0)) where
    -- What a run of the loop returns.
    abbrev pub Collected : ℕ → InDegree → (queue done : List Uuid) → Type 0
    Collected fuel m queue done =
        (order : List Uuid) × (m' : InDegree) × (collect_order edges fuel m queue done ≡ some order)
        × Inv counts edges key m' [] [] order
        × Ordered counts edges [] order

    collect-pop :
        (fuel : ℕ) (m : InDegree) (x : Uuid) (queue done : List Uuid)
        → (m' : InDegree) (queue' : List Uuid)
        → relax (outgoing edges x) m queue ≡ some (m', queue')
        → Collected fuel m' queue' (done ++ x ∷ [])
        → Collected (suc fuel) m (x ∷ queue) done
    unfolding collect_order
    collect-pop fuel m x queue done m' queue' run (order, last, ends, inv, o) =
        (order, last, rw (collect_order, run) ends, inv, o)

    pub collect_lem :
        (fuel : ℕ) (m : InDegree) (queue done : List Uuid)
        → IsClosed counts edges key
        → Inv counts edges key m [] queue done
        → Ordered counts edges [] done
        → length ids < fuel + length done
        → Collected fuel m queue done
    unfolding collect_order
    collect_lem zero m queue done closed inv o h =
        absurd (omega (arith, length-le_ids counts edges key ids ids_known inv))
    collect_lem (suc fuel) m [] done closed inv o h = (done, m, refl, inv, o)
    collect_lem (suc fuel) m (x ∷ queue) done closed inv o h =
        let taken = take_off counts edges key x inv in
        let (m', queue', run, inv') = pop_lem counts edges key x closed taken in
        collect-pop fuel m x queue done m' queue' run (
          collect_lem fuel m' queue' (done ++ x ∷ []) closed inv'
            (Ordered-snoc [] done x o (pop_zero counts edges key x taken).1)
            (omega (arith, length-append done (x ∷ []))))

  -- The counting loop visits as many nodes as the other collects.
  pub count_visited_lem :
      (fuel : ℕ) (m : InDegree) (queue done : List Uuid) (order : List Uuid)
      → collect_order edges fuel m queue done ≡ some order
      → count_visited edges fuel m queue (length done) ≡ some (length order)
  unfolding collect_order count_visited
  count_visited_lem zero m queue done order h = cc
  count_visited_lem (suc fuel) m [] done order h = ground arith
  count_visited_lem (suc fuel) m (x ∷ queue) done order h =
      go (relax (outgoing edges x) m queue) refl (count_visited_lem fuel)
    where
      go :
          (r : Option (InDegree × List Uuid))
          → relax (outgoing edges x) m queue ≡ r
          → ((m : InDegree) (queue done order : List Uuid)
              → collect_order edges fuel m queue done ≡ some order
              → count_visited edges fuel m queue (length done) ≡ some (length order))
          → count_visited edges (suc fuel) m (x ∷ queue) (length done) ≡ some (length order)
      go none run rec = ground arith
      go (some (m', queue')) run rec =
          let longer : length (done ++ x ∷ []) ≡ length done + 1 = length-append done (x ∷ []) in
          rw (count_visited, run)
            (rw (← longer) (rec m' queue' (done ++ x ∷ []) order (rw (collect_order, run) at h)))

  -- If the counted edges follow a ranking, the last state has seen every node.
  pub rank_seen :
      (key : ℕ → Bool) (m : InDegree) (order : List Uuid) (rank : Uuid → ℕ)
      → Inv counts edges key m [] [] order
      → All
          (λ e. counts e ≡ true → (key e.from_node ≡ true) × (rank e.from_node < rank e.to_node))
          edges
      → (k n : ℕ) → rank n < k
      → key n ≡ true
      → count n order ≡ 1
  unfolding count
  rank_seen key m order rank inv ranked zero n h known = absurd (omega arith)
  rank_seen key m order rank inv ranked (suc k) n h known =
      go (get n m) refl (rank_seen key m order rank inv ranked k)
    where
      go :
          (entry : Option ℕ)
          → get n m ≡ entry
          → ((n : ℕ) → rank n < k → key n ≡ true → count n order ≡ 1)
          → count n order ≡ 1
      go none g rec = ground (arith, inv.known n)
      go (some zero) g rec = ground (arith, inv.exact n)
      go (some (suc d)) g rec =
          let (e, r, c, t, absent) =
            waiting_pos counts n order edges (ground (arith, inv.exact n))
              (λ e.
                counts e ≡ true → (key e.from_node ≡ true) × (rank e.from_node < rank e.to_node))
              ranked in
          let (source_known, lower) = r c in
          absurd (omega (arith, rec e.from_node (omega (arith, ap rank t)) source_known))

  -- Two runs that end have seen the same nodes.
  pub final_mono :
      (key : ℕ → Bool) (m : InDegree) (order : List Uuid) (m' : InDegree) (order' : List Uuid)
      → Inv counts edges key m [] [] order
      → Ordered counts edges [] order
      → Inv counts edges key m' [] [] order'
      → (n : ℕ) → count n order ≤ count n order'
  unfolding count
  final_mono key m order m' order' inv o inv' n = ground (
    arith,
    inv.exact n,
    go [] order o (λ k h. absurd (omega arith)) (λ k h. ground (arith, inv.exact k, inv.known k)) n,
  )
    where
      seen_too :
          (seen : List Uuid) (x : Uuid)
          → waiting counts x seen edges ≡ 0
          → ((k : ℕ) → 0 < count k seen → 0 < count k order')
          → key x ≡ true
          → 0 < count x order'
      seen_too seen x w old known =
          ground (arith, inv'.exact x, inv'.known x, waiting_mono counts x seen order' edges old)

      extend :
          (seen : List Uuid) (x : Uuid)
          → ((k : ℕ) → 0 < count k seen → 0 < count k order')
          → 0 < count x order'
          → (k : ℕ) → 0 < count k (seen ++ x ∷ [])
          → 0 < count k order'
      extend seen x old new k h = ground (arith, old k, count-append k seen (x ∷ []))

      go :
          (seen xs : List Uuid)
          → Ordered counts edges seen xs
          → ((k : ℕ) → 0 < count k seen → 0 < count k order')
          → ((k : ℕ) → 0 < count k xs → key k ≡ true)
          → (k : ℕ) → 0 < count k xs
          → 0 < count k order'
      go seen [] o old known k h = absurd (omega arith)
      go seen (x ∷ xs) o old known k h =
          let here = seen_too seen x o.0 old (known x (ground arith)) in
          let later =
            go (seen ++ x ∷ []) xs o.1 (extend seen x old here) (λ k h. known k (omega arith)) k in
          ground (arith, here, later)
