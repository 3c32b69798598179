-- ===== src/Kahn/Loop.antt =====
-- The invariant of the queue loops of flow.rs, and their runs from a state that has it.
pub mod Order
use z8run.Base.{
  All-filter, ==→≡, ℕ, zero, suc, ◌+◌, ◌≤◌, ◌<◌, ◌≡◌, refl, sym, ap, ◌∙◌, Bool, true, false, not,
  ◌&&◌, Option, none, some, List, [], ◌∷◌, ◌++◌, map, filter, count, count-append, is_some, All,
  All-map, All_at, length, length-append, length_mono, if◌then◌else◌, ◌==◌, arith, Memᴰ,
}
use z8run.Error.{Uuid}
use z8run.Flow.{Edge, outgoing}
use z8run.Kahn.{InDegree, HashOrder, get, zeros, relax, collect_order, count_visited}
use z8run.Kahn.Counts.{Counted, into, waiting, waiting-snoc, waiting_pos}
use z8run.Kahn.Relax.{Exact, relax_lem}

-- The nodes of an order come with nothing left to wait for.
abbrev pub Ordered : Counted → List Edge → (seen : List Uuid) → List Uuid → Type 0
Ordered counts edges seen [] = Unit
Ordered counts edges seen (n ∷ ns) =
    (waiting counts n seen edges ≡ 0) × Ordered counts edges (seen ++ n ∷ []) ns

module _ (counts : Counted) (edges : List Edge) (key : ℕ → Bool) where
  -- Where an edge of a known node leads, and whether it is counted, agree.
  abbrev pub IsClosed : Type 0
  IsClosed = All (λ e. key e.from_node ≡ true → key e.to_node ≡ counts e) edges

  -- The state of a loop: `pending` are nodes that were taken off the queue and are still to be
  -- processed.
  pub record Inv (m : InDegree) (pending queue done : List Uuid) : Type 0 where
    pub exact :
        (n : ℕ)
        → Exact
            (get n m)
            (waiting counts n done edges)
            ((count n done + count n pending) + count n queue)
    pub known : (n : ℕ) → is_some (get n m) ≡ key n

  outgoing_agree :
      (x : Uuid) (m : InDegree)
      → ((n : ℕ) → is_some (get n m) ≡ key n)
      → key x ≡ true
      → IsClosed
      → All (λ e. is_some (get e.to_node m) ≡ counts e) (outgoing edges x)
  unfolding outgoing
  outgoing_agree x m same k closed =
      All-filter (λ e. key e.from_node ≡ true → key e.to_node ≡ counts e)
        (λ e. is_some (get e.to_node m) ≡ counts e) (λ e. e.from_node == x) edges
        (λ e here h. same e.to_node ∙ h (ap key (==→≡ e.from_node x here) ∙ k)) closed

  pub pop_zero :
      {m : InDegree} {pending queue done : List Uuid} (x : Uuid)
      → Inv m (x ∷ pending) queue done
      → (get x m ≡ some zero) × (waiting counts x done edges ≡ 0) × (count x done ≡ 0)
  unfolding count
  pop_zero x inv =
      (ground (arith, inv.exact x), ground (arith, inv.exact x), ground (arith, inv.exact x))

  start-Exact :
      {m : InDegree} {pending queue done : List Uuid} (x : Uuid)
      → Inv m (x ∷ pending) queue done
      → (n : ℕ)
      → Exact
          (get n m)
          (waiting counts n (done ++ x ∷ []) edges + into counts n (outgoing edges x))
          ((count n (done ++ x ∷ []) + count n pending) + count n queue)
  unfolding count
  start-Exact {done = done} x inv n = ground (
    arith,
    inv.exact n,
    waiting-snoc counts n x done edges (pop_zero x inv).2,
    count-append n done (x ∷ []),
  )

  finish-Exact : (entry : Option ℕ) (w s : ℕ) → Exact entry (w + 0) s → Exact entry w s
  finish-Exact none w s h = h
  finish-Exact (some zero) w s h = omega arith
  finish-Exact (some (suc d)) w s h = omega arith

  -- What processing one node leads to.
  abbrev pub Popped : InDegree → (pending queue done : List Uuid) → Uuid → Type 0
  Popped m pending queue done x =
      (m' : InDegree) × (queue' : List Uuid) × (relax (outgoing edges x) m queue
        ≡ some (m', queue'))
      × Inv m' pending queue' (done ++ x ∷ [])

  pub pop_lem :
      {m : InDegree} {pending queue done : List Uuid} (x : Uuid)
      → IsClosed
      → Inv m (x ∷ pending) queue done
      → Popped m pending queue done x
  unfolding into
  pop_lem {m} {pending} {queue} {done} x closed inv =
      let (m', queue', run, exact, same) =
        relax_lem counts (λ n. waiting counts n (done ++ x ∷ []) edges)
          (λ n. count n (done ++ x ∷ []) + count n pending) (outgoing edges x) m queue
          (start-Exact x inv)
          (outgoing_agree x m inv.known (sym (inv.known x) ∙ ap is_some (pop_zero x inv).0)
            closed) in
      (
        m',
        queue',
        run,
        record {
          exact = λ n. finish-Exact (get n m') _ _ (exact n);
          known = λ n. same n ∙ inv.known n;
        },
      )

  -- A node of the queue may be taken off it.
  pub take_off :
      {m : InDegree} {queue done : List Uuid} (x : Uuid)
      → Inv m [] (x ∷ queue) done
      → Inv m (x ∷ []) queue done
  unfolding count
  take_off {m} {queue} {done} x inv = record {
    exact = λ n. ground (arith, inv.exact n);
    known = inv.known;
  }

  module _ (ids : List ℕ) (ids_known : (n : ℕ) → count n ids ≡ (if key n then 1 else 0)) where
    -- No more nodes are seen than there are.
    pub length-le_ids :
        {m : InDegree} {pending queue done : List Uuid}
        → Inv m pending queue done
        → length done + (length pending + length queue) ≤ length ids
    length-le_ids {m} {pending} {queue} {done} inv = omega (
      arith,
      length_mono (done ++ (pending ++ queue)) ids (λ n. ground (
        arith,
        inv.exact n,
        inv.known n,
        ids_known n,
        count-append n done (pending ++ queue),
        count-append n pending queue,
      )),
      length-append done (pending ++ queue),
      length-append pending queue,
    )
