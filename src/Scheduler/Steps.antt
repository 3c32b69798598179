-- ===== src/Scheduler/Steps.antt =====
-- The loop of scheduler.rs over batches of ready nodes.
use mathlib.Core.List.{append-nil, append_assoc}
use z8run.Base.{
  ◌⊎◌, inl, inr, ℕ, zero, suc, ◌+◌, ◌*◌, ◌≤◌, ◌<◌, ◌≡◌, refl, sym, ap, ◌∙◌, Bool, true, some, List,
  [], ◌∷◌, ◌++◌, count, count-append, elem, All, All_at, length, length-append, if◌then◌else◌, ◌==◌,
  arith, Memᴰ, Bool-cases, ==→≡, subst,
}
use z8run.Error.{Uuid}
use z8run.Flow.{Edge}
use z8run.Kahn.{InDegree}
use z8run.Kahn.Counts.{Counted, waiting, waiting-zero}
use z8run.Kahn.Loop.{IsClosed, Inv, pop_lem, length-le_ids}
use z8run.Scheduler.{ExecutionStep, relax_batch, plan_steps, count_nodes, max_len}

-- The nodes of the steps, in their order.
unfoldable pub nodes_of : List ExecutionStep → List Uuid
nodes_of [] = []
nodes_of (s ∷ steps) = s.node_ids ++ nodes_of steps

pub nodes_of-snoc :
    (steps : List ExecutionStep) (s : ExecutionStep)
    → nodes_of (steps ++ s ∷ []) ≡ nodes_of steps ++ s.node_ids
unfolding nodes_of
nodes_of-snoc [] s = append-nil s.node_ids
nodes_of-snoc (x ∷ steps) s =
    ap (λ l. x.node_ids ++ l) (nodes_of-snoc steps s)
    ∙ sym (append_assoc x.node_ids (nodes_of steps) s.node_ids)

pub length-nodes_of : (steps : List ExecutionStep) → length (nodes_of steps) ≡ count_nodes steps
unfolding nodes_of count_nodes
length-nodes_of [] = refl
length-nodes_of (s ∷ steps) =
    omega (arith, length-append s.node_ids (nodes_of steps), length-nodes_of steps)

-- The number of the first step that holds a node; the number of steps if none does.
unfoldable pub step_of : Uuid → List ExecutionStep → ℕ
step_of n [] = 0
step_of n (s ∷ steps) = let rest = step_of n steps in if elem n s.node_ids then 0 else suc rest

-- Every step has a node, and the steps are numbered in turn.
abbrev pub Numbered : ℕ → List ExecutionStep → Type 0
Numbered k [] = Unit
Numbered k (s ∷ steps) = (s.step ≡ k) × (0 < length s.node_ids) × Numbered (suc k) steps

Numbered-snoc :
    (k : ℕ) (steps : List ExecutionStep) (s : ExecutionStep)
    → Numbered k steps
    → s.step ≡ k + length steps
    → 0 < length s.node_ids
    → Numbered k (steps ++ s ∷ [])
Numbered-snoc k [] s h e p = (omega arith, p, tt)
Numbered-snoc k (x ∷ steps) s h e p = (h.0, h.1, Numbered-snoc (suc k) steps s h.2 (omega arith) p)

-- As many steps as nodes at most, and each step at most as wide as the widest.
pub length-le-count_nodes :
    (k : ℕ) (steps : List ExecutionStep) → Numbered k steps → length steps ≤ count_nodes steps
unfolding count_nodes
length-le-count_nodes k [] h = omega arith
length-le-count_nodes k (s ∷ steps) h = omega (arith, h.1, length-le-count_nodes (suc k) steps h.2)

pub count_nodes-le :
    (w : ℕ) (steps : List ExecutionStep) → max_len steps ≤ w → count_nodes steps ≤ length steps * w
unfolding count_nodes max_len
count_nodes-le w [] h = omega arith
count_nodes-le w (s ∷ steps) h =
    let one : length s.node_ids ≤ w = ground arith in
    let rest : count_nodes steps ≤ length steps * w = count_nodes-le w steps (ground arith) in
    grind arith

module _ (counts : Counted) (edges : List Edge) where
  -- The nodes of a step wait for nothing but earlier steps.
  abbrev pub Layered : (seen : List Uuid) → List ExecutionStep → Type 0
  Layered seen [] = Unit
  Layered seen (s ∷ steps) =
      All (λ n. waiting counts n seen edges ≡ 0) s.node_ids × Layered (seen ++ s.node_ids) steps

  Layered-snoc :
      (seen : List Uuid) (steps : List ExecutionStep) (s : ExecutionStep)
      → Layered seen steps
      → All (λ n. waiting counts n (seen ++ nodes_of steps) edges ≡ 0) s.node_ids
      → Layered seen (steps ++ s ∷ [])
  unfolding nodes_of
  Layered-snoc seen [] s l w =
      (subst (λ x. All (λ n. waiting counts n x edges ≡ 0) s.node_ids) (append-nil seen) w, tt)
  Layered-snoc seen (x ∷ steps) s l w = (
    l.0,
    Layered-snoc (seen ++ x.node_ids) steps s l.1 (
        subst (λ x. All (λ n. waiting counts n x edges ≡ 0) s.node_ids)
          (sym (append_assoc seen x.node_ids (nodes_of steps))) w),
  )

  none_waits :
      (n : Uuid) (seen xs : List Uuid)
      → All (λ n. waiting counts n seen edges ≡ 0) xs
      → elem n xs ≡ true
      → waiting counts n seen edges ≡ 0
  unfolding elem count
  none_waits n seen [] a h = cc
  none_waits n seen (x ∷ xs) a h = elim (Bool-cases (x == n)) [
    | inl e ↦ subst (λ k. waiting counts k seen edges ≡ 0) (==→≡ x n e) a.0
    | inr ne ↦ none_waits n seen xs a.1 (ground arith)
  ]

  Layered-before :
      (seen : List Uuid) (steps : List ExecutionStep) (e : Edge)
      → Layered seen steps
      → Memᴰ e edges
      → counts e ≡ true
      → 0 < count e.to_node (nodes_of steps)
      → (0 < count e.from_node seen) ⊎ (step_of e.from_node steps < step_of e.to_node steps)
  unfolding count step_of nodes_of elem
  Layered-before seen [] e l m c h = absurd (omega arith)
  Layered-before seen (s ∷ steps) e l m c h = elim (Bool-cases (elem e.to_node s.node_ids)) [
    | inl here ↦ inl (
        All_at (λ d. counts d ≡ true → d.to_node ≡ e.to_node → 0 < count d.from_node seen) edges
          (waiting-zero counts e.to_node seen edges (none_waits e.to_node seen s.node_ids l.0 here))
          m c refl)
    | inr later ↦
        let there : 0 < count e.to_node (nodes_of steps) =
          ground (arith, count-append e.to_node s.node_ids (nodes_of steps)) in
        elim (Layered-before (seen ++ s.node_ids) steps e l.1 m c there) [
          | inl old ↦ elim (Bool-cases (elem e.from_node s.node_ids)) [
            | inl first ↦ inr (ground arith)
            | inr other ↦ inl (ground (arith, count-append e.from_node seen s.node_ids))
          ]
          | inr lt ↦ elim (Bool-cases (elem e.from_node s.node_ids)) [
            | inl first ↦ inr (ground arith)
            | inr other ↦ inr (ground arith)
          ]
        ]
  ]

  pub Layered-step_of :
      (steps : List ExecutionStep) (e : Edge)
      → Layered [] steps
      → Memᴰ e edges
      → counts e ≡ true
      → 0 < count e.to_node (nodes_of steps)
      → step_of e.from_node steps < step_of e.to_node steps
  unfolding count
  Layered-step_of steps e l m c h = elim (Layered-before [] steps e l m c h) [
    | inl s ↦ absurd (omega arith)
    | inr lt ↦ lt
  ]

  module _ (key : ℕ → Bool) where
    abbrev Batched : InDegree → (batch queue done : List Uuid) → Type 0
    Batched m batch queue done =
        (m' : InDegree) × (queue' : List Uuid) × (relax_batch edges batch m queue
          ≡ some (m', queue'))
        × Inv counts edges key m' [] queue' (done ++ batch)

    batch_lem :
        (batch : List Uuid) (m : InDegree) (queue done : List Uuid)
        → IsClosed counts edges key
        → Inv counts edges key m batch queue done
        → Batched m batch queue done
    unfolding relax_batch
    batch_lem [] m queue done closed inv =
        (m, queue, refl, subst (Inv counts edges key m [] queue) (sym (append-nil done)) inv)
    batch_lem (x ∷ batch) m queue done closed inv =
        let (m', queue', run, inv') = pop_lem counts edges key x closed inv in
        let (m'', queue'', runs, inv'') = batch_lem batch m' queue' (done ++ x ∷ []) closed inv' in
        (
          m'',
          queue'',
          rw (relax_batch, run) runs,
          subst (Inv counts edges key m'' [] queue'') (append_assoc done (x ∷ []) batch) inv'',
        )

    -- The whole queue becomes the batch.
    drain_lem :
        {m : InDegree} {queue done : List Uuid}
        → Inv counts edges key m [] queue done
        → Inv counts edges key m queue [] done
    unfolding count
    drain_lem inv = record { exact = λ n. ground (arith, inv.exact n); known = inv.known }

    batch_ready :
        {m : InDegree} {queue done : List Uuid} (xs : List Uuid)
        → Inv counts edges key m [] queue done
        → ((n : ℕ) → count n xs ≤ count n queue)
        → All (λ n. waiting counts n done edges ≡ 0) xs
    unfolding count
    batch_ready [] inv le = tt
    batch_ready (x ∷ xs) inv le =
        (ground (arith, inv.exact x, le x), batch_ready xs inv (λ n. ground (arith, le n)))

    module _ (ids : List ℕ) (ids_known : (n : ℕ) → count n ids ≡ (if key n then 1 else 0)) where
      abbrev pub Planned : ℕ → InDegree → List Uuid → ℕ → List ExecutionStep → Type 0
      Planned fuel m queue step_num steps =
          (final : List ExecutionStep) × (m' : InDegree) × (plan_steps edges fuel m queue step_num
              steps
            ≡ some final)
          × Inv counts edges key m' [] [] (nodes_of final)
          × Layered [] final
          × Numbered 0 final

      pub plan_steps_lem :
          (fuel : ℕ) (m : InDegree) (queue : List Uuid) (step_num : ℕ) (steps : List ExecutionStep)
          → IsClosed counts edges key
          → Inv counts edges key m [] queue (nodes_of steps)
          → Layered [] steps
          → Numbered 0 steps
          → step_num ≡ length steps
          → length ids < fuel + length (nodes_of steps)
          → Planned fuel m queue step_num steps
      unfolding plan_steps
      plan_steps_lem zero m queue k steps closed inv l num e h =
          absurd (omega (arith, length-le_ids counts edges key ids ids_known inv))
      plan_steps_lem (suc fuel) m [] k steps closed inv l num e h = (steps, m, refl, inv, l, num)
      plan_steps_lem (suc fuel) m (x ∷ queue) k steps closed inv l num e h =
          let (m', queue', run, inv') =
            batch_lem (x ∷ queue) m [] (nodes_of steps) closed (drain_lem inv) in
          let s : ExecutionStep = record { node_ids = x ∷ queue; step = k } in
          let more = nodes_of-snoc steps s in
          let (final, last, ends, inv'', l', num') =
            plan_steps_lem fuel m' queue' (k + 1) (steps ++ s ∷ []) closed
              (subst (Inv counts edges key m' [] queue') (sym more) inv')
              (Layered-snoc [] steps s l (batch_ready (x ∷ queue) inv (λ n. omega arith)))
              (Numbered-snoc 0 steps s num (omega arith) (omega arith))
              (omega (arith, length-append steps (s ∷ [])))
              (omega (arith, ap length more, length-append (nodes_of steps) (x ∷ queue))) in
          (final, last, rw (plan_steps, run) ends, inv'', l', num')
