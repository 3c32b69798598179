-- ===== src/Kahn/Relax.antt =====
-- The loop of flow.rs over the outgoing edges of a node, and what it does to the in-degrees.
use mathlib.Core.Logic.{∥∥₁_elim}
use mathlib.Core.List.{Permᴰ}
use native.Mathlib.Nat.{ℕ_set}
use z8run.Base.{
  ℕ, zero, suc, ◌+◌, ◌≡◌, refl, sym, ap, ◌∙◌, true, false, ◌&&◌, Option, none, some, List, [], ◌∷◌,
  ◌++◌, count, count-append, is_some, All, All-map, if◌then◌else◌, ◌==◌, arith,
}
use z8run.Error.{Uuid}
use z8run.Flow.{Edge}
use z8run.Kahn.{InDegree, HashOrder, get, put, zeros, relax}
use z8run.Kahn.Counts.{Counted, into}
use z8run.Kahn.Degrees.{get-put}

-- An entry is the number of edges that are waited for, and a node is in the queue, or was, just
-- when it waits for none.
abbrev pub Exact : (entry : Option ℕ) (waits seen : ℕ) → Type 0
Exact none waits seen = seen ≡ 0
Exact (some zero) waits seen = (waits ≡ 0) × (seen ≡ 1)
Exact (some (suc d)) waits seen = (waits ≡ suc d) × (seen ≡ 0)

-- The queue after an entry was set.
abbrev enqueue : ℕ → Uuid → List Uuid → List Uuid
enqueue d x queue = if d == 0 then queue ++ x ∷ [] else queue

module _ (counts : Counted) (base other : ℕ → ℕ) where
  abbrev AllExact : List Edge → InDegree → List Uuid → Type 0
  AllExact es m queue =
      (n : ℕ) → Exact (get n m) (base n + into counts n es) (other n + count n queue)

  put-is_some : (n k v : ℕ) (m : InDegree) → is_some (get n (put k v m)) ≡ is_some (get n m)
  put-is_some n k v m = ground (arith, get-put n k v m)

  skip-AllExact :
      (e : Edge) (es : List Edge) (m : InDegree) (queue : List Uuid)
      → counts e ≡ false
      → AllExact (e ∷ es) m queue
      → AllExact es m queue
  unfolding into
  skip-AllExact e es m queue c h n = ground (arith, h n)

  decrement-AllExact :
      (e : Edge) (es : List Edge) (m : InDegree) (queue : List Uuid) (d : ℕ)
      → counts e ≡ true
      → get e.to_node m ≡ some (suc d)
      → AllExact (e ∷ es) m queue
      → AllExact es (put e.to_node d m) (enqueue d e.to_node queue)
  unfolding into count
  decrement-AllExact e es m queue d c g h n =
      ground
        (arith, h n, h e.to_node, get-put n e.to_node d m, count-append n queue (e.to_node ∷ []))

  not_zero :
      (e : Edge) (es : List Edge) (m : InDegree) (queue : List Uuid)
      → counts e ≡ true
      → get e.to_node m ≡ some zero
      → AllExact (e ∷ es) m queue
      → ⊥
  unfolding into
  not_zero e es m queue c g h = ground (arith, h e.to_node)

  -- What the loop returns from a state.
  abbrev pub Relaxed : List Edge → InDegree → List Uuid → Type 0
  Relaxed es m queue =
      (m' : InDegree) × (queue' : List Uuid) × (relax es m queue ≡ some (m', queue'))
      × AllExact [] m' queue'
      × ((n : ℕ) → is_some (get n m') ≡ is_some (get n m))

  relax-skip :
      (e : Edge) (es : List Edge) (m : InDegree) (queue : List Uuid)
      → get e.to_node m ≡ none
      → Relaxed es m queue
      → Relaxed (e ∷ es) m queue
  unfolding relax
  relax-skip e es m queue g (m', queue', run, exact, same) =
      (m', queue', rw (relax, g) run, exact, same)

  relax-decrement :
      (e : Edge) (es : List Edge) (m : InDegree) (queue : List Uuid) (d : ℕ)
      → get e.to_node m ≡ some (suc d)
      → Relaxed es (put e.to_node d m) (enqueue d e.to_node queue)
      → Relaxed (e ∷ es) m queue
  unfolding relax
  relax-decrement e es m queue d g (m', queue', run, exact, same) =
      (m', queue', rw (relax, g) run, exact, λ n. same n ∙ put-is_some n e.to_node d m)

  pub relax_lem :
      (es : List Edge) (m : InDegree) (queue : List Uuid)
      → AllExact es m queue
      → All (λ e. is_some (get e.to_node m) ≡ counts e) es
      → Relaxed es m queue
  unfolding relax
  relax_lem [] m queue h k = (m, queue, refl, h, λ n. refl)
  relax_lem (e ∷ es) m queue h k = go (get e.to_node m) refl (relax_lem es)
    where
      go :
          (entry : Option ℕ)
          → get e.to_node m ≡ entry
          → ((m : InDegree) (queue : List Uuid)
              → AllExact es m queue
              → All (λ e. is_some (get e.to_node m) ≡ counts e) es
              → Relaxed es m queue)
          → Relaxed (e ∷ es) m queue
      go none g rec =
          relax-skip e es m queue g
            (rec m queue (skip-AllExact e es m queue (sym k.0 ∙ ap is_some g) h) k.1)
      go (some zero) g rec = absurd (not_zero e es m queue (sym k.0 ∙ ap is_some g) g h)
      go (some (suc d)) g rec = relax-decrement e es m queue d g (
          rec (put e.to_node d m) (enqueue d e.to_node queue)
            (decrement-AllExact e es m queue d (sym k.0 ∙ ap is_some g) g h)
            (All-map (λ x p. put-is_some x.to_node e.to_node d m ∙ p) es k.1))

-- The order in which the map is read changes the order of the queue, and no more.
abbrev zero_at : ℕ → Uuid × ℕ → ℕ
zero_at n x = if x.1 == 0 && x.0 == n then 1 else 0

count-zeros-cons :
    (n : ℕ) (x : Uuid × ℕ) (m : InDegree)
    → count n (zeros (x ∷ m)) ≡ zero_at n x + count n (zeros m)
unfolding zeros count
count-zeros-cons n (j, d) m = ground arith

count-zeros_perm : {m m' : InDegree} (n : ℕ) → Permᴰ m m' → count n (zeros m) ≡ count n (zeros m')
count-zeros_perm n Permᴰ.nil = refl
count-zeros_perm n (Permᴰ.cons {a = x} {b = y} {l₁ = l} {l₂ = l'} e p) =
    omega (
      arith,
      count-zeros-cons n x l,
      count-zeros-cons n y l',
      ap (zero_at n) e,
      count-zeros_perm n p,
    )
count-zeros_perm n (Permᴰ.swap {a = x} {b = y} {a' = x'} {b' = y'} {l = l} e₁ e₂) = omega (
  arith,
  count-zeros-cons n x (y ∷ l),
  count-zeros-cons n y l,
  count-zeros-cons n x' (y' ∷ l),
  count-zeros-cons n y' l,
  ap (zero_at n) e₁,
  ap (zero_at n) e₂,
)
count-zeros_perm n (Permᴰ.trans p q) = count-zeros_perm n p ∙ count-zeros_perm n q

pub count-zeros-iter :
    (h : HashOrder) (n : ℕ) (m : InDegree) → count n (zeros (h.iter m)) ≡ count n (zeros m)
count-zeros-iter h n m = ∥∥₁_elim (h.iter_perm m) (ℕ_set _ _) (count-zeros_perm n)
