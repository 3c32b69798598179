-- ===== src/Nodes/Batch/Chunks.antt =====
-- The batches of an array are the array.
use z8run.Base.{
  ℕ, zero, suc, ◌≤◌, Option, none, some, List, [], ◌∷◌, ◌++◌, map, length, take, drop, length-drop,
  ◌==◌, ◌≡◌, refl, ap, ◌∙◌, arith, is_some, not, ◌&&◌, false, Bool-cases, inl, inr,
}
use z8run.Json.{Value, lookup}
use z8run.Error.{ok}
use z8run.Message.{FlowMessage, derive}
use z8run.Nodes.{Outside, output, get_field, items_of, list_of}
use z8run.Nodes.Batch.{
  BatchNode, array_of, extract_items, chunks_from, chunks, batch_payload, outputs_from, batched,
  process,
}

abbrev pub join : List (List Value) → List Value
join [] = []
join (xs ∷ xss) = xs ++ join xss

-- Every chunk has the size, but for the last, which is not empty and not larger.
abbrev pub AreFull : (size : ℕ) → List (List Value) → Type 0
AreFull size [] = Unit
AreFull size (c ∷ []) = (1 ≤ length c) × (length c ≤ size)
AreFull size (c ∷ d ∷ cs) = (length c ≡ size) × AreFull size (d ∷ cs)

-- What a batch carries.
abbrev pub data_of : FlowMessage → Option (List Value)
data_of m = array_of (get_field "data" m.payload)

take-drop : (n : ℕ) (xs : List Value) → take n xs ++ drop n xs ≡ xs
unfolding take drop
take-drop zero xs = refl
take-drop (suc n) [] = refl
take-drop (suc n) (x ∷ xs) = ap (λ l. x ∷ l) (take-drop n xs)

length-take_short : (n : ℕ) (xs : List Value) → length (take n xs) ≤ n
unfolding take
length-take_short zero xs = omega arith
length-take_short (suc n) [] = omega arith
length-take_short (suc n) (x ∷ xs) = omega (arith, length-take_short n xs)

length-take_long : (n : ℕ) (xs : List Value) → 1 ≤ length (drop n xs) → length (take n xs) ≡ n
unfolding take drop
length-take_long zero xs h = refl
length-take_long (suc n) [] h = absurd (omega (arith, h))
length-take_long (suc n) (x ∷ xs) h = ap suc (length-take_long n xs h)

length-take_some : (n : ℕ) (x : Value) (xs : List Value) → 1 ≤ n → 1 ≤ length (take n (x ∷ xs))
unfolding take
length-take_some zero x xs h = absurd (omega arith)
length-take_some (suc n) x xs h = omega arith

join-chunks :
    (fuel size : ℕ) (xs : List Value)
    → 1 ≤ size
    → length xs ≤ fuel
    → join (chunks_from fuel size xs) ≡ xs
unfolding chunks_from
join-chunks zero size [] s h = refl
join-chunks zero size (x ∷ xs) s h = absurd (omega arith)
join-chunks (suc fuel) size [] s h = refl
join-chunks (suc fuel) size (x ∷ xs) s h =
    let shorter : length (drop size (x ∷ xs)) ≤ fuel = omega (arith, length-drop size (x ∷ xs)) in
    ap (λ l. take size (x ∷ xs) ++ l) (join-chunks fuel size (drop size (x ∷ xs)) s shorter)
    ∙ take-drop size (x ∷ xs)

chunks-AreFull :
    (fuel size : ℕ) (xs : List Value)
    → 1 ≤ size
    → length xs ≤ fuel
    → AreFull size (chunks_from fuel size xs)
unfolding chunks_from
chunks-AreFull zero size xs s h = tt
chunks-AreFull (suc fuel) size [] s h = tt
chunks-AreFull (suc fuel) size (x ∷ xs) s h =
    let shorter : length (drop size (x ∷ xs)) ≤ fuel = omega (arith, length-drop size (x ∷ xs)) in
    first fuel size (take size (x ∷ xs)) (drop size (x ∷ xs)) (length-take_some size x xs s)
      (length-take_short size (x ∷ xs)) (length-take_long size (x ∷ xs))
      (chunks-AreFull fuel size (drop size (x ∷ xs)) s shorter)
  where
    first :
        (fuel size : ℕ) (c rest : List Value)
        → 1 ≤ length c
        → length c ≤ size
        → (1 ≤ length rest → length c ≡ size)
        → AreFull size (chunks_from fuel size rest)
        → AreFull size (c ∷ chunks_from fuel size rest)
    first zero size c rest a b l h = (a, b)
    first (suc fuel) size c [] a b l h = (a, b)
    first (suc fuel) size c (y ∷ ys) a b l h = (l (omega arith), h)

list_of-items_of : (vs : List Value) → list_of (items_of vs) ≡ vs
unfolding list_of items_of
list_of-items_of [] = refl
list_of-items_of (v ∷ vs) = ap (λ l. v ∷ l) (list_of-items_of vs)

data_of-outputs :
    (w : Outside) (m : FlowMessage) (index total total_items : ℕ) (cs : List (List Value))
    → map data_of (outputs_from w m index total total_items cs) ≡ map some cs
unfolding outputs_from batch_payload output derive get_field lookup
data_of-outputs w m index total total_items [] = refl
data_of-outputs w m index total total_items (c ∷ cs) =
    let rest = data_of-outputs w m (suc index) total total_items cs in
    let here = ap some (list_of-items_of c) in cc

-- A node with a size greater than 0 that finds an array sends it in batches: the batches, one after
-- the other, are the array, all but the last have the configured size, and the last one is not
-- empty and not larger.
pub process-Batches :
    (n : BatchNode) (w : Outside) (m : FlowMessage) (items : List Value)
    → 1 ≤ n.size
    → extract_items n m.payload ≡ some items
    → (outs : List FlowMessage) × (process n w m ≡ some (ok outs))
      × ((cs : List (List Value)) × (map data_of outs ≡ map some cs)
          × (join cs ≡ items)
          × AreFull n.size cs)
unfolding process chunks
process-Batches n w m items s e =
    let sized : (n.size == 0) ≡ false = ground arith in
    let cs = chunks_from (length items) n.size items in
    (
      outputs_from w m 0 (length cs) (length items) cs,
      rw (e, sized) refl,
      (
        cs,
        data_of-outputs w m 0 (length cs) (length items) cs,
        join-chunks (length items) n.size items s (omega arith),
        chunks-AreFull (length items) n.size items s (omega arith),
      ),
    )

-- The node panics exactly on an array that it finds while its size is 0: no other message makes it
-- panic, and every such one does.
pub process_panics :
    (n : BatchNode) (w : Outside) (m : FlowMessage)
    → is_some (process n w m) ≡ not ((n.size == 0) && is_some (extract_items n m.payload))
unfolding process chunks
process_panics n w m = go (extract_items n m.payload)
  where
    go : (o : Option (List Value)) → is_some (batched n w m o) ≡ not ((n.size == 0) && is_some o)
    go none = elim (Bool-cases (n.size == 0)) [ inl e ↦ rw e refl | inr e ↦ rw e refl ]
    go (some items) = elim (Bool-cases (n.size == 0)) [ inl e ↦ rw e refl | inr e ↦ rw e refl ]
