-- ===== src/Kahn/Degrees.antt =====
-- Lookups in the map of in-degrees of flow.rs.
use z8run.Base.{
  ℕ, zero, suc, ◌+◌, ◌≤◌, ◌≡◌, refl, true, ◌&&◌, Option, none, some, List, [], ◌∷◌, map, filter,
  count, elem, dedup, count-dedup, is_some, if◌then◌else◌, ◌==◌, arith,
}
use z8run.Error.{Uuid}
use z8run.Flow.{Edge}
use z8run.Kahn.{InDegree, get, put, bump, seed, count_edges, zeros}
use z8run.Kahn.Counts.{Counted, into}

abbrev pub or_zero : Option ℕ → ℕ
or_zero none = 0
or_zero (some d) = d

pub get-put :
    (n k v : ℕ) (m : InDegree)
    → get n (put k v m) ≡ (if k == n && is_some (get n m) then some v else get n m)
unfolding get put
get-put n k v [] = ground arith
get-put n k v ((j, d) ∷ m) = ground (arith, get-put n k v m)

pub get-bump :
    (n k : ℕ) (m : InDegree)
    → get n (bump k m) ≡ (if k == n then some (or_zero (get n m) + 1) else get n m)
unfolding get bump
get-bump n k [] = ground arith
get-bump n k ((j, d) ∷ m) = ground (arith, get-bump n k m)

-- Every counted edge adds one to the entry of its target.
pub get-count_edges :
    (n : ℕ) (es : List Edge) (m : InDegree)
    → get n (count_edges es m) ≡ (
        if into (λ _. true) n es == 0
        then get n m
        else some (or_zero (get n m) + into (λ _. true) n es))
unfolding count_edges into
get-count_edges n [] m = refl
get-count_edges n (e ∷ es) m =
    ground (arith, get-count_edges n es (bump e.to_node m), get-bump n e.to_node m)

pub into-filter :
    (counts : Counted) (n : Uuid) (es : List Edge)
    → into (λ _. true) n (filter counts es) ≡ into counts n es
unfolding into filter
into-filter counts n [] = refl
into-filter counts n (e ∷ es) = ground (arith, into-filter counts n es)

abbrev pub keys : InDegree → List Uuid
keys [] = []
keys ((j, d) ∷ m) = j ∷ keys m

pub is_some-get : (n : ℕ) (m : InDegree) → is_some (get n m) ≡ elem n (keys m)
unfolding get elem count
is_some-get n [] = refl
is_some-get n ((j, d) ∷ m) = ground (arith, is_some-get n m)

-- A map has one entry for each key.
abbrev pub Once : InDegree → Type 0
Once m = (n : ℕ) → count n (keys m) ≤ 1

count-keys-bump :
    (n k : ℕ) (m : InDegree)
    → count n (keys (bump k m)) ≡ (if k == n && count n (keys m) == 0 then 1 else count n (keys m))
unfolding bump count
count-keys-bump n k [] = ground arith
count-keys-bump n k ((j, d) ∷ m) = ground (arith, count-keys-bump n k m)

bump-Once : (k : ℕ) (m : InDegree) → Once m → Once (bump k m)
bump-Once k m h n = ground (arith, h n, count-keys-bump n k m)

pub count_edges-Once : (es : List Edge) (m : InDegree) → Once m → Once (count_edges es m)
unfolding count_edges
count_edges-Once [] m h = h
count_edges-Once (e ∷ es) m h = count_edges-Once es (bump e.to_node m) (bump-Once e.to_node m h)

keys-zeroed : (ids : List ℕ) → keys (map (λ id. (id, zero)) ids) ≡ ids
keys-zeroed [] = refl
keys-zeroed (x ∷ ids) = λ i. x ∷ keys-zeroed ids i

pub seed-Once : (ids : List ℕ) → Once (seed ids)
unfolding seed elem
seed-Once ids n = ground (arith, keys-zeroed (dedup ids), count-dedup n ids)

get-zeroed :
    (n : ℕ) (ids : List ℕ)
    → get n (map (λ id. (id, zero)) ids) ≡ (if elem n ids then some 0 else none)
unfolding get elem count
get-zeroed n [] = refl
get-zeroed n (x ∷ ids) = ground (arith, get-zeroed n ids)

pub get-seed : (n : ℕ) (ids : List ℕ) → get n (seed ids) ≡ (if elem n ids then some 0 else none)
unfolding seed elem
get-seed n ids = ground (arith, get-zeroed n (dedup ids), count-dedup n ids)

-- How often a node stands in the queue that is read off the map.
abbrev pub ready : Option ℕ → ℕ
ready none = 0
ready (some zero) = 1
ready (some (suc d)) = 0

count-zeros-le : (n : ℕ) (m : InDegree) → count n (zeros m) ≤ count n (keys m)
unfolding zeros count
count-zeros-le n [] = omega arith
count-zeros-le n ((j, d) ∷ m) = ground (arith, count-zeros-le n m)

pub count-zeros : (n : ℕ) (m : InDegree) → Once m → count n (zeros m) ≡ ready (get n m)
unfolding count zeros get
count-zeros n m once = go m (once n)
  where
    go : (m : InDegree) → count n (keys m) ≤ 1 → count n (zeros m) ≡ ready (get n m)
    go [] h = refl
    go ((j, zero) ∷ m) h = ground (arith, count-zeros-le n m, go m)
    go ((j, suc d) ∷ m) h = ground (arith, count-zeros-le n m, go m)
