-- ===== src/Kahn/Start.antt =====
-- The state in which the loops of flow.rs start: the in-degrees and the queue read off them.
use z8run.Base.{
  ℕ, ◌<◌, ◌≡◌, refl, sym, ap, ◌∙◌, Bool, true, Option, none, some, List, [], ◌∷◌, map, count, elem,
  is_some, filter, if◌then◌else◌, ◌==◌, arith, Memᴰ,
}
use z8run.Error.{Uuid}
use z8run.Flow.{Edge, Flow}
use z8run.Kahn.{InDegree, HashOrder, get, seed, count_edges, zeros, in_degrees}
use z8run.Kahn.Counts.{Counted, into, waiting-nil}
use z8run.Kahn.Relax.{count-zeros-iter}
use z8run.Kahn.Degrees.{
  Once, keys, is_some-get, get-seed, get-count_edges, count-zeros, seed-Once, count_edges-Once,
  into-filter,
}
use z8run.Kahn.Loop.{Inv}

-- The entry of a node before the loop.
abbrev pub start_entry : (known : Bool) (incoming : ℕ) → Option ℕ
start_entry known incoming =
    if incoming == 0 then (if known then some 0 else none) else some incoming

pub get-count_filtered :
    (counts : Counted) (ids : List Uuid) (edges : List Edge) (n : ℕ)
    → get n (count_edges (filter counts edges) (seed ids))
      ≡ start_entry (elem n ids) (into counts n edges)
get-count_filtered counts ids edges n = ground (
  arith,
  get-count_edges n (filter counts edges) (seed ids),
  into-filter counts n edges,
  get-seed n ids,
)

pub get-in_degrees :
    (f : Flow) (n : ℕ)
    → get n (in_degrees f)
      ≡ start_entry (elem n (map (λ x. x.id) f.nodes)) (into (λ _. true) n f.edges)
unfolding in_degrees
get-in_degrees f n = ground (
  arith,
  get-count_edges n f.edges (seed (map (λ x. x.id) f.nodes)),
  get-seed n (map (λ x. x.id) f.nodes),
)

pub in_degrees-Once : (f : Flow) → Once (in_degrees f)
unfolding in_degrees
in_degrees-Once f = count_edges-Once f.edges _ (seed-Once (map (λ x. x.id) f.nodes))

pub into_pos :
    (counts : Counted) (e : Edge) (n : Uuid) (es : List Edge)
    → Memᴰ e es
    → counts e ≡ true
    → e.to_node ≡ n
    → 0 < into counts n es
unfolding into
into_pos counts e n [] m c t = elim m [ ]
into_pos counts e n (x ∷ es) (Memᴰ.head same) c t =
    ground (arith, sym (ap counts same) ∙ c, sym (ap (λ d. d.to_node) same) ∙ t)
into_pos counts e n (x ∷ es) (Memᴰ.tail m) c t = omega (arith, into_pos counts e n es m c t)

-- Whether a map has an entry.
abbrev pub has : InDegree → ℕ → Bool
has m n = is_some (get n m)

pub count-keys : (m : InDegree) (n : ℕ) → Once m → count n (keys m) ≡ (if has m n then 1 else 0)
unfolding elem
count-keys m n once = ground (arith, once n, is_some-get n m)

module _ (h : HashOrder) (counts : Counted) (ids : List Uuid) (edges : List Edge) (m : InDegree)
    (once : Once m)
    (entries : (n : ℕ) → get n m ≡ start_entry (elem n ids) (into counts n edges)) where
  pub start_lem : Inv counts edges (has m) m [] (zeros (h.iter m)) []
  unfolding count
  start_lem = record {
    exact = λ n. ground (
      arith,
      entries n,
      waiting-nil counts n edges,
      count-zeros-iter h n m,
      count-zeros n m once,
    );
    known = λ n. refl;
  }
