-- ===== src/Kahn/Counts.antt =====
-- How many edges of a flow, flow.rs, enter a node: all, and those whose source is still to come.
use z8run.Base.{
  ℕ, ◌+◌, ◌≤◌, ◌<◌, ◌≡◌, refl, Bool, true, ◌&&◌, List, [], ◌∷◌, ◌++◌, filter, count, count-append,
  All, if◌then◌else◌, ◌==◌, arith, inl, inr, Bool-cases,
}
use z8run.Error.{Uuid}
use z8run.Flow.{Edge, outgoing}

-- The edges that the in-degrees count.
abbrev pub Counted : Type 0
Counted = Edge → Bool

abbrev pub weight : Counted → Uuid → Edge → ℕ
weight counts n e = if counts e && e.to_node == n then 1 else 0

unfoldable pub into : Counted → Uuid → List Edge → ℕ
into counts n [] = 0
into counts n (e ∷ es) = weight counts n e + into counts n es

unfoldable pub waiting : Counted → Uuid → (seen : List Uuid) → List Edge → ℕ
waiting counts n seen [] = 0
waiting counts n seen (e ∷ es) =
    (if count e.from_node seen == 0 then weight counts n e else 0) + waiting counts n seen es

-- At first every counted edge is waited for.
pub waiting-nil :
    (counts : Counted) (n : Uuid) (es : List Edge) → waiting counts n [] es ≡ into counts n es
unfolding waiting into count
waiting-nil counts n [] = refl
waiting-nil counts n (e ∷ es) = ground (arith, waiting-nil counts n es)

-- The more nodes were seen, the less is waited for.
pub waiting_mono :
    (counts : Counted) (n : Uuid) (xs ys : List Uuid) (es : List Edge)
    → ((k : Uuid) → 0 < count k xs → 0 < count k ys)
    → waiting counts n ys es ≤ waiting counts n xs es
unfolding waiting
waiting_mono counts n xs ys [] h = omega arith
waiting_mono counts n xs ys (e ∷ es) h =
    ground (arith, h e.from_node, waiting_mono counts n xs ys es h)

-- Taking a new node off the queue accounts for its outgoing edges.
pub waiting-snoc :
    (counts : Counted) (n x : Uuid) (seen : List Uuid) (es : List Edge)
    → count x seen ≡ 0
    → waiting counts n seen es
      ≡ waiting counts n (seen ++ x ∷ []) es + into counts n (outgoing es x)
unfolding waiting into outgoing filter count
waiting-snoc counts n x seen [] h = refl
waiting-snoc counts n x seen (e ∷ es) h =
    ground (arith, waiting-snoc counts n x seen es h, count-append e.from_node seen (x ∷ []))

-- With nothing waited for, every counted edge into the node comes from a node that was seen.
pub waiting-zero :
    (counts : Counted) (n : Uuid) (seen : List Uuid) (es : List Edge)
    → waiting counts n seen es ≡ 0
    → All (λ e. counts e ≡ true → e.to_node ≡ n → 0 < count e.from_node seen) es
unfolding waiting
waiting-zero counts n seen [] h = tt
waiting-zero counts n seen (e ∷ es) h =
    (λ c t. ground arith, waiting-zero counts n seen es (ground arith))

-- What is waited for has a witness.
pub waiting_pos :
    (counts : Counted) (n : Uuid) (seen : List Uuid) (es : List Edge)
    → 0 < waiting counts n seen es
    → (P : Edge → Type 0) → All P es
    → (e : Edge) × P e × (counts e ≡ true) × (e.to_node ≡ n) × (count e.from_node seen ≡ 0)
unfolding waiting
waiting_pos counts n seen [] h P all = absurd (omega arith)
waiting_pos counts n seen (e ∷ es) h P all =
    let rest =
      λ (later : 0 < waiting counts n seen es). waiting_pos counts n seen es later P all.1 in
    elim (Bool-cases (count e.from_node seen == 0)) [
      | inl unseen ↦ elim (Bool-cases (counts e && e.to_node == n)) [
        | inl here ↦ (e, all.0, ground arith, ground arith, ground arith)
        | inr other ↦ rest (ground arith)
      ]
      | inr seen_before ↦ rest (ground arith)
    ]
