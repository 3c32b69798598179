-- ===== src/TextSplitter/Fixed.antt =====
-- The chunks of `split_by_fixed`.
use z8run.Base.{
  ℕ, zero, suc, ◌+◌, ◌-◌, ◌≤◌, ◌<◌, ◌≡◌, ◌≢◌, refl, ap, sym, ◌∙◌, subst, ◌⊎◌, inl, inr, Bool, true,
  false, Option, none, some, some_inv, List, [], ◌∷◌, ◌++◌, length, ltb, leb, if◌then◌else◌,
  Bool-cases, All, Memᴰ, arith,
}
use z8run.Error.{ok}
use z8run.TextSplitter.{
  TextSplitterNode, validate, Chunk, slice, chunk_end, prepend, piece, fixed_from, split_by_fixed,
}

validate-ok : (node : TextSplitterNode) → validate node ≡ ok tt → node.overlap < node.chunk_size
unfolding validate
validate-ok node h = ground arith

module _ (is_utf8 : List ℕ → Bool) (bytes : List ℕ) (chunk_size overlap : ℕ) where
  -- A chunk is a text, the bytes between its positions, and not too long.
  pub record IsChunk (c : Chunk) : Type 0 where
    pub is_text : is_utf8 c.text ≡ true
    pub sliced : c.text ≡ slice c.start c.end_pos bytes
    pub within : c.end_pos ≤ length bytes
    pub short : c.end_pos ≤ c.start + chunk_size

  All-append : (xs ys : List Chunk) → All IsChunk xs → All IsChunk ys → All IsChunk (xs ++ ys)
  All-append [] ys h k = k
  All-append (x ∷ xs) ys h k = (h.0, All-append xs ys h.1 k)

  piece-IsChunk :
      (start : ℕ)
      → All IsChunk (piece is_utf8 bytes start (chunk_end chunk_size start (length bytes)))
  piece-IsChunk start =
      let e = chunk_end chunk_size start (length bytes) in
      elim (Bool-cases (is_utf8 (slice start e bytes))) [
        | inl on ↦ rw on (
          record { is_text = on; sliced = refl; within = ground arith; short = ground arith },
          tt,
        )
        | inr off ↦ rw off tt
      ]

  fixed_from_total :
      (fuel start : ℕ)
      → overlap < chunk_size
      → length bytes - start < fuel
      → (cs : List Chunk) × (fixed_from is_utf8 bytes chunk_size overlap fuel start ≡ some cs)
        × All IsChunk cs
  unfolding fixed_from
  fixed_from_total zero start o l = absurd (omega (arith, l))
  fixed_from_total (suc fuel) start o l = elim (Bool-cases (ltb start (length bytes))) [
    | inl more ↦
        rw more (go (fixed_from_total fuel (e - overlap) o) (Bool-cases (leb (length bytes) e)))
    | inr done ↦ rw done ([], refl, tt)
  ]
    where
      e : ℕ
      e = chunk_end chunk_size start (length bytes)

      ps : List Chunk
      ps = piece is_utf8 bytes start e

      rest : Option (List Chunk)
      rest = fixed_from is_utf8 bytes chunk_size overlap fuel (e - overlap)

      Total : Option (List Chunk) → Type 0
      Total r = (cs : List Chunk) × (r ≡ some cs) × All IsChunk cs

      go :
          (length bytes - (e - overlap) < fuel → Total rest)
          → (leb (length bytes) e ≡ true) ⊎ (leb (length bytes) e ≡ false)
          → Total (if leb (length bytes) e then some ps else prepend ps rest)
      go rec (inl last) = rw last (ps, refl, piece-IsChunk start)
      go rec (inr inside) =
          let (cs, same, good) = rec (ground arith) in
          rw inside (ps ++ cs, ap (prepend ps) same, All-append ps cs (piece-IsChunk start) good)

  -- A chunk that holds a position.
  Holds : ℕ → List Chunk → Type 0
  Holds p cs = (c : Chunk) × Memᴰ c cs × (c.start ≤ p) × (p < c.end_pos)

  Holds-append : (p : ℕ) (xs ys : List Chunk) → Holds p ys → Holds p (xs ++ ys)
  unfolding Holds
  Holds-append p [] ys h = h
  Holds-append p (x ∷ xs) ys h = let (c, m, l, u) = Holds-append p xs ys h in (c, Memᴰ.tail m, l, u)

  fixed_from_step :
      (fuel start : ℕ)
      → ((a b : ℕ) → is_utf8 (slice a b bytes) ≡ true)
      → start < length bytes
      → (chunk : Chunk) × (chunk.start ≡ start)
        × (chunk.end_pos ≡ chunk_end chunk_size start (length bytes))
        × (fixed_from is_utf8 bytes chunk_size overlap (suc fuel) start ≡ (
            if leb (length bytes) chunk.end_pos
            then some (chunk ∷ [])
            else prepend
                (chunk ∷ [])
                (fixed_from is_utf8 bytes chunk_size overlap fuel (chunk.end_pos - overlap))))
  unfolding fixed_from
  fixed_from_step fuel start valid more =
      let e = chunk_end chunk_size start (length bytes) in
      let on : ltb start (length bytes) ≡ true = ground (arith, more) in
      (
        record { text = slice start e bytes; start = start; end_pos = e },
        refl,
        refl,
        rw (on, valid start e) refl,
      )

  fixed_from_covers :
      (fuel start : ℕ) (cs : List Chunk)
      → ((a b : ℕ) → is_utf8 (slice a b bytes) ≡ true)
      → fixed_from is_utf8 bytes chunk_size overlap fuel start ≡ some cs
      → (p : ℕ) → start ≤ p
      → p < length bytes
      → Holds p cs
  unfolding fixed_from Holds
  fixed_from_covers zero start cs valid h p l u = cc
  fixed_from_covers (suc fuel) start cs valid h p l u =
      let (chunk, s, e, step) = fixed_from_step fuel start valid (omega (arith, l, u)) in
      go chunk s (Bool-cases (leb (length bytes) chunk.end_pos)) (Bool-cases (ltb p chunk.end_pos))
        (fixed_from is_utf8 bytes chunk_size overlap fuel (chunk.end_pos - overlap)) refl
        (sym step ∙ h)
        (λ ds same k. fixed_from_covers fuel (chunk.end_pos - overlap) ds valid same p k u)
    where
      none_some : none ≢ some cs
      none_some = λ h. cc

      go :
          (chunk : Chunk)
          → chunk.start ≡ start
          → (leb (length bytes) chunk.end_pos ≡ true) ⊎ (leb (length bytes) chunk.end_pos ≡ false)
          → (ltb p chunk.end_pos ≡ true) ⊎ (ltb p chunk.end_pos ≡ false)
          → (r : Option (List Chunk))
          → fixed_from is_utf8 bytes chunk_size overlap fuel (chunk.end_pos - overlap) ≡ r
          → (if leb (length bytes) chunk.end_pos then some (chunk ∷ []) else prepend (chunk ∷ []) r)
            ≡ some cs
          → ((ds : List Chunk)
              → fixed_from is_utf8 bytes chunk_size overlap fuel (chunk.end_pos - overlap) ≡ some ds
              → chunk.end_pos - overlap ≤ p
              → Holds p ds)
          → Holds p cs
      go chunk s (inl last) here r same h rec =
          subst (Holds p) (some_inv (rw last at h))
            (chunk, Memᴰ.head refl, omega (arith, s, l), ground arith)
      go chunk s (inr inside) here none same h rec = absurd (none_some (rw inside at h))
      go chunk s (inr inside) (inl here) (some ds) same h rec =
          subst (Holds p) (some_inv (rw inside at h))
            (chunk, Memᴰ.head refl, omega (arith, s, l), ground arith)
      go chunk s (inr inside) (inr beyond) (some ds) same h rec =
          subst (Holds p) (some_inv (rw inside at h))
            (Holds-append p (chunk ∷ []) ds (rec ds same (ground arith)))

-- With a configuration that `validate` accepts, splitting ends, and every chunk is a text that
-- consists of the bytes between its positions and is at most `chunk_size` bytes long.
pub split_by_fixed_total :
    (is_utf8 : List ℕ → Bool) (bytes : List ℕ) (node : TextSplitterNode)
    → validate node ≡ ok tt
    → (cs : List Chunk) × (split_by_fixed is_utf8 bytes node.chunk_size node.overlap ≡ some cs)
      × All (IsChunk is_utf8 bytes node.chunk_size node.overlap) cs
unfolding split_by_fixed
split_by_fixed_total is_utf8 bytes node v =
    fixed_from_total is_utf8 bytes node.chunk_size node.overlap (suc (length bytes)) 0
      (validate-ok node v) (omega arith)

-- If every slice of the text is a text by itself, every byte of it is in a chunk.
pub split_by_fixed_covers :
    (is_utf8 : List ℕ → Bool) (bytes : List ℕ) (chunk_size overlap : ℕ) (cs : List Chunk)
    → ((a b : ℕ) → is_utf8 (slice a b bytes) ≡ true)
    → split_by_fixed is_utf8 bytes chunk_size overlap ≡ some cs
    → (p : ℕ) → p < length bytes
    → (c : Chunk) × Memᴰ c cs × (c.start ≤ p) × (p < c.end_pos)
unfolding split_by_fixed Holds
split_by_fixed_covers is_utf8 bytes chunk_size overlap cs valid h p u =
    fixed_from_covers is_utf8 bytes chunk_size overlap (suc (length bytes)) 0 cs valid h p
      (omega arith) u

-- With an overlap of at least the chunk size, the loop over a text that is longer than a chunk
-- does not end: no fuel is enough.
pub split_by_fixed_loops :
    (is_utf8 : List ℕ → Bool) (bytes : List ℕ) (chunk_size overlap : ℕ)
    → chunk_size ≤ overlap
    → chunk_size < length bytes
    → (fuel : ℕ) → fixed_from is_utf8 bytes chunk_size overlap fuel 0 ≡ none
unfolding fixed_from
split_by_fixed_loops is_utf8 bytes chunk_size overlap large long zero = refl
split_by_fixed_loops is_utf8 bytes chunk_size overlap large long (suc fuel) =
    let rest = split_by_fixed_loops is_utf8 bytes chunk_size overlap large long fuel in
    let e : chunk_end chunk_size 0 (length bytes) ≡ chunk_size = ground (arith, long) in
    let back : chunk_size - overlap ≡ 0 = omega (arith, large) in
    let on : ltb 0 (length bytes) ≡ true = ground (arith, long) in
    let inside : leb (length bytes) chunk_size ≡ false = ground (arith, long) in
    rw (on, e, inside, back, rest) refl
