-- ===== src/Base/Lists.antt =====
-- Lists over the native numbers: lengths, occurrences, filters by a Boolean test.
use Prim.Native.Nat.{ℕ, zero, suc, ◌+◌, ◌≤◌, ◌<◌}
use mathlib.Core.Path.{◌≡◌, refl, sym, subst}
use mathlib.Core.Bool.{Bool, true}
use mathlib.Core.Logic.{inl, inr}
use mathlib.Core.Option.{Option, none, some}
use mathlib.Core.List.{List, [], ◌∷◌, ◌++◌, Memᴰ}
use native.Mathlib.Omega.{arith}
use z8run.Base.Tests.{ltb, ◌==◌, if◌then◌else◌, Bool-cases}

module _ {ℓ} {A : Type ℓ} where
  abbrev pub length : List A → ℕ
  length [] = 0
  length (x ∷ xs) = suc (length xs)

  abbrev pub All {κ} : (A → Type κ) → List A → Type κ
  All P [] = Unit
  All P (x ∷ xs) = P x × All P xs

  -- `iter().filter(p)`
  unfoldable pub filter : (A → Bool) → List A → List A
  filter p [] = []
  filter p (x ∷ xs) = let rest = filter p xs in if p x then x ∷ rest else rest

  -- `iter().find(p)`
  unfoldable pub find : (A → Bool) → List A → Option A
  find p [] = none
  find p (x ∷ xs) = let rest = find p xs in if p x then some x else rest

  -- The first `n` elements, and those behind them.
  unfoldable pub take : ℕ → List A → List A
  take zero xs = []
  take (suc n) [] = []
  take (suc n) (x ∷ xs) = x ∷ take n xs

  unfoldable pub drop : ℕ → List A → List A
  drop zero xs = xs
  drop (suc n) [] = []
  drop (suc n) (x ∷ xs) = drop n xs

  pub All-map {κ μ} :
      {P : A → Type κ} {Q : A → Type μ}
      → ((a : A) → P a → Q a)
      → (xs : List A) → All P xs
      → All Q xs
  All-map f [] h = tt
  All-map f (x ∷ xs) h = (f x h.0, All-map f xs h.1)

  pub All_at {κ} : (P : A → Type κ) {x : A} (xs : List A) → All P xs → Memᴰ x xs → P x
  All_at P [] h m = elim m [ ]
  All_at P (y ∷ ys) h (Memᴰ.head e) = subst P (sym e) h.0
  All_at P (y ∷ ys) h (Memᴰ.tail m) = All_at P ys h.1 m

  pub All-tabulate {κ} : {P : A → Type κ} (xs : List A) → ((x : A) → Memᴰ x xs → P x) → All P xs
  All-tabulate [] f = tt
  All-tabulate (x ∷ xs) f = (f x (Memᴰ.head refl), All-tabulate xs (λ y m. f y (Memᴰ.tail m)))

  pub All-filter {κ μ} :
      (P : A → Type κ) (Q : A → Type μ) (p : A → Bool) (xs : List A)
      → ((x : A) → p x ≡ true → P x → Q x)
      → All P xs
      → All Q (filter p xs)
  unfolding filter
  All-filter P Q p [] f h = tt
  All-filter P Q p (x ∷ xs) f h =
      let rest = All-filter P Q p xs f h.1 in
      elim (Bool-cases (p x)) [ inl e ↦ rw e (f x e h.0, rest) | inr e ↦ rw e rest ]

  pub length-append : (xs ys : List A) → length (xs ++ ys) ≡ length xs + length ys
  length-append [] ys = omega arith
  length-append (x ∷ xs) ys = omega (arith, length-append xs ys)

-- How often a number occurs.
unfoldable pub count : ℕ → List ℕ → ℕ
count n [] = 0
count n (x ∷ xs) = (if x == n then 1 else 0) + count n xs

pub count-append : (n : ℕ) (xs ys : List ℕ) → count n (xs ++ ys) ≡ count n xs + count n ys
unfolding count
count-append n [] ys = omega arith
count-append n (x ∷ xs) ys = ground (arith, count-append n xs ys)

-- `contains`, for a set or a sequence of numbers.
unfoldable pub elem : ℕ → List ℕ → Bool
elem n xs = ltb 0 (count n xs)

-- The elements of a set that is collected from a sequence: each once.
unfoldable pub dedup : List ℕ → List ℕ
unfolding elem
dedup [] = []
dedup (x ∷ xs) = let rest = dedup xs in if elem x rest then rest else x ∷ rest

pub count-dedup : (n : ℕ) (xs : List ℕ) → count n (dedup xs) ≡ (if elem n xs then 1 else 0)
unfolding count elem dedup
count-dedup n [] = refl
count-dedup n (x ∷ xs) = ground (arith, count-dedup n xs, count-dedup x xs)

-- The list without the first occurrence of a number.
erase : ℕ → List ℕ → List ℕ
erase n [] = []
erase n (x ∷ xs) = let rest = erase n xs in if x == n then xs else x ∷ rest

count-erase :
    (n k : ℕ) (xs : List ℕ)
    → 0 < count n xs
    → count k xs ≡ (if n == k then 1 else 0) + count k (erase n xs)
unfolding count erase
count-erase n k [] h = absurd (omega arith)
count-erase n k (x ∷ xs) h = ground (arith, count-erase n k xs)

length-erase : (n : ℕ) (xs : List ℕ) → 0 < count n xs → length xs ≡ suc (length (erase n xs))
unfolding count erase
length-erase n [] h = absurd (omega arith)
length-erase n (x ∷ xs) h = ground (arith, length-erase n xs)

-- A list that holds each number at most as often as another is no longer.
pub length_mono : (xs ys : List ℕ) → ((n : ℕ) → count n xs ≤ count n ys) → length xs ≤ length ys
unfolding count
length_mono [] ys h = omega arith
length_mono (x ∷ xs) ys h =
    let here : 0 < count x ys = ground (arith, h x) in
    omega (
      arith,
      length-erase x ys here,
      length_mono xs (erase x ys) (λ n. ground (arith, h n, count-erase x n ys here)),
    )

-- A shorter count somewhere makes a shorter list.
pub length-lt :
    (k : ℕ) (xs ys : List ℕ)
    → ((n : ℕ) → count n xs ≤ count n ys)
    → count k xs < count k ys
    → length xs < length ys
unfolding count
length-lt k xs ys h lt = length_mono (k ∷ xs) ys (λ n. ground (arith, h n))

-- The position of the first occurrence; the length if there is none.
unfoldable pub index_of : ℕ → List ℕ → ℕ
index_of n [] = 0
index_of n (x ∷ xs) = let rest = index_of n xs in if x == n then 0 else suc rest
