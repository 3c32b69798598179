-- ===== src/Base/Slices.antt =====
-- Parts of a list by position: lengths, sums of positions, the last elements.
use Prim.Native.Nat.{ℕ, zero, suc, ◌+◌, ◌-◌, ◌≤◌, ◌<◌}
use mathlib.Core.Path.{◌≡◌, refl, ap, sym}
use mathlib.Core.Logic.{inl, inr}
use mathlib.Core.List.{List, [], ◌∷◌, ◌++◌}
use native.Mathlib.Omega.{arith}
use z8run.Base.Tests.{leb, Bool-cases}
use z8run.Base.Lists.{length, take, drop, length-append}

module _ {ℓ} {A : Type ℓ} where
  pub length-drop : (n : ℕ) (xs : List A) → length (drop n xs) ≡ length xs - n
  unfolding drop
  length-drop zero xs = omega arith
  length-drop (suc n) [] = omega arith
  length-drop (suc n) (x ∷ xs) = omega (arith, length-drop n xs)

  pub drop-add : (n k m : ℕ) (xs : List A) → m ≡ k + n → drop n (drop k xs) ≡ drop m xs
  unfolding drop
  drop-add n zero m xs h = let same : m ≡ n = omega arith in ap (λ j. drop j xs) (sym same)
  drop-add n (suc k) zero xs h = absurd (omega arith)
  drop-add zero (suc k) (suc m) [] h = refl
  drop-add (suc n) (suc k) (suc m) [] h = refl
  drop-add n (suc k) (suc m) (x ∷ xs) h = drop-add n k m xs (omega arith)

  pub drop-append : (k : ℕ) (xs ys : List A) → k ≤ length xs → drop k (xs ++ ys) ≡ drop k xs ++ ys
  unfolding drop
  drop-append zero xs ys h = refl
  drop-append (suc k) [] ys h = absurd (omega arith)
  drop-append (suc k) (x ∷ xs) ys h = drop-append k xs ys (omega arith)

  pub take-drop : (n : ℕ) (xs : List A) → take n xs ++ drop n xs ≡ xs
  unfolding take drop
  take-drop zero xs = refl
  take-drop (suc n) [] = refl
  take-drop (suc n) (x ∷ xs) = ap (λ ys. x ∷ ys) (take-drop n xs)

  -- The last `n` elements.
  unfoldable pub keep_last : ℕ → List A → List A
  keep_last n xs = drop (length xs - n) xs

  pub length-keep_last : (n : ℕ) (xs : List A) → length (keep_last n xs) ≤ n
  unfolding keep_last
  length-keep_last n xs = omega (arith, length-drop (length xs - n) xs)

  pub keep_last_all : (n : ℕ) (xs : List A) → length xs ≤ n → keep_last n xs ≡ xs
  unfolding keep_last drop
  keep_last_all n xs h = let none_over : length xs - n ≡ 0 = omega arith in rw none_over refl

  -- What has been cut off does not come back when an element is added.
  pub keep_last-snoc :
      (n : ℕ) (xs : List A) (y : A)
      → keep_last n (keep_last n xs ++ y ∷ []) ≡ keep_last n (xs ++ y ∷ [])
  unfolding keep_last
  keep_last-snoc n xs y = elim (Bool-cases (leb (length xs) n)) [
    | inl e ↦
        let few : length xs ≤ n = ground arith in
        ap (λ zs. keep_last n (zs ++ y ∷ [])) (keep_last_all n xs few)
    | inr e ↦
        let k = length xs - n in
        let many : n < length xs = ground arith in
        let kept : length (drop k xs ++ y ∷ []) - n ≡ 1 =
          omega (arith, length-append (drop k xs) (y ∷ []), length-drop k xs) in
        let whole : length (xs ++ y ∷ []) - n ≡ k + 1 = omega (arith, length-append xs (y ∷ [])) in
        let cut : drop k (xs ++ y ∷ []) ≡ drop k xs ++ y ∷ [] =
          drop-append k xs (y ∷ []) (omega arith) in
        rw (kept, whole, sym cut, drop-add 1 k (k + 1) (xs ++ y ∷ []) refl) refl
  ]
