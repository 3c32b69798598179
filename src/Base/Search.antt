-- ===== src/Base/Search.antt =====
-- The first element that passes a test, and how many pass it.
use Prim.Native.Nat.{ℕ, ◌+◌, ◌≤◌}
use mathlib.Core.Path.{◌≡◌, refl}
use mathlib.Core.Bool.{Bool, true, false}
use mathlib.Core.Logic.{inl, inr}
use mathlib.Core.Option.{none, some}
use mathlib.Core.List.{List, [], ◌∷◌, ◌++◌}
use native.Mathlib.Omega.{arith}
use z8run.Base.Tests.{Bool-cases, if◌then◌else◌}
use z8run.Base.Lists.{filter, find}

module _ {ℓ} {A : Type ℓ} (p : A → Bool) where
  -- How many elements pass.
  unfoldable pub passing : List A → ℕ
  passing [] = 0
  passing (x ∷ xs) = (if p x then 1 else 0) + passing xs

  pub passing-append : (xs ys : List A) → passing (xs ++ ys) ≡ passing xs + passing ys
  unfolding passing
  passing-append [] ys = omega arith
  passing-append (x ∷ xs) ys = ground (arith, passing-append xs ys)

  pub passing-find-none : (xs : List A) → find p xs ≡ none → passing xs ≡ 0
  unfolding passing find
  passing-find-none [] e = refl
  passing-find-none (x ∷ xs) e = ground (arith, passing-find-none xs)

  pub passing-find-some : (y : A) (xs : List A) → find p xs ≡ some y → 1 ≤ passing xs
  unfolding passing find
  passing-find-some y [] e = cc
  passing-find-some y (x ∷ xs) e = ground (arith, passing-find-some y xs)

  pub find-passing : (xs : List A) → passing xs ≡ 0 → find p xs ≡ none
  unfolding passing find
  find-passing [] e = refl
  find-passing (x ∷ xs) e = ground (arith, find-passing xs)

  pub find-append_none : (xs ys : List A) → find p xs ≡ none → find p (xs ++ ys) ≡ find p ys
  unfolding find
  find-append_none [] ys e = refl
  find-append_none (x ∷ xs) ys e = ground (arith, find-append_none xs ys)

  pub find-append_none_after : (xs ys : List A) → find p ys ≡ none → find p (xs ++ ys) ≡ find p xs
  unfolding find
  find-append_none_after [] ys e = e
  find-append_none_after (x ∷ xs) ys e = ground (arith, find-append_none_after xs ys e)

  -- A filter that lets every element through that passes does not change what is found.
  pub find-filter :
      (q : A → Bool) (xs : List A)
      → ((x : A) → p x ≡ true → q x ≡ true)
      → find p (filter q xs) ≡ find p xs
  unfolding find filter
  find-filter q [] h = refl
  find-filter q (x ∷ xs) h =
      let rest = find-filter q xs h in
      elim (Bool-cases (q x)) [
        | inl e ↦ rw (e, rest) refl
        | inr e ↦ elim (Bool-cases (p x)) [ inl f ↦ let no = h x f in cc | inr f ↦ rw (e, f) rest ]
      ]

  -- One that stops every element that passes leaves nothing to be found.
  pub find-filter-none :
      (q : A → Bool) (xs : List A)
      → ((x : A) → p x ≡ true → q x ≡ false)
      → find p (filter q xs) ≡ none
  unfolding find filter
  find-filter-none q [] h = refl
  find-filter-none q (x ∷ xs) h =
      let rest = find-filter-none q xs h in
      elim (Bool-cases (q x)) [
        | inl e ↦ elim (Bool-cases (p x)) [ inl f ↦ let no = h x f in cc | inr f ↦ rw (e, f) rest ]
        | inr e ↦ rw e rest
      ]
