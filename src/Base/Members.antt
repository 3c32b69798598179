-- ===== src/Base/Members.antt =====
-- What is in a list that was filtered.
use mathlib.Core.Path.{◌≡◌, sym, ap, ◌∙◌}
use mathlib.Core.Bool.{Bool, true, false}
use mathlib.Core.Logic.{◌⊎◌, inl, inr}
use mathlib.Core.List.{List, [], ◌∷◌, Memᴰ}
use z8run.Base.Tests.{Bool-cases}
use z8run.Base.Lists.{filter}

module _ {ℓ} {A : Type ℓ} (p : A → Bool) (x : A) where
  pub Mem-filter : (xs : List A) → Memᴰ x (filter p xs) → Memᴰ x xs × (p x ≡ true)
  unfolding filter
  Mem-filter [] m = elim m [ ]
  Mem-filter (y ∷ ys) m = go (Mem-filter ys) (Bool-cases (p y))
    where
      first :
          p y ≡ true
          → (Memᴰ x (filter p ys) → Memᴰ x ys × (p x ≡ true))
          → Memᴰ x (y ∷ filter p ys)
          → Memᴰ x (y ∷ ys) × (p x ≡ true)
      first e rest (Memᴰ.head same) = (Memᴰ.head same, ap p same ∙ e)
      first e rest (Memᴰ.tail k) = let (i, h) = rest k in (Memᴰ.tail i, h)

      go :
          (Memᴰ x (filter p ys) → Memᴰ x ys × (p x ≡ true))
          → (p y ≡ true) ⊎ (p y ≡ false)
          → Memᴰ x (y ∷ ys) × (p x ≡ true)
      go rest (inl e) = first e rest (rw e at m)
      go rest (inr e) = let (i, h) = rest (rw e at m) in (Memᴰ.tail i, h)

  pub filter-Mem : (xs : List A) → Memᴰ x xs → p x ≡ true → Memᴰ x (filter p xs)
  unfolding filter
  filter-Mem [] m h = elim m [ ]
  filter-Mem (y ∷ ys) (Memᴰ.head same) h = rw (sym (ap p same) ∙ h) (Memᴰ.head same)
  filter-Mem (y ∷ ys) (Memᴰ.tail m) h =
      let rest = filter-Mem ys m h in
      elim (Bool-cases (p y)) [ inl e ↦ rw e (Memᴰ.tail rest) | inr e ↦ rw e rest ]
