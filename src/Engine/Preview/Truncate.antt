-- ===== src/Engine/Preview/Truncate.antt =====
-- `truncate_utf8` and `truncate_redacted` of engine.rs: the sizes of previews.
use mathlib.Core.List.{append-nil}
use z8run.Base.{
  take, ℕ, zero, suc, ◌+◌, ◌≤◌, ◌≡◌, refl, ap, sym, ◌∙◌, String, true, List, [], ◌∷◌, ◌++◌, length,
  ltb, leb, ◌==◌, Bool-cases, ==→≡, inl, inr, arith,
}
use z8run.Json.{Value, Fields, no_fields, entry, insert}
use z8run.Engine.Preview.{
  boundary, is_char_boundary, back_up, truncate_utf8, fields_len, preview_value, take_fields,
  truncate_object,
}

back_up-boundary : (s : List ℕ) (end : ℕ) → boundary s (back_up s end) ≡ true
unfolding back_up
back_up-boundary s zero = refl
back_up-boundary s (suc end) = ground (arith, back_up-boundary s end)

back_up-le : (s : List ℕ) (end : ℕ) → back_up s end ≤ end
unfolding back_up
back_up-le s zero = omega arith
back_up-le s (suc end) = ground (arith, back_up-le s end)

back_up_longest : (s : List ℕ) (end k : ℕ) → k ≤ end → boundary s k ≡ true → k ≤ back_up s end
unfolding back_up
back_up_longest s zero k h b = h
back_up_longest s (suc end) k h b = elim (Bool-cases (k == suc end)) [
  | inl e ↦ ground (arith, b, ap (boundary s) (==→≡ k (suc end) e))
  | inr ne ↦ ground (arith, back_up-le s end, back_up_longest s end k (ground arith) b)
]

length-take : (n : ℕ) (s : List ℕ) → n ≤ length s → length (take n s) ≡ n
unfolding take
length-take zero s h = refl
length-take (suc n) [] h = absurd (omega arith)
length-take (suc n) (b ∷ s) h = ap suc (length-take n s (omega arith))

take-prefix : (n : ℕ) (s : List ℕ) → (rest : List ℕ) × (s ≡ take n s ++ rest)
unfolding take
take-prefix zero s = (s, refl)
take-prefix (suc n) [] = ([], refl)
take-prefix (suc n) (b ∷ s) = let (rest, e) = take-prefix n s in (rest, ap (λ l. b ∷ l) e)

boundary-length : (s : List ℕ) → boundary s (length s) ≡ true
unfolding boundary is_char_boundary
boundary-length [] = refl
boundary-length (b ∷ []) = refl
boundary-length (b ∷ c ∷ s) = boundary-length (c ∷ s)

-- A text cut to `max` bytes is a prefix of it, of at most `max` bytes, that ends on a character
-- boundary, and no boundary within `max` bytes is beyond its end.
pub truncate_utf8_lem :
    (s : List ℕ) (max : ℕ)
    → ((rest : List ℕ) × (s ≡ truncate_utf8 s max ++ rest))
      × (length (truncate_utf8 s max) ≤ max)
      × (boundary s (length (truncate_utf8 s max)) ≡ true)
      × ((k : ℕ) → k ≤ max → k ≤ length s → boundary s k ≡ true → k ≤ length (truncate_utf8 s max))
unfolding truncate_utf8
truncate_utf8_lem s max = elim (Bool-cases (leb (length s) max)) [
  | inl short ↦ rw short (([], sym (append-nil s)), ground arith, boundary-length s, λ k h i b. i)
  | inr long ↦
      let cut : length (take (back_up s max) s) ≡ back_up s max =
        length-take (back_up s max) s (ground (arith, back_up-le s max)) in
      rw long (
        take-prefix (back_up s max) s,
        omega (arith, cut, back_up-le s max),
        ap (boundary s) cut ∙ back_up-boundary s max,
        λ k h i b. omega (arith, cut, back_up_longest s max k h b),
      )
]

fields_len-insert :
    (k : String) (v : Value) (fs : Fields) → fields_len (insert k v fs) ≤ suc (fields_len fs)
unfolding fields_len insert
fields_len-insert k v no_fields = omega arith
fields_len-insert k v (entry j w fs) = ground (arith, fields_len-insert k v fs)

module _ (bytes : Value → List ℕ) (text : List ℕ → String) (more : ℕ → String) where
  take_fields-le :
      (n : ℕ) (fs preview : Fields)
      → fields_len (take_fields bytes text more n fs preview) ≤ n + fields_len preview
  unfolding take_fields
  take_fields-le zero fs preview = omega arith
  take_fields-le (suc n) no_fields preview = omega arith
  take_fields-le (suc n) (entry k v fs) preview = omega (
    arith,
    take_fields-le n fs (insert k (preview_value bytes text more v) preview),
    fields_len-insert k (preview_value bytes text more v) preview,
  )

  -- The preview of an object has at most eleven entries.
  pub truncate_object_bound : (fs : Fields) → fields_len (truncate_object bytes text more fs) ≤ 11
  unfolding truncate_object fields_len
  truncate_object_bound fs = elim (Bool-cases (ltb 10 (fields_len fs))) [
    | inl large ↦ rw large (
        omega (
          arith,
          take_fields-le 10 fs no_fields,
          fields_len-insert "_truncated" _ (take_fields bytes text more 10 fs no_fields),
        ))
    | inr small ↦ rw small (omega (arith, take_fields-le 10 fs no_fields))
  ]
