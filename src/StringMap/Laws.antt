-- ===== src/StringMap/Laws.antt =====
-- The laws of a map with texts as keys, and what holds of all its values.
use z8run.Base.{
  String, Option, none, some, [], ◌∷◌, if◌then◌else◌, str_eq, eq_iff, ◌≡◌, refl, sym, ap, ◌∙◌, Bool,
  filter, arith, Bool-cases, inl, inr,
}
use z8run.StringMap.{StringMap, get, put, delete, HasDistinctKeys}

module _ {ℓ} {A : Type ℓ} where
  pub get-put :
      (k j : String) (v : A) (m : StringMap A)
      → get j (put k v m) ≡ (if str_eq k j then some v else get j m)
  unfolding get put
  get-put k j v [] = refl
  get-put k j v ((i, w) ∷ m) = ground (arith, eq_iff k j, eq_iff i k, eq_iff i j, get-put k j v m)

  pub get-put_self : (k : String) (v : A) (m : StringMap A) → get k (put k v m) ≡ some v
  get-put_self k v m = get-put k k v m ∙ rw ((eq_iff k k).1 refl) refl

  pub get-delete :
      (k j : String) (m : StringMap A) → get j (delete k m) ≡ (if str_eq k j then none else get j m)
  unfolding get delete
  get-delete k j [] = ground (arith)
  get-delete k j ((i, w) ∷ m) = ground (arith, eq_iff k j, eq_iff i k, eq_iff i j, get-delete k j m)

  pub put-HasDistinctKeys :
      (k : String) (v : A) (m : StringMap A) → HasDistinctKeys m → HasDistinctKeys (put k v m)
  unfolding put HasDistinctKeys get
  put-HasDistinctKeys k v [] h = (refl, tt)
  put-HasDistinctKeys k v ((j, w) ∷ m) h =
      let rest = put-HasDistinctKeys k v m h.1 in
      elim (Bool-cases (str_eq j k)) [
        | inl e ↦ rw e h
        | inr e ↦ rw e (ground (arith, h.0, e, get-put k j v m, eq_iff k j, eq_iff j k), rest)
      ]

  pub delete-HasDistinctKeys :
      (k : String) (m : StringMap A) → HasDistinctKeys m → HasDistinctKeys (delete k m)
  unfolding delete HasDistinctKeys get
  delete-HasDistinctKeys k [] h = tt
  delete-HasDistinctKeys k ((j, w) ∷ m) h =
      let rest = delete-HasDistinctKeys k m h.1 in
      elim (Bool-cases (str_eq j k)) [
        | inl e ↦ rw e rest
        | inr e ↦ rw e (ground (arith, h.0, e, get-delete k j m, eq_iff k j, eq_iff j k), rest)
      ]

  -- What a `retain` by the values leaves, where each key has one entry.
  abbrev pub kept : (A → Bool) → Option A → Option A
  kept p none = none
  kept p (some v) = if p v then some v else none

  pub get-filter :
      (p : A → Bool) (k : String) (m : StringMap A)
      → HasDistinctKeys m
      → get k (filter (λ e. p e.1) m) ≡ kept p (get k m)
  unfolding get filter HasDistinctKeys
  get-filter p k [] h = refl
  get-filter p k ((j, v) ∷ m) h =
      let rest = get-filter p k m h.1 in
      elim (Bool-cases (str_eq j k)) [
        | inl e ↦
            let absent : get k m ≡ none = ap (λ i. get i m) (sym ((eq_iff j k).0 e)) ∙ h.0 in
            elim (Bool-cases (p v)) [
              | inl f ↦ rw (f, e, f) refl
              | inr f ↦ rw (f, e, f) ((rest ∙ ap (kept p) absent))
            ]
        | inr e ↦ elim (Bool-cases (p v)) [ inl f ↦ rw (f, e) rest | inr f ↦ rw (f, e) rest ]
      ]
