-- ===== src/Egress/Body.antt =====
-- The cap on response bodies of egress.rs.
use mathlib.Core.List.{append-nil, append_assoc}
use z8run.Base.{
  subst, some_inv, ℕ, ◌+◌, ◌≤◌, ◌≡◌, refl, sym, ap, ◌∙◌, inl, inr, false, Option, none, some, List,
  [], ◌∷◌, ◌++◌, length, length-append, ltb, Bool-cases, arith,
}
use z8run.Egress.{EgressResult, allowed, refused, read_chunks, read_bytes, declared_too_large}

-- The body that the chunks carry, where none of them fails.
abbrev after_chunk : List ℕ → Option (List ℕ) → Option (List ℕ)
after_chunk chunk none = none
after_chunk chunk (some body) = some (chunk ++ body)

unfoldable pub arrived : List (EgressResult (List ℕ)) → Option (List ℕ)
arrived [] = some []
arrived (refused e ∷ chunks) = none
arrived (allowed chunk ∷ chunks) = after_chunk chunk (arrived chunks)

after_chunk-append :
    (a b : List ℕ) (o : Option (List ℕ)) → after_chunk (a ++ b) o ≡ after_chunk a (after_chunk b o)
after_chunk-append a b none = refl
after_chunk-append a b (some body) = ap some (append_assoc a b body)

allowed_inv : {a b : List ℕ} → allowed a ≡ allowed b → a ≡ b
allowed_inv {a} e = ap (λ r. elim r [ allowed x ↦ x | refused x ↦ a ]) e

module _ (max : ℕ) where
  read_chunks_sound :
      (chunks : List (EgressResult (List ℕ))) (acc body : List ℕ)
      → length acc ≤ max
      → read_chunks max chunks acc ≡ allowed body
      → (length body ≤ max) × (after_chunk acc (arrived chunks) ≡ some body)
  unfolding read_chunks arrived
  read_chunks_sound [] acc body l =
      λ h. (subst (λ b. length b ≤ max) (allowed_inv h) l, ap some (append-nil acc ∙ allowed_inv h))
  read_chunks_sound (refused e ∷ chunks) acc body l = λ h. cc
  read_chunks_sound (allowed chunk ∷ chunks) acc body l =
      elim (Bool-cases (ltb max (length acc + length chunk))) [
        | inl big ↦ rw big (λ h. cc)
        | inr fits ↦ rw fits (λ h.
            let r =
              read_chunks_sound chunks (acc ++ chunk) body (ground (arith, length-append acc chunk))
                h in
            (r.0, sym (after_chunk-append acc chunk (arrived chunks)) ∙ r.1))
      ]

  read_chunks_complete :
      (chunks : List (EgressResult (List ℕ))) (acc body : List ℕ)
      → length body ≤ max
      → after_chunk acc (arrived chunks) ≡ some body
      → read_chunks max chunks acc ≡ allowed body
  unfolding read_chunks arrived
  read_chunks_complete [] acc body l h = ap allowed (sym (append-nil acc) ∙ some_inv h)
  read_chunks_complete (refused e ∷ chunks) acc body l h = cc
  read_chunks_complete (allowed chunk ∷ chunks) acc body l h =
      let same = after_chunk-append acc chunk (arrived chunks) ∙ h in
      rw (fits (arrived chunks) same) (read_chunks_complete chunks (acc ++ chunk) body l same)
    where
      fits :
          (o : Option (List ℕ))
          → after_chunk (acc ++ chunk) o ≡ some body
          → ltb max (length acc + length chunk) ≡ false
      fits none e = cc
      fits (some tail) e = ground (
        arith,
        length-append acc chunk,
        length-append (acc ++ chunk) tail,
        ap length (some_inv e),
      )

-- A body that is read is the whole body, of at most `max` bytes; and a body of at most `max` bytes
-- that arrives, with no greater length declared, is read.
pub read_bytes_lem :
    (max : ℕ) (len : Option ℕ) (chunks : List (EgressResult (List ℕ))) (body : List ℕ)
    → (read_bytes max len chunks ≡ allowed body
        → (length body ≤ max) × (arrived chunks ≡ some body))
      × (declared_too_large max len ≡ false
          → arrived chunks ≡ some body
          → length body ≤ max
          → read_bytes max len chunks ≡ allowed body)
unfolding read_bytes
read_bytes_lem max len chunks body = elim (Bool-cases (declared_too_large max len)) [
  | inl big ↦ rw big ((λ h. cc), (λ c. cc))
  | inr fits ↦ rw fits (
    (λ h.
        let r = read_chunks_sound max chunks [] body (omega arith) h in
        (r.0, sym (after_nothing (arrived chunks)) ∙ r.1)),
    λ c a l. read_chunks_complete max chunks [] body l (after_nothing (arrived chunks) ∙ a),
  )
]
  where
    after_nothing : (o : Option (List ℕ)) → after_chunk [] o ≡ o
    after_nothing none = refl
    after_nothing (some b) = refl
