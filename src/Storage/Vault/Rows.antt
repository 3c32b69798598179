-- ===== src/Storage/Vault/Rows.antt =====
-- The rows of the table of credentials: one for each user and key.
use Prim.Native.Nat.{max}
use z8run.Base.{
  ◌+◌, ◌≤◌, String, Bool, true, false, not, Option, none, some, List, [], ◌∷◌, map, filter, find,
  if◌then◌else◌, ◌==◌, str_eq, eq_iff, passing, ◌≡◌, refl, ap, ◌∙◌, arith, Bool-cases, inl, inr,
}
use z8run.Error.{Uuid}
use z8run.Storage.Vault.{Bytes, Credential, same_key, owns, upsert, insert_by, sort_by}

-- What a query for a row returns.
abbrev pub sealed : Option Credential → Option (Bytes × Bytes)
sealed none = none
sealed (some r) = some (r.encrypted_value, r.nonce)

pub same_key_left :
    (u : Uuid) (k : String) (v : Uuid) (l : String) (w : Uuid) (m : String)
    → same_key u k v l ≡ true
    → same_key u k w m ≡ same_key v l w m
same_key_left u k v l w m h = ground (arith, h, eq_iff k l, eq_iff k m, eq_iff l m)

-- A row that does not have a key is not found under it.
apart :
    (u : Uuid) (k : String) (v : Uuid) (l : String) (r : Credential)
    → same_key u k v l ≡ true
    → owns u k r ≡ false
    → owns v l r ≡ false
unfolding owns
apart u k v l r h e = ground (arith, h, e, eq_iff k l, eq_iff r.key k, eq_iff r.key l)

pub sealed-upsert :
    (u : Uuid) (k : String) (row : Credential) (rows : List Credential)
    → sealed (find (owns u k) (upsert row rows)) ≡ (
        if owns u k row
        then some (row.encrypted_value, row.nonce)
        else sealed (find (owns u k) rows))
unfolding upsert find owns
sealed-upsert u k row [] = ground (arith)
sealed-upsert u k row (r ∷ rows) =
    let rest = sealed-upsert u k row rows in
    elim (Bool-cases (owns row.user_id row.key r)) [
      | inl e ↦
          let same = same_key_left r.user_id r.key row.user_id row.key u k e in
          elim (Bool-cases (owns u k row)) [
            | inl f ↦ rw (e, same, f) refl
            | inr f ↦ rw (e, same, f) refl
          ]
      | inr e ↦ elim (Bool-cases (owns u k row)) [
        | inl f ↦ rw (e, apart row.user_id row.key u k r f e, rest, f) refl
        | inr f ↦ elim (Bool-cases (owns u k r)) [
          | inl g ↦ rw (e, g, f) refl
          | inr g ↦ rw (e, g, rest, f) refl
        ]
      ]
    ]

pub passing-upsert :
    (u : Uuid) (k : String) (row : Credential) (rows : List Credential)
    → passing (owns u k) (upsert row rows)
      ≡ (if owns u k row then max 1 (passing (owns u k) rows) else passing (owns u k) rows)
unfolding upsert passing owns
passing-upsert u k row [] = ground (arith)
passing-upsert u k row (r ∷ rows) =
    let rest = passing-upsert u k row rows in
    elim (Bool-cases (owns row.user_id row.key r)) [
      | inl e ↦
          let same = same_key_left r.user_id r.key row.user_id row.key u k e in
          elim (Bool-cases (owns u k row)) [
            | inl f ↦ rw (e, same, f) (omega arith)
            | inr f ↦ rw (e, same, f) refl
          ]
      | inr e ↦ elim (Bool-cases (owns u k row)) [
        | inl f ↦ rw (e, apart row.user_id row.key u k r f e, rest, f) (omega arith)
        | inr f ↦ rw (e, rest, f) refl
      ]
    ]

pub find-delete :
    (u v : Uuid) (k l : String) (rows : List Credential)
    → find (owns v l) (filter (λ r. not (owns u k r)) rows)
      ≡ (if same_key u k v l then none else find (owns v l) rows)
unfolding find filter owns
find-delete u v k l [] = ground (arith)
find-delete u v k l (r ∷ rows) =
    let rest = find-delete u v k l rows in
    elim (Bool-cases (owns u k r)) [
      | inl e ↦
          let same = same_key_left r.user_id r.key u k v l e in
          elim (Bool-cases (same_key u k v l)) [
            | inl f ↦ rw (e, rest, f) refl
            | inr f ↦ rw (e, rest, f, same, f) refl
          ]
      | inr e ↦ elim (Bool-cases (same_key u k v l)) [
        | inl f ↦ rw (e, apart u k v l r f e, rest, f) refl
        | inr f ↦ rw (e, rest, f) refl
      ]
    ]

pub passing-filter_le :
    (u : Uuid) (k : String) (q : Credential → Bool) (rows : List Credential)
    → passing (owns u k) (filter q rows) ≤ passing (owns u k) rows
unfolding passing filter
passing-filter_le u k q [] = omega arith
passing-filter_le u k q (r ∷ rows) = ground (arith, passing-filter_le u k q rows)

-- The keys of a user are the keys of its rows.
pub passing-keys :
    (u : Uuid) (k : String) (rows : List Credential)
    → passing (λ j. str_eq j k) (map (λ r. r.key) (filter (λ r. r.user_id == u) rows))
      ≡ passing (owns u k) rows
unfolding passing filter owns
passing-keys u k [] = refl
passing-keys u k (r ∷ rows) =
    let rest = passing-keys u k rows in
    elim (Bool-cases (r.user_id == u)) [
      | inl e ↦ rw (e, rest) refl
      | inr e ↦ rw (e, rest) (omega arith)
    ]

passing-insert_by :
    (before : String → String → Bool) (p : String → Bool) (k : String) (ks : List String)
    → passing p (insert_by before k ks) ≡ passing p (k ∷ ks)
unfolding passing insert_by
passing-insert_by before p k [] = refl
passing-insert_by before p k (j ∷ ks) =
    let rest = passing-insert_by before p k ks in
    elim (Bool-cases (before k j)) [ inl e ↦ rw e refl | inr e ↦ rw (e, rest) (omega arith) ]

pub passing-sort_by :
    (before : String → String → Bool) (p : String → Bool) (ks : List String)
    → passing p (sort_by before ks) ≡ passing p ks
unfolding passing sort_by
passing-sort_by before p [] = refl
passing-sort_by before p (k ∷ ks) =
    passing-insert_by before p k (sort_by before ks)
    ∙ ap (λ n. (if p k then 1 else 0) + n) (passing-sort_by before p ks)

-- Neighbours are in order.
abbrev pub IsSorted : (before : String → String → Bool) → List String → Type 0
IsSorted before [] = Unit
IsSorted before (k ∷ []) = Unit
IsSorted before (k ∷ j ∷ ks) = (before k j ≡ true) × IsSorted before (j ∷ ks)

insert_by-IsSorted :
    (before : String → String → Bool)
    → ((a b : String) → before a b ≡ false → before b a ≡ true)
    → (k : String) (ks : List String) → IsSorted before ks
    → IsSorted before (insert_by before k ks)
unfolding insert_by
insert_by-IsSorted before total k [] h = tt
insert_by-IsSorted before total k (j ∷ []) h = elim (Bool-cases (before k j)) [
  | inl e ↦ rw e (e, tt)
  | inr e ↦ rw e (total k j e, tt)
]
insert_by-IsSorted before total k (j ∷ i ∷ ks) h =
    let rest = insert_by-IsSorted before total k (i ∷ ks) h.1 in
    elim (Bool-cases (before k j)) [
      | inl e ↦ rw e (e, h)
      | inr e ↦ elim (Bool-cases (before k i)) [
        | inl f ↦ rw (e, f) (total k j e, (f, h.1))
        | inr f ↦ rw (e, f) (h.0, rw f at rest)
      ]
    ]

pub sort_by-IsSorted :
    (before : String → String → Bool)
    → ((a b : String) → before a b ≡ false → before b a ≡ true)
    → (ks : List String) → IsSorted before (sort_by before ks)
unfolding sort_by
sort_by-IsSorted before total [] = tt
sort_by-IsSorted before total (k ∷ ks) =
    insert_by-IsSorted before total k (sort_by before ks) (sort_by-IsSorted before total ks)
