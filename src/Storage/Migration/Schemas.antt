-- ===== src/Storage/Migration/Schemas.antt =====
-- Whether two schemas are the same.
use z8run.Base.{
  String, Bool, true, false, ◌&&◌, List, [], ◌∷◌, ◌==◌, ==→≡, str_eq, eq_iff, ◌≡◌, refl,
}
use z8run.Storage.Migration.{Table, Index, Schema}

unfoldable pub same_list {ℓ} : {A : Type ℓ} → (A → A → Bool) → List A → List A → Bool
same_list same [] [] = true
same_list same [] (y ∷ ys) = false
same_list same (x ∷ xs) [] = false
same_list same (x ∷ xs) (y ∷ ys) = let rest = same_list same xs ys in same x y && rest

both : {a b : Bool} → (a && b) ≡ true → (a ≡ true) × (b ≡ true)
both {a = true} {b = true} e = (refl, refl)
both {a = true} {b = false} e = cc
both {a = false} {b = b} e = cc

same_list_sound {ℓ} :
    {A : Type ℓ} (same : A → A → Bool)
    → ((x y : A) → same x y ≡ true → x ≡ y)
    → (xs ys : List A) → same_list same xs ys ≡ true
    → xs ≡ ys
unfolding same_list
same_list_sound same h [] [] e = refl
same_list_sound same h [] (y ∷ ys) e = cc
same_list_sound same h (x ∷ xs) [] e = cc
same_list_sound same h (x ∷ xs) (y ∷ ys) e =
    let (first, rest) = both {a = same x y} e in
    let head = h x y first in let tail = same_list_sound same h xs ys rest in cc

texts : (xs ys : List String) → same_list (λ a b. str_eq a b) xs ys ≡ true → xs ≡ ys
texts = same_list_sound (λ a b. str_eq a b) (λ a b e. (eq_iff a b).0 e)

abbrev same_table : Table → Table → Bool
same_table a b = str_eq a.name b.name && same_list (λ a b. str_eq a b) a.columns b.columns

abbrev same_index : Index → Index → Bool
same_index a b =
    str_eq a.name b.name
    && (str_eq a.on_table b.on_table && same_list (λ a b. str_eq a b) a.columns b.columns)

same_table_sound : (a b : Table) → same_table a b ≡ true → a ≡ b
same_table_sound a b e =
    let (n, c) = both {a = str_eq a.name b.name} e in
    let name = (eq_iff a.name b.name).0 n in
    let columns = texts a.columns b.columns c in λ i. record { name = name i; columns = columns i }

same_index_sound : (a b : Index) → same_index a b ≡ true → a ≡ b
same_index_sound a b e =
    let (n, d) = both {a = str_eq a.name b.name} e in
    let (t, c) = both {a = str_eq a.on_table b.on_table} d in
    let name = (eq_iff a.name b.name).0 n in
    let on_table = (eq_iff a.on_table b.on_table).0 t in
    let columns = texts a.columns b.columns c in
    λ i. record { name = name i; on_table = on_table i; columns = columns i }

unfoldable pub same_schema : Schema → Schema → Bool
unfolding same_list
same_schema a b =
    same_list (λ m n. m == n) a.applied b.applied
    && (same_list same_index a.indexes b.indexes && same_list same_table a.tables b.tables)

pub same_schema_sound : (a b : Schema) → same_schema a b ≡ true → a ≡ b
unfolding same_schema
same_schema_sound a b e =
    let (v, f) = both {a = same_list (λ m n. m == n) a.applied b.applied} e in
    let (i, t) = both {a = same_list same_index a.indexes b.indexes} f in
    let applied = same_list_sound (λ m n. m == n) ==→≡ a.applied b.applied v in
    let indexes = same_list_sound same_index same_index_sound a.indexes b.indexes i in
    let tables = same_list_sound same_table same_table_sound a.tables b.tables t in
    λ k. record { tables = tables k; indexes = indexes k; applied = applied k }
