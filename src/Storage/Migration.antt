-- ===== src/Storage/Migration.antt =====
-- crates/z8run-storage/src/migration.rs: how the schema of the database is brought up to date. Of a
-- table the columns are modelled, not their types and constraints.
pub mod Scripts
pub mod Runner
pub mod Schemas
pub mod Stops
pub mod Resume
use Prim.Native.Nat.{Ordering}
use Prim.Native.String.{compare}
use z8run.Base.{
  ℕ, String, Bool, true, false, ◌&&◌, not, Option, none, some, List, [], ◌∷◌, ◌++◌, filter, find,
  if◌then◌else◌, str_eq, is_some,
}

pub record Table : Type 0 where
  pub name : String
  pub columns : List String

pub record Index : Type 0 where
  pub name : String
  pub on_table : String
  pub columns : List String

abbrev pub table : (name : String) (columns : List String) → Table
table name columns = record { name = name; columns = columns }

abbrev pub index_on : (name on_table : String) (columns : List String) → Index
index_on name on_table columns = record { name = name; on_table = on_table; columns = columns }

-- The tables and the indexes, which a database has in no order and which are kept by name here, and
-- the rows of schema_migrations.
pub record Schema : Type 0 where
  pub tables : List Table
  pub indexes : List Index
  pub applied : List ℕ

abbrev pub before : (a b : String) → Bool
before a b = elim (compare a b) [ Ordering.lt ↦ true | Ordering.eq ↦ false | Ordering.gt ↦ false ]

unfoldable pub put_table : Table → List Table → List Table
put_table t [] = t ∷ []
put_table t (u ∷ us) =
    let rest = put_table t us in if before t.name u.name then t ∷ u ∷ us else u ∷ rest

unfoldable pub put_index : Index → List Index → List Index
put_index i [] = i ∷ []
put_index i (j ∷ js) =
    let rest = put_index i js in if before i.name j.name then i ∷ j ∷ js else j ∷ rest

-- A Boolean says whether the statement has `IF NOT EXISTS`; the other two have it, or `IF EXISTS`,
-- always.
pub data Statement : Type 0 where
  create_table : (if_not_exists : Bool) → Table → Statement
  create_index : Index → Statement
  drop_table : (name : String) → Statement
  add_column : (if_not_exists : Bool) → (on_table column : String) → Statement

abbrev pub find_table : (name : String) → List Table → Option Table
find_table name tables = find (λ t. str_eq t.name name) tables

abbrev pub has_column : (column : String) → List String → Bool
has_column column columns = is_some (find (λ c. str_eq c column) columns)

abbrev pub has_columns : (wanted : List String) → List String → Bool
has_columns [] columns = true
has_columns (c ∷ cs) columns = has_column c columns && has_columns cs columns

abbrev pub with_column : (on_table column : String) → List Table → List Table
with_column on_table column [] = []
with_column on_table column (t ∷ ts) =
    let rest = with_column on_table column ts in
    if str_eq t.name on_table then table t.name (t.columns ++ column ∷ []) ∷ ts else t ∷ rest

abbrev pub create_or_keep : (if_not_exists : Bool) → Table → Schema → Option Table → Option Schema
create_or_keep true t s (some _) = some s
create_or_keep false t s (some _) = none
create_or_keep _ t s none = some (record s { tables = put_table t s.tables })

abbrev pub add_index : Index → Schema → Option Table → Option Schema
add_index i s none = none
add_index i s (some t) =
    if has_columns i.columns t.columns
    then some (record s { indexes = put_index i s.indexes })
    else none

abbrev pub add_to :
    (if_not_exists : Bool) → (column : String) → Schema → Option Table → Option Schema
add_to lenient column s none = none
add_to lenient column s (some t) =
    if has_column column t.columns
    then if lenient then some s else none
    else some (record s { tables = with_column t.name column s.tables })

-- What a statement does; `none` is the error of the database, which changes nothing. A table takes
-- its indexes with it.
unfoldable pub exec : Statement → Schema → Option Schema
unfolding put_table put_index
exec (create_table lenient t) s = create_or_keep lenient t s (find_table t.name s.tables)
exec (create_index i) s =
    if is_some (find (λ j. str_eq j.name i.name) s.indexes)
    then some s
    else add_index i s (find_table i.on_table s.tables)
exec (drop_table name) s = some (record s {
  tables = filter (λ t. not (str_eq t.name name)) s.tables;
  indexes = filter (λ i. not (str_eq i.on_table name)) s.indexes;
})
exec (add_column lenient on_table column) s = add_to lenient column s (find_table on_table s.tables)
