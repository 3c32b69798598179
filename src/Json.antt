-- ===== src/Json.antt =====
-- The shape of `serde_json::Value`, on which the nodes and the engine match.
-- A number is only carried along, so it is a token; an object is the list of its entries.
use z8run.Base.{
  ℕ, String, Bool, Option, none, some, if◌then◌else◌, str_eq, eq_iff, ◌≡◌, refl, arith,
}

mutual
  pub data Items : Type 0 where
    no_items : Items
    item : Value → Items → Items

  pub data Fields : Type 0 where
    no_fields : Fields
    entry : (key : String) → Value → Fields → Fields

  pub data Value : Type 0 where
    null : Value
    bool : Bool → Value
    number : (token : ℕ) → Value
    string : String → Value
    array : Items → Value
    object : Fields → Value

-- `Map::get`
unfoldable pub lookup : String → Fields → Option Value
lookup k no_fields = none
lookup k (entry j v fs) = let rest = lookup k fs in if str_eq j k then some v else rest

-- `Map::insert`: the value of a key that is present is replaced, else the entry is new.
unfoldable pub insert : String → Value → Fields → Fields
insert k v no_fields = entry k v no_fields
insert k v (entry j w fs) =
    let rest = insert k v fs in if str_eq j k then entry j v fs else entry j w rest

-- `Map::remove`, which leaves no entry of the key.
unfoldable pub remove : String → Fields → Fields
remove k no_fields = no_fields
remove k (entry j w fs) = let rest = remove k fs in if str_eq j k then rest else entry j w rest

-- The lookup of another key passes an insertion by.
pub lookup-insert :
    (k j : String) (v : Value) (fs : Fields)
    → lookup j (insert k v fs) ≡ (if str_eq k j then some v else lookup j fs)
unfolding lookup insert
lookup-insert k j v no_fields = refl
lookup-insert k j v (entry i w fs) =
    ground (arith, eq_iff k j, eq_iff i k, eq_iff i j, lookup-insert k j v fs)

pub lookup-remove : (k : String) (fs : Fields) → lookup k (remove k fs) ≡ none
unfolding lookup remove
lookup-remove k no_fields = refl
lookup-remove k (entry i w fs) = ground (arith, lookup-remove k fs)
