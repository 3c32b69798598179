-- ===== src/StringMap.antt =====
-- `std::collections::HashMap` with texts as keys, as the nodes and the storage use it: the list of
-- its entries.
pub mod Laws
use z8run.Base.{
  String, Bool, Option, none, some, List, [], ◌∷◌, if◌then◌else◌, str_eq, is_some, ◌≡◌,
}

abbrev pub StringMap {ℓ} : Type ℓ → Type ℓ
StringMap A = List (String × A)

module _ {ℓ} {A : Type ℓ} where
  -- `HashMap::get`
  unfoldable pub get : String → StringMap A → Option A
  get k [] = none
  get k ((j, v) ∷ m) = let rest = get k m in if str_eq j k then some v else rest

  -- `HashMap::insert`, and a change by `get_mut` or `entry`.
  unfoldable pub put : String → A → StringMap A → StringMap A
  put k v [] = (k, v) ∷ []
  put k v ((j, w) ∷ m) = let rest = put k v m in if str_eq j k then (j, v) ∷ m else (j, w) ∷ rest

  -- `HashMap::remove`
  unfoldable pub delete : String → StringMap A → StringMap A
  delete k [] = []
  delete k ((j, w) ∷ m) = let rest = delete k m in if str_eq j k then rest else (j, w) ∷ rest

  unfoldable pub contains_key : String → StringMap A → Bool
  contains_key k m = is_some (get k m)

  -- No key has two entries.
  unfoldable pub HasDistinctKeys : StringMap A → Type ℓ
  unfolding get
  HasDistinctKeys [] = Unit
  HasDistinctKeys ((k, v) ∷ m) = (get k m ≡ none) × HasDistinctKeys m
