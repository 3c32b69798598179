-- ===== src/Tests/Paths.antt =====
-- JSON paths on a small object.
use z8run.Base.{ℕ, ◌≡◌, refl, String, Option, none, [], ◌∷◌}
use z8run.Json.{null, string, object, Fields, no_fields, entry, lookup, insert}
use z8run.JsonPath.{split_dots, set_fields, json_path_set}

abbrev no_index : String → Option ℕ
no_index s = none

abbrev person : Fields
person = entry "name" (string "x") (entry "age" null no_fields)

splits : split_dots "a.b" ≡ ("a", "b" ∷ [])
unfolding split_dots
splits = refl

creates_objects :
    json_path_set (object no_fields) "user.name" null
    ≡ object (entry "user" (object (entry "name" null no_fields)) no_fields)
unfolding json_path_set set_fields insert split_dots lookup
creates_objects = refl
