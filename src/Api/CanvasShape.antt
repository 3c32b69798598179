-- ===== src/Api/CanvasShape.antt =====
-- `validate_canvas` of crates/z8run-api/src/routes.rs: the shape of a canvas that is saved.
pub mod Shape
use Prim.Native.String.{◌++◌ as text_append}
use z8run.Base.{
  ℕ, suc, String, Bool, true, false, not, ◌&&◌, Option, none, some, if◌then◌else◌, is_some,
}
use z8run.Json.{Value, object, Items, no_items, item}
use z8run.Nodes.{get_field, as_str, is_empty_text}
use z8run.Api.{ApiError, ApiResult, ok, err, ◌>>=◌, bad_request, index, str_of, unwrap_or}

abbrev pub is_object : Value → Bool
is_object (object fs) = true
is_object _ = false

abbrev pub has_text : Option String → Bool
has_text none = false
has_text (some s) = not (is_empty_text s)

abbrev pub or_field : Option Value → Option Value → Option Value
or_field none b = b
or_field (some a) b = some a

-- `{i}` of an index is a parameter.
module _ (digits : ℕ → String) where
  unfoldable pub check_node : ℕ → Value → ApiResult {0} Unit
  unfolding get_field is_empty_text index
  check_node i node =
      let data_of = index node "data" in
      if not (is_object node)
      then err (
          bad_request
            (text_append "canvas node at index " (text_append (digits i) " must be an object")))
      else if not (has_text (as_str (get_field "id" node)))
      then err (
          bad_request (
            text_append "canvas node at index "
              (text_append (digits i) " is missing a non-empty string 'id'")))
      else if not
          (has_text (as_str (or_field (get_field "type" data_of) (get_field "nodeType" data_of))))
      then err (
          bad_request (
            text_append "canvas node '" (
              text_append (unwrap_or "?" (str_of (index node "id")))
                "' is missing a string 'data.type'")))
      else ok tt

  unfoldable pub check_edge : ℕ → Value → ApiResult {0} Unit
  unfolding get_field is_empty_text
  check_edge i edge =
      if has_text (as_str (get_field "source" edge)) && has_text (as_str (get_field "target" edge))
      then ok tt
      else err (
          bad_request (
            text_append "canvas edge at index "
              (text_append (digits i) " must have string 'source' and 'target'")))

  unfoldable pub check_all : (ℕ → Value → ApiResult {0} Unit) → ℕ → Items → ApiResult {0} Unit
  check_all check i no_items = ok tt
  check_all check i (item v vs) = check i v >>= (λ _. check_all check (suc i) vs)

  -- A field that is present is an array, and all its items pass.
  abbrev pub check_field :
      (check : ℕ → Value → ApiResult {0} Unit)
      → (wrong : String) → Option Value
      → ApiResult {0} Unit
  check_field check wrong none = ok tt
  check_field check wrong (some (Value.array vs)) = check_all check 0 vs
  check_field check wrong (some _) = err (bad_request wrong)

  unfoldable pub validate_canvas : Value → ApiResult {0} Unit
  unfolding check_node check_edge check_all get_field
  validate_canvas payload = do
    nodes ←
        check_field check_node "'canvas_nodes' must be an array" (get_field "canvas_nodes" payload)
    check_field check_edge "'canvas_edges' must be an array" (get_field "canvas_edges" payload)
