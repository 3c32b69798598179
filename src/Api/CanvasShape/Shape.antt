-- ===== src/Api/CanvasShape/Shape.antt =====
-- Which canvases `validate_canvas` lets through.
use z8run.Base.{
  ℕ, suc, String, Bool, true, false, not, ◌&&◌, Option, none, some, if◌then◌else◌, ◌≡◌, refl, sym,
  ap, ◌∙◌, ◌↔◌, subst,
}
use z8run.Json.{Value, object, Fields, Items, no_items, item}
use z8run.Nodes.{get_field, as_str, is_empty_text}
use z8run.Api.{ApiError, ApiResult, ok, err, ◌>>=◌, index}
use z8run.Api.CanvasShape.{
  is_object, has_text, or_field, check_node, check_edge, check_all, check_field, validate_canvas,
}

-- A text that is not empty.
abbrev pub IsText : Option Value → Type 0
IsText v = (s : String) × (v ≡ some (Value.string s)) × (is_empty_text s ≡ false)

abbrev pub IsNode : Value → Type 0
IsNode v =
    ((fs : Fields) × (v ≡ object fs))
    × IsText (get_field "id" v)
    × IsText (or_field (get_field "type" (index v "data")) (get_field "nodeType" (index v "data")))

abbrev pub IsEdge : Value → Type 0
IsEdge v = IsText (get_field "source" v) × IsText (get_field "target" v)

abbrev pub Each : (Value → Type 0) → Items → Type 0
Each P no_items = Unit
Each P (item v vs) = P v × Each P vs

-- A field that is absent, or an array of such values.
abbrev pub IsListOf : (Value → Type 0) → Option Value → Type 0
IsListOf P none = Unit
IsListOf P (some v) = (vs : Items) × (v ≡ Value.array vs) × Each P vs

abbrev pub Passes : ApiResult {0} Unit → Type 0
Passes r = r ≡ ok tt

not_inv : (b : Bool) → not b ≡ true → b ≡ false
not_inv false h = refl
not_inv true h = cc

array_inv : {vs ws : Items} → Value.array vs ≡ Value.array ws → vs ≡ ws
array_inv e = cc

IsText-iff : (v : Option Value) → (has_text (as_str v) ≡ true) ↔ IsText v
IsText-iff none = (λ h. cc, λ (s, e, h). cc)
IsText-iff (some Value.null) = (λ h. cc, λ (s, e, h). cc)
IsText-iff (some (Value.bool b)) = (λ h. cc, λ (s, e, h). cc)
IsText-iff (some (Value.number n)) = (λ h. cc, λ (s, e, h). cc)
IsText-iff (some (Value.string t)) =
    (λ h. (t, refl, not_inv _ h), λ (s, e, h). ap not (ap is_empty_text (cc) ∙ h))
IsText-iff (some (Value.array vs)) = (λ h. cc, λ (s, e, h). cc)
IsText-iff (some (Value.object fs)) = (λ h. cc, λ (s, e, h). cc)

object_iff : (v : Value) → (is_object v ≡ true) ↔ ((fs : Fields) × (v ≡ object fs))
object_iff Value.null = (λ h. cc, λ (s, e). cc)
object_iff (Value.bool b) = (λ h. cc, λ (s, e). cc)
object_iff (Value.number n) = (λ h. cc, λ (s, e). cc)
object_iff (Value.string t) = (λ h. cc, λ (s, e). cc)
object_iff (Value.array vs) = (λ h. cc, λ (s, e). cc)
object_iff (Value.object fs) = (λ h. (fs, refl), λ (s, e). refl)

module _ (x y z : ApiError) where
  guards :
      (a b c : Bool)
      → Passes (if not a then err x else if not b then err y else if not c then err z else ok tt)
      → (a ≡ true) × (b ≡ true) × (c ≡ true)
  guards false b c e = cc
  guards true false c e = cc
  guards true true false e = cc
  guards true true true e = (refl, refl, refl)

guard :
    (x : ApiError) (a b : Bool) → Passes (if a && b then ok tt else err x) → (a ≡ true) × (b ≡ true)
guard x false b e = cc
guard x true false e = cc
guard x true true e = (refl, refl)

module _ (digits : ℕ → String) where
  IsNode-iff : (i : ℕ) (v : Value) → Passes (check_node digits i v) ↔ IsNode v
  unfolding check_node
  IsNode-iff i v = (
    (λ e.
        let (a, b, c) = guards _ _ _ (is_object v) _ _ e in
        ((object_iff v).0 a, (IsText-iff _).0 b, (IsText-iff _).0 c)),
    (λ (a, b, c). rw ((object_iff v).1 a, (IsText-iff _).1 b, (IsText-iff _).1 c) refl),
  )

  IsEdge-iff : (i : ℕ) (v : Value) → Passes (check_edge digits i v) ↔ IsEdge v
  unfolding check_edge
  IsEdge-iff i v = (
    (λ e. let (a, b) = guard _ _ _ e in ((IsText-iff _).0 a, (IsText-iff _).0 b)),
    (λ (a, b). rw ((IsText-iff _).1 a, (IsText-iff _).1 b) refl),
  )

both_iff :
    (r : ApiResult {0} Unit) (next : Unit {0} → ApiResult {0} Unit)
    → Passes (r >>= next) ↔ (Passes r × Passes (next tt))
both_iff (err e) next = (λ h. cc, λ (h, k). cc)
both_iff (ok tt) next = (λ h. (refl, h), λ (h, k). k)

module _ (P : Value → Type 0) (check : ℕ → Value → ApiResult {0} Unit)
    (iff : (i : ℕ) (v : Value) → Passes (check i v) ↔ P v) where
  Each-iff :
      (digits : ℕ → String) (i : ℕ) (vs : Items) → Passes (check_all digits check i vs) ↔ Each P vs
  unfolding check_all
  Each-iff digits i no_items = (λ h. tt, λ h. refl)
  Each-iff digits i (item v vs) =
      let both = both_iff (check i v) (λ u. check_all digits check (suc i) vs) in
      let ih = Each-iff digits (suc i) vs in
      (
        (λ h. ((iff i v).0 (both.0 h).0, ih.0 (both.0 h).1)),
        (λ (p, ps). both.1 ((iff i v).1 p, ih.1 ps)),
      )

  field_iff :
      (digits : ℕ → String) (wrong : String) (v : Option Value)
      → Passes (check_field digits check wrong v) ↔ IsListOf P v
  field_iff digits wrong none = (λ h. tt, λ h. refl)
  field_iff digits wrong (some (Value.array vs)) = (
    (λ h. (vs, refl, (Each-iff digits 0 vs).0 h)),
    (λ (ws, e, h). (Each-iff digits 0 vs).1 (subst (Each P) (sym (array_inv e)) h)),
  )
  field_iff digits wrong (some _) = (λ h. cc, λ (ws, e, h). cc)

-- A canvas is let through exactly if its nodes and its edges are each absent or an array, every
-- node is an object with an identifier and a type that are not empty texts, the type at "type" or,
-- without that, at "nodeType" of its data, and every edge has a source and a target that are not
-- empty texts.
pub validate_canvas_iff :
    (digits : ℕ → String) (payload : Value)
    → (validate_canvas digits payload ≡ ok tt) ↔ (
        IsListOf IsNode (get_field "canvas_nodes" payload)
        × IsListOf IsEdge (get_field "canvas_edges" payload))
unfolding validate_canvas
validate_canvas_iff digits payload =
    let nodes = get_field "canvas_nodes" payload in
    let edges = get_field "canvas_edges" payload in
    let n =
      field_iff IsNode (check_node digits) (IsNode-iff digits) digits
        "'canvas_nodes' must be an array" nodes in
    let e =
      field_iff IsEdge (check_edge digits) (IsEdge-iff digits) digits
        "'canvas_edges' must be an array" edges in
    let both =
      both_iff (check_field digits (check_node digits) "'canvas_nodes' must be an array" nodes)
        (λ u. check_field digits (check_edge digits) "'canvas_edges' must be an array" edges) in
    ((λ h. (n.0 (both.0 h).0, e.0 (both.0 h).1)), (λ (p, q). both.1 (n.1 p, e.1 q)))
