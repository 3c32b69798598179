-- ===== src/Nodes/Batch.antt =====
-- crates/z8run-core/src/nodes/batch.rs: an array is sent in chunks.
pub mod Chunks
use z8run.Base.{
  ℕ, zero, suc, ◌+◌, String, not, Option, none, some, List, [], ◌∷◌, length, take, drop,
  if◌then◌else◌, ◌==◌,
}
use z8run.Json.{Value, number, array, object, Items, Fields, no_fields, entry}
use z8run.Error.{Z8Result, ok, err, internal}
use z8run.Message.{FlowMessage}
use z8run.Nodes.{
  get_field, as_str, as_u64, is_empty_text, or_keep, items_of, list_of, Outside, output,
}

pub record BatchNode : Type 0 where
  pub name : String
  pub size : ℕ
  pub field : String

abbrev pub array_of : Option Value → Option (List Value)
array_of (some (array items)) = some (list_of items)
array_of _ = none

-- The first key with an array.
unfoldable pub first_array : Value → (keys : List String) → Option (List Value)
first_array v [] = none
first_array v (k ∷ ks) = elim (array_of (get_field k v)) [
  | some items ↦ some items
  | none ↦ first_array v ks
]

abbrev pub direct_or_common : Value → Option (List Value) → Option (List Value)
direct_or_common v (some items) = some items
direct_or_common v none = first_array v ("rows" ∷ "data" ∷ "results" ∷ "items" ∷ [])

abbrev pub of_field_or : Value → Option (List Value) → Option (List Value)
of_field_or v (some items) = some items
of_field_or v none = direct_or_common v (array_of (some v))

unfoldable pub extract_items : BatchNode → Value → Option (List Value)
unfolding first_array
extract_items n v =
    of_field_or v (if not (is_empty_text n.field) then array_of (get_field n.field v) else none)

-- `slice::chunks` for a size that is not 0, which the number of elements is enough fuel for.
unfoldable pub chunks_from : (fuel size : ℕ) → List Value → List (List Value)
chunks_from zero size xs = []
chunks_from (suc fuel) size [] = []
chunks_from (suc fuel) size (x ∷ xs) =
    take size (x ∷ xs) ∷ chunks_from fuel size (drop size (x ∷ xs))

-- `none` is the panic of `chunks` at 0.
unfoldable pub chunks : (size : ℕ) → List Value → Option (List (List Value))
unfolding chunks_from
chunks size items = if size == 0 then none else some (chunks_from (length items) size items)

unfoldable pub batch_payload : (index total total_items : ℕ) → List Value → Value
batch_payload index total total_items chunk = object (
    entry "data" (array (items_of chunk)) (
      entry "batch_index" (number index) (
        entry "batch_total" (number total) (
          entry "batch_size" (number (length chunk))
            (entry "total_items" (number total_items) no_fields)))))

-- The loop over the chunks, the first of which has the given index.
unfoldable pub outputs_from :
    Outside → FlowMessage → (index total total_items : ℕ) → List (List Value) → List FlowMessage
unfolding batch_payload
outputs_from w m index total total_items [] = []
outputs_from w m index total total_items (c ∷ cs) =
    output w index m "output" (batch_payload index total total_items c)
    ∷ outputs_from w m (suc index) total total_items cs

abbrev pub batches :
    Outside
    → FlowMessage
    → (items : List Value) → Option (List (List Value))
    → Option (Z8Result (List FlowMessage))
batches w m items none = none
batches w m items (some cs) = some (ok (outputs_from w m 0 (length cs) (length items) cs))

abbrev pub batched :
    BatchNode → Outside → FlowMessage → Option (List Value) → Option (Z8Result (List FlowMessage))
batched n w m none =
    some (err (internal "Batch expects an array in the payload or in the configured field"))
batched n w m (some items) = batches w m items (chunks n.size items)

-- `none` is a panic.
unfoldable pub process : BatchNode → Outside → FlowMessage → Option (Z8Result (List FlowMessage))
unfolding chunks extract_items outputs_from
process n w m = batched n w m (extract_items n m.payload)

unfoldable pub configure : Value → BatchNode → BatchNode
configure config n = record {
  name = or_keep (as_str (get_field "name" config)) n.name;
  size = or_keep (as_u64 (get_field "size" config)) n.size;
  field = or_keep (as_str (get_field "field" config)) n.field;
}

unfoldable pub validate : BatchNode → Z8Result {0} Unit
validate n = if n.size == 0 then err (internal "Batch size must be greater than 0") else ok tt

-- `create` of the factory.
unfoldable pub create : (config : Value) → BatchNode
unfolding configure
create config = configure config (record { name = ""; size = 100; field = "" })
