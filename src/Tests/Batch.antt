-- ===== src/Tests/Batch.antt =====
-- Five values in batches of two.
use z8run.Base.{map, some, List, [], ◌∷◌, ◌≡◌, refl, arith}
use z8run.Json.{Value, number, array, object, no_fields, entry, lookup}
use z8run.Error.{ok}
use z8run.Message.{FlowMessage}
use z8run.Nodes.{is_empty_text, get_field, list_of, items_of}
use z8run.Nodes.Batch.{BatchNode, extract_items, first_array, process, create, configure}
use z8run.Nodes.Batch.Chunks.{join, AreFull, data_of, process-Batches}
use z8run.Tests.Nodes.{outside, message}

abbrev pairs : BatchNode
pairs = record { name = "pairs"; size = 2; field = "" }

abbrev five : List Value
five = number 1 ∷ number 2 ∷ number 3 ∷ number 4 ∷ number 5 ∷ []

abbrev rows : FlowMessage
rows = message (object (entry "rows" (array (items_of five)) no_fields))

found : extract_items pairs rows.payload ≡ some five
unfolding extract_items is_empty_text get_field lookup first_array list_of items_of
found = refl

process-Batches_example :
    (outs : List FlowMessage) × (process pairs outside rows ≡ some (ok outs))
    × ((cs : List (List Value)) × (map data_of outs ≡ map some cs)
        × (join cs ≡ five)
        × AreFull 2 cs)
process-Batches_example = process-Batches pairs outside rows five (omega arith) found

-- A configuration can set the size to 0.
abbrev zero_size : Value
zero_size = object (entry "size" (number 0) no_fields)

size_is_zero : (create zero_size).size ≡ 0
unfolding create configure get_field lookup
size_is_zero = refl
