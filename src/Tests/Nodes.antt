-- ===== src/Tests/Nodes.antt =====
-- Conversations and tickets of small executors.
use z8run.Base.{some, ◌≡◌, refl}
use z8run.Json.{Value, number, string, object, no_fields, entry, lookup}
use z8run.Message.{FlowMessage}
use z8run.Nodes.{Outside}

abbrev pub outside : Outside
outside = record { fresh = λ n. n; millis = 7 }

abbrev pub message : Value → FlowMessage
message payload = record {
  id = 1;
  payload = payload;
  source_node = 2;
  source_port = "in";
  timestamp = 0;
  trace_id = 3;
  metadata = no_fields;
}

abbrev status : Value
status = object (entry "error" (string "old") (entry "code" (number 429) no_fields))

failure_carries :
    lookup "code" (entry "error" (string "x") (entry "code" (number 429) no_fields))
    ≡ some (number 429)
unfolding lookup
failure_carries = refl
