-- ===== src/Message.antt =====
-- crates/z8run-core/src/message.rs: the messages that nodes exchange.
use z8run.Base.{ℕ, String}
use z8run.Json.{Value, Fields, no_fields, insert}
use z8run.Error.{Uuid}

pub record FlowMessage : Type 0 where
  pub id : Uuid
  pub payload : Value
  pub source_node : Uuid
  pub source_port : String
  pub timestamp : ℕ
  pub trace_id : Uuid
  pub metadata : Fields

-- `FlowMessage::new`; the fresh identifier and the time are arguments.
unfoldable pub new_message :
    (id : Uuid) (now : ℕ) (source_node : Uuid) (source_port : String) (payload : Value)
    → (trace_id : Uuid) → FlowMessage
new_message id now source_node source_port payload trace_id = record {
  id = id;
  payload = payload;
  source_node = source_node;
  source_port = source_port;
  timestamp = now;
  trace_id = trace_id;
  metadata = no_fields;
}

-- `Map::insert` overwrites the value of a key that is present.
unfoldable pub with_metadata : FlowMessage → String → Value → FlowMessage
with_metadata m k v = record m { metadata = insert k v m.metadata }

unfoldable pub derive : (id : Uuid) (now : ℕ) → FlowMessage → Uuid → String → Value → FlowMessage
unfolding new_message
derive id now m source_node source_port payload =
    new_message id now source_node source_port payload m.trace_id
