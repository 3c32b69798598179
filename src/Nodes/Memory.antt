-- ===== src/Nodes/Memory.antt =====
-- crates/z8run-core/src/nodes/conversation_memory.rs: the store of conversations and the node's
-- four actions.
pub mod Executor
pub mod History
pub mod Valid
use Prim.Native.String.{◌++◌ as text_append}
use z8run.Base.{
  ℕ, ◌+◌, ◌-◌, ◌%◌, ◌^◌, ltb, String, Bool, true, false, Option, none, some, List, [], ◌∷◌, ◌++◌,
  length, drop, map, if◌then◌else◌, str_eq, is_some,
}
use z8run.Json.{Value, null, bool, number, string, array, object, Items, Fields, no_fields, entry}
use z8run.StringMap.{StringMap, get, put, delete}
use z8run.Message.{FlowMessage}
use z8run.Nodes.{Outside, output, error_output, get_field, as_str, as_u64, or_keep, items_of}

pub record ConversationData : Type 0 where
  pub messages : List Value
  pub created_at : ℕ
  pub updated_at : ℕ
  pub metadata : Value

-- `conversations`
abbrev pub Conversations : Type 0
Conversations = StringMap ConversationData

-- The fields of the node that the configuration sets.
pub record ConversationMemoryNode : Type 0 where
  pub name : String
  pub action : String
  pub max_messages : ℕ
  pub ttl_seconds : ℕ

-- `ConversationData::new` at the time `now`.
unfoldable pub new_conversation : (now : ℕ) → ConversationData
new_conversation now = record {
  messages = [];
  created_at = now;
  updated_at = now;
  metadata = object no_fields;
}

unfoldable pub append_message : (now : ℕ) → Value → ConversationData → ConversationData
append_message now message c = record c { messages = c.messages ++ message ∷ []; updated_at = now }

-- The sum of two `u64` wraps in a build without overflow checks.
unfoldable pub is_expired : (now ttl_seconds : ℕ) → ConversationData → Bool
is_expired now ttl_seconds c = ltb ((c.updated_at + ttl_seconds) % 2 ^ 64) now

abbrev pub first_str : List String → Value → Option String
first_str [] payload = none
first_str (field ∷ fields) payload = elim (as_str (get_field field payload)) [
  | some id ↦ some id
  | none ↦ first_str fields payload
]

unfoldable pub extract_conversation_id : Value → Option String
extract_conversation_id payload =
    first_str ("conversationId" ∷ "conversation_id" ∷ "sessionId" ∷ "session_id" ∷ "chatId" ∷ [])
      payload

unfoldable pub extract_message : Value → Value
extract_message payload =
    if is_some (get_field "role" payload)
    then payload
    else or_keep (get_field "message" payload) payload

unfoldable pub extract_metadata : Value → Value
extract_metadata payload = or_keep (get_field "metadata" payload) (object no_fields)

-- Metadata that are an object with an entry replace the conversation's.
abbrev pub update_metadata : (metadata : Value) → ConversationData → ConversationData
update_metadata (object (entry k v fs)) c = record c { metadata = object (entry k v fs) }
update_metadata _ c = c

-- `drain(0..excess)`
unfoldable pub trim : (max_messages : ℕ) → ConversationData → ConversationData
trim max_messages c =
    if ltb max_messages (length c.messages)
    then record c { messages = drop (length c.messages - max_messages) c.messages }
    else c

-- What a call reads: the message, and the clock in seconds when a conversation is new and when
-- the rest of the handler runs.
pub record Call : Type 0 where
  pub msg : FlowMessage
  pub outside : Outside
  pub created : ℕ
  pub now : ℕ

abbrev pub Reply : Type 0
Reply = List FlowMessage × Conversations

abbrev missing_id : String
missing_id =
    "Missing conversation ID in payload. Provide one of: conversationId, conversation_id, sessionId, session_id, chatId"

abbrev pub refuse : Call → Conversations → Reply
refuse c s = (error_output c.outside c.msg missing_id, s)

abbrev pub reply : Call → (port : String) → Fields → Conversations → Reply
reply c port fs s = (output c.outside 0 c.msg port (object fs) ∷ [], s)

-- The conversation after a message is saved; `old` is the one that is stored.
unfoldable pub saved_to : ConversationMemoryNode → Call → Option ConversationData → ConversationData
unfolding append_message new_conversation trim extract_message extract_metadata
saved_to n c old = trim n.max_messages (
    update_metadata (extract_metadata c.msg.payload) (
      append_message c.now (extract_message c.msg.payload)
        (or_keep old (new_conversation c.created))))

-- The fields that the replies have in common.
abbrev pub summary : (id : String) → ConversationData → Fields
summary id d = entry "conversationId" (string id) (
    entry "messageCount" (number (length d.messages))
      (entry "createdAt" (number d.created_at) (entry "updatedAt" (number d.updated_at) no_fields)))

abbrev pub save_to : Option String → ConversationMemoryNode → Call → Conversations → Reply
save_to none n c s = refuse c s
save_to (some id) n c s =
    let d = saved_to n c (get id s) in reply c "saved" (summary id d) (put id d s)

unfoldable pub handle_save : ConversationMemoryNode → Call → Conversations → Reply
unfolding get put saved_to extract_conversation_id
handle_save n c s = save_to (extract_conversation_id c.msg.payload) n c s

-- `Value::Null` in the place of the time 0.
abbrev pub time : ℕ → Value
time t = if ltb 0 t then number t else null

abbrev pub history : (id : String) → List Value → (created updated : Value) → Fields
history id messages created updated = entry "conversationId" (string id) (
    entry "messages" (array (items_of messages)) (
      entry "messageCount" (number (length messages))
        (entry "createdAt" created (entry "updatedAt" updated no_fields))))

abbrev pub load_found : (id : String) → Option ConversationData → Call → Conversations → Reply
load_found id none c s = reply c "history" (history id [] (time 0) (time 0)) s
load_found id (some d) c s =
    reply c "history" (history id d.messages (time d.created_at) (time d.updated_at)) s

-- Whether the conversation that is stored has expired.
abbrev pub stale : Option ConversationData → (ttl now : ℕ) → Bool
stale none ttl now = false
stale (some d) ttl now = is_expired now ttl d

abbrev pub load_from : Option String → ConversationMemoryNode → Call → Conversations → Reply
load_from none n c s = refuse c s
load_from (some id) n c s =
    if stale (get id s) n.ttl_seconds c.now
    then reply c "history" (history id [] null null) (delete id s)
    else load_found id (get id s) c s

unfoldable pub handle_load : ConversationMemoryNode → Call → Conversations → Reply
unfolding get delete is_expired extract_conversation_id
handle_load n c s = load_from (extract_conversation_id c.msg.payload) n c s

abbrev pub clear_in : Option String → Call → Conversations → Reply
clear_in none c s = refuse c s
clear_in (some id) c s =
    reply c "cleared"
      (entry "conversationId" (string id) (entry "cleared" (bool (is_some (get id s))) no_fields))
      (delete id s)

unfoldable pub handle_clear : ConversationMemoryNode → Call → Conversations → Reply
unfolding get delete extract_conversation_id
handle_clear n c s = clear_in (extract_conversation_id c.msg.payload) c s

-- The conversations are listed in the order of the map.
unfoldable pub handle_list : ConversationMemoryNode → Call → Conversations → Reply
handle_list n c s =
    reply c "listed"
      (entry "conversations" (array (items_of (map (λ e. object (summary e.0 e.1)) s)))
        (entry "total" (number (length s)) no_fields))
      s

unfoldable pub process : ConversationMemoryNode → Call → Conversations → Reply
unfolding handle_save handle_load handle_clear handle_list
process n c s =
    if str_eq n.action "save"
    then handle_save n c s
    else if str_eq n.action "load"
    then handle_load n c s
    else if str_eq n.action "clear"
    then handle_clear n c s
    else if str_eq n.action "list"
    then handle_list n c s
    else (
      error_output c.outside c.msg (
          text_append "Unknown conversation memory action: "
            (text_append n.action ". Expected 'save', 'load', 'clear', or 'list'")),
      s,
    )

unfoldable pub configure : Value → ConversationMemoryNode → ConversationMemoryNode
configure config n = record {
  name = or_keep (as_str (get_field "name" config)) n.name;
  action = or_keep (as_str (get_field "action" config)) n.action;
  max_messages = or_keep (as_u64 (get_field "maxMessages" config)) n.max_messages;
  ttl_seconds = or_keep (as_u64 (get_field "ttlSeconds" config)) n.ttl_seconds;
}

-- `create` of the factory: the node and the store, which is new for each executor.
unfoldable pub create : (config : Value) → ConversationMemoryNode × Conversations
unfolding configure
create config = (
  configure config (record { name = ""; action = "save"; max_messages = 50; ttl_seconds = 3600 }),
  [],
)

-- The payload of a reply.
abbrev pub first_payload : List FlowMessage → Value
first_payload [] = null
first_payload (m ∷ ms) = m.payload
