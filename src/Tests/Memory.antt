-- ===== src/Tests/Memory.antt =====
-- A conversation with two messages kept of three.
use z8run.Base.{ℕ, String, true, some, [], ◌∷◌, drop, keep_last, ◌≡◌, ◌-◌, ◌^◌, refl}
use z8run.Json.{Value, null, string, object, no_fields, entry, lookup}
use z8run.StringMap.{get, put, delete, HasDistinctKeys}
use z8run.Message.{derive, new_message}
use z8run.Nodes.{output, get_field, items_of}
use z8run.Nodes.Memory.{
  ConversationData, ConversationMemoryNode, Call, extract_conversation_id, extract_message,
  extract_metadata, append_message, new_conversation, trim, saved_to, is_expired, handle_save,
  handle_load, handle_clear, handle_list, process, configure, create,
}
use z8run.Nodes.Memory.History.{
  Calls, run, replay, step_talk, shown, expected, memory_refines, no_talks,
}
use z8run.Nodes.Memory.Executor.{serve}
use z8run.Nodes.Memory.Valid.{IsValid}
use z8run.Tests.Nodes.{outside, message}

abbrev say : (text : String) (now : ℕ) → Call
say text now = record {
  msg = message (object (entry "chatId" (string "a") (entry "message" (string text) no_fields)));
  outside = outside;
  created = now;
  now = now;
}

abbrev memory : ConversationMemoryNode
memory = record { name = "m"; action = "load"; max_messages = 2; ttl_seconds = 60 }

abbrev talk : Calls
talk = ("save", say "one" 1) ∷ ("save", say "two" 2) ∷ ("save", say "three" 3) ∷ []

runs : Unit {0}
unfolding get put delete run replay step_talk process handle_save handle_load handle_clear
    handle_list extract_conversation_id extract_message extract_metadata append_message
    new_conversation trim saved_to is_expired get_field lookup keep_last drop output derive
    new_message items_of HasDistinctKeys IsValid configure create serve
runs = tt

two_left : shown (get "a" (run memory talk [])) ≡ some (string "two" ∷ string "three" ∷ [], 3)
unfolding runs
two_left = refl

memory_refines_example :
    shown (get "a" (run memory talk [])) ≡ expected 2 (replay memory talk no_talks "a")
memory_refines_example = memory_refines memory talk "a"

abbrev fresh_conversation : ConversationData
fresh_conversation = record { messages = []; created_at = 5; updated_at = 100; metadata = null }

-- The largest time to live that a configuration can ask for: a conversation that was updated in
-- this second has expired.
deadline_wraps : is_expired 100 (2 ^ 64 - 1) fresh_conversation ≡ true
unfolding is_expired
deadline_wraps = refl

abbrev load_config : Value
load_config = object (entry "action" (string "load") no_fields)
