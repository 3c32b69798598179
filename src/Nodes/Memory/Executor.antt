-- ===== src/Nodes/Memory/Executor.antt =====
-- What an executor that the factory made can answer.
use z8run.Base.{String, true, false, Option, none, some, List, [], ◌∷◌, str_eq, ◌≡◌, refl}
use z8run.Json.{Value, array, no_items, lookup}
use z8run.StringMap.{get}
use z8run.Message.{derive, new_message}
use z8run.Nodes.{get_field, items_of, output}
use z8run.Nodes.Memory.{
  Conversations, ConversationMemoryNode, Call, extract_conversation_id, first_payload, handle_load,
  process, create,
}

-- The calls that one executor serves.
unfoldable pub serve : ConversationMemoryNode → List Call → Conversations → Conversations
serve n [] s = s
serve n (c ∷ cs) s = serve n cs (process n c s).1

load_nothing :
    (n : ConversationMemoryNode) (c : Call) (id : Option String)
    → extract_conversation_id c.msg.payload ≡ id
    → (handle_load n c []).1 ≡ []
unfolding handle_load get
load_nothing n c none e = rw e refl
load_nothing n c (some id) e = rw e refl

process_nothing :
    (n : ConversationMemoryNode) (c : Call) → n.action ≡ "load" → (process n c []).1 ≡ []
unfolding process
process_nothing n c e =
    let save : str_eq n.action "save" ≡ false = rw e refl in
    let load : str_eq n.action "load" ≡ true = rw e refl in
    rw (save, load) (load_nothing n c (extract_conversation_id c.msg.payload) refl)

serve_nothing :
    (n : ConversationMemoryNode) (cs : List Call) → n.action ≡ "load" → serve n cs [] ≡ []
unfolding serve
serve_nothing n [] e = refl
serve_nothing n (c ∷ cs) e = rw (process_nothing n c e) (serve_nothing n cs e)

-- The store of an executor is its own: one whose action is "load" finds no message in any
-- conversation, whatever it has been asked before.
pub create-forgets :
    (config : Value) (cs : List Call) (c : Call) (id : String)
    → (create config).0.action ≡ "load"
    → extract_conversation_id c.msg.payload ≡ some id
    → let (n, s) = create config in
      get_field "messages" (first_payload (process n c (serve n cs s)).0) ≡ some (array no_items)
unfolding create process handle_load get get_field lookup output derive new_message items_of
create-forgets config cs c id a e = rw (serve_nothing (create config).0 cs a, a, e) refl
