-- ===== src/Nodes/Memory/History.antt =====
-- The store of conversations against the whole history of what was saved.
use z8run.Base.{
  ℕ, ◌+◌, ◌%◌, ◌^◌, ltb, String, Bool, false, Option, none, some, List, [], ◌∷◌, ◌++◌, length,
  keep_last, keep_last_all, keep_last-snoc, if◌then◌else◌, str_eq, ◌≡◌, refl, sym, ap, ◌∙◌, arith,
  Bool-cases, inl, inr,
}
use z8run.Json.{Value, null, array, object, no_fields, entry, lookup}
use z8run.StringMap.{get, delete}
use z8run.StringMap.Laws.{get-put, get-delete}
use z8run.Message.{derive, new_message}
use z8run.Nodes.{get_field, items_of, output, or_keep}
use z8run.Nodes.Memory.{
  ConversationData, Conversations, ConversationMemoryNode, Call, extract_conversation_id,
  extract_message, extract_metadata, update_metadata, append_message, new_conversation, trim,
  is_expired, first_payload, stale, saved_to, load_from, handle_save, handle_load, handle_clear,
  handle_list, process,
}

-- All that was said in a conversation, and when the last message came.
pub record Talk : Type 0 where
  pub said : List Value
  pub since : ℕ

abbrev pub Talks : Type 0
Talks = String → Option Talk

abbrev said_of : Option Talk → List Value
said_of none = []
said_of (some t) = t.said

abbrev over : (ttl now : ℕ) → Option Talk → Bool
over ttl now none = false
over ttl now (some t) = ltb ((t.since + ttl) % 2 ^ 64) now

abbrev set : String → Option Talk → Talks → Talks
set id t ts = λ j. if str_eq id j then t else ts j

-- What the four actions do to the histories.
abbrev save_talk : Option String → Call → Talks → Talks
save_talk none c ts = ts
save_talk (some id) c ts =
    set id
      (some
        (record { said = said_of (ts id) ++ extract_message c.msg.payload ∷ []; since = c.now }))
      ts

abbrev load_talk : Option String → (ttl : ℕ) → Call → Talks → Talks
load_talk none ttl c ts = ts
load_talk (some id) ttl c ts = if over ttl c.now (ts id) then set id none ts else ts

abbrev clear_talk : Option String → Talks → Talks
clear_talk none ts = ts
clear_talk (some id) ts = set id none ts

unfoldable pub step_talk : (action : String) (ttl : ℕ) → Call → Talks → Talks
step_talk action ttl c ts =
    let id = extract_conversation_id c.msg.payload in
    if str_eq action "save"
    then save_talk id c ts
    else if str_eq action "load"
    then load_talk id ttl c ts
    else if str_eq action "clear"
    then clear_talk id ts
    else ts

-- A sequence of calls with their actions, on the store and on the histories.
abbrev pub Calls : Type 0
Calls = List (String × Call)

unfoldable pub run : ConversationMemoryNode → Calls → Conversations → Conversations
run n [] s = s
run n ((action, c) ∷ cs) s = run n cs (process (record n { action = action }) c s).1

unfoldable pub replay : ConversationMemoryNode → Calls → Talks → Talks
replay n [] ts = ts
replay n ((action, c) ∷ cs) ts = replay n cs (step_talk action n.ttl_seconds c ts)

-- What a conversation shows, and what it should.
abbrev pub shown : Option ConversationData → Option (List Value × ℕ)
shown none = none
shown (some d) = some (d.messages, d.updated_at)

abbrev pub expected : (max : ℕ) → Option Talk → Option (List Value × ℕ)
expected max none = none
expected max (some t) = some (keep_last max t.said, t.since)

-- The store holds the ends of the histories.
pub Holds : ConversationMemoryNode → Conversations → Talks → Type 0
Holds n s ts = (id : String) → shown (get id s) ≡ expected n.max_messages (ts id)

trim_keeps :
    (max : ℕ) (d : ConversationData)
    → shown (some (trim max d)) ≡ some (keep_last max d.messages, d.updated_at)
unfolding trim keep_last
trim_keeps max d = elim (Bool-cases (ltb max (length d.messages))) [
  | inl e ↦ rw e refl
  | inr e ↦ rw (e, keep_last_all max d.messages (ground (arith, e))) refl
]

metadata_keeps :
    (v : Value) (d : ConversationData) → shown (some (update_metadata v d)) ≡ shown (some d)
metadata_keeps null d = refl
metadata_keeps (Value.bool b) d = refl
metadata_keeps (Value.number n) d = refl
metadata_keeps (Value.string t) d = refl
metadata_keeps (array vs) d = refl
metadata_keeps (object no_fields) d = refl
metadata_keeps (object (entry k v fs)) d = refl

messages_of : Option (List Value × ℕ) → List Value
messages_of none = []
messages_of (some p) = p.0

since_of : Option (List Value × ℕ) → ℕ
since_of none = 0
since_of (some p) = p.1

old_messages :
    (max now : ℕ) (old : Option ConversationData) (t : Option Talk)
    → shown old ≡ expected max t
    → (or_keep old (new_conversation now)).messages ≡ keep_last max (said_of t)
unfolding new_conversation messages_of
old_messages max now none none e = sym (keep_last_all max [] (ground arith))
old_messages max now none (some t) e = cc
old_messages max now (some d) none e = cc
old_messages max now (some d) (some t) e = ap messages_of e

saved_keeps :
    (n : ConversationMemoryNode) (c : Call) (old : Option ConversationData) (t : Option Talk)
    → shown old ≡ expected n.max_messages t
    → shown (some (saved_to n c old))
      ≡ expected n.max_messages
          (some (record { said = said_of t ++ extract_message c.msg.payload ∷ []; since = c.now }))
unfolding saved_to append_message messages_of since_of
saved_keeps n c old t e =
    let max = n.max_messages in
    let m = extract_message c.msg.payload in
    let d = append_message c.now m (or_keep old (new_conversation c.created)) in
    let u = update_metadata (extract_metadata c.msg.payload) d in
    let same = metadata_keeps (extract_metadata c.msg.payload) d in
    let texts : keep_last max u.messages ≡ keep_last max (said_of t ++ m ∷ []) =
      ap (λ ms. keep_last max ms) (ap messages_of same)
      ∙ ap (λ ms. keep_last max (ms ++ m ∷ [])) (old_messages max c.created old t e)
      ∙ keep_last-snoc max (said_of t) m in
    trim_keeps max u
    ∙ ap (λ ms. some (ms, u.updated_at)) texts
    ∙ ap (λ o. some (keep_last max (said_of t ++ m ∷ []), since_of o)) same

-- Each action keeps what holds.
module _ (n : ConversationMemoryNode) (c : Call) (s : Conversations) (ts : Talks)
    (h : Holds n s ts) where
  save-Holds :
      (id : Option String)
      → extract_conversation_id c.msg.payload ≡ id
      → Holds n (handle_save n c s).1 (save_talk id c ts)
  unfolding Holds handle_save
  save-Holds none e = rw e h
  save-Holds (some id) e = rw e (λ j. elim (Bool-cases (str_eq id j)) [
    | inl same ↦
        rw (get-put id j (saved_to n c (get id s)) s, same)
          (saved_keeps n c (get id s) (ts id) (h id))
    | inr other ↦ rw (get-put id j (saved_to n c (get id s)) s, other) (h j)
  ])

  delete_at : (id : String) → Holds n (delete id s) (set id none ts)
  unfolding Holds
  delete_at id j =
      rw (get-delete id j s)
        (elim (Bool-cases (str_eq id j)) [ inl same ↦ rw same refl | inr other ↦ rw other (h j) ])

  stale-over :
      (old : Option ConversationData) (t : Option Talk)
      → shown old ≡ expected n.max_messages t
      → stale old n.ttl_seconds c.now ≡ over n.ttl_seconds c.now t
  unfolding is_expired since_of
  stale-over none none e = refl
  stale-over none (some t) e = cc
  stale-over (some d) none e = cc
  stale-over (some d) (some t) e = ap (λ u. ltb ((since_of u + n.ttl_seconds) % 2 ^ 64) c.now) e

  load-Holds :
      (id : Option String)
      → extract_conversation_id c.msg.payload ≡ id
      → Holds n (handle_load n c s).1 (load_talk id n.ttl_seconds c ts)
  unfolding Holds handle_load
  load-Holds none e = rw e h
  load-Holds (some id) e = rw (e, sym (stale-over (get id s) (ts id) (h id))) (go (get id s) refl)
    where
      go :
          (old : Option ConversationData)
          → get id s ≡ old
          → Holds n
              (load_from (some id) n c s).1
              (if stale (get id s) n.ttl_seconds c.now then set id none ts else ts)
      go none f = rw (f, get) h
      go (some d) f = elim (Bool-cases (stale (some d) n.ttl_seconds c.now)) [
        | inl old ↦ rw (f, old) (delete_at id)
        | inr new ↦ rw (f, new) h
      ]

  clear-Holds :
      (id : Option String)
      → extract_conversation_id c.msg.payload ≡ id
      → Holds n (handle_clear n c s).1 (clear_talk id ts)
  unfolding Holds handle_clear
  clear-Holds none e = rw e h
  clear-Holds (some id) e = rw e (delete_at id)

  process-Holds : Holds n (process n c s).1 (step_talk n.action n.ttl_seconds c ts)
  unfolding process step_talk handle_list
  process-Holds =
      let id = extract_conversation_id c.msg.payload in
      elim (Bool-cases (str_eq n.action "save")) [
        | inl a ↦ rw a (save-Holds id refl)
        | inr a ↦ rw a (elim (Bool-cases (str_eq n.action "load")) [
          | inl b ↦ rw b (load-Holds id refl)
          | inr b ↦ rw b (elim (Bool-cases (str_eq n.action "clear")) [
            | inl d ↦ rw d (clear-Holds id refl)
            | inr d ↦
                rw d
                  (elim (Bool-cases (str_eq n.action "list")) [ inl l ↦ rw l h | inr l ↦ rw l h ])
          ])
        ])
      ]

run-Holds :
    (n : ConversationMemoryNode) (cs : Calls) (s : Conversations) (ts : Talks)
    → Holds n s ts
    → Holds n (run n cs s) (replay n cs ts)
unfolding run replay Holds
run-Holds n [] s ts h = h
run-Holds n ((action, c) ∷ cs) s ts h =
    let m = record n { action = action } in
    run-Holds n cs (process m c s).1 (step_talk action n.ttl_seconds c ts)
      (process-Holds m c s ts h)

abbrev pub no_talks : Talks
no_talks j = none

run_empty-Holds :
    (n : ConversationMemoryNode) (cs : Calls) → Holds n (run n cs []) (replay n cs no_talks)
unfolding Holds get
run_empty-Holds n cs = run-Holds n cs [] no_talks (λ j. refl)

-- Whatever is saved, loaded, cleared and listed from an empty store on, in any order and for any
-- conversations: a conversation is stored just when the history of the same calls has it, and
-- what is stored is the last max_messages of all messages that were saved in it since it was last
-- cleared or found expired, with the time of the last of them.
pub memory_refines :
    (n : ConversationMemoryNode) (cs : Calls) (id : String)
    → shown (get id (run n cs [])) ≡ expected n.max_messages (replay n cs no_talks id)
unfolding Holds
memory_refines n cs id = run_empty-Holds n cs id

-- What a conversation says at a time.
abbrev pub told : ConversationMemoryNode → (now : ℕ) → Option Talk → List Value
told n now t = if over n.ttl_seconds now t then [] else keep_last n.max_messages (said_of t)

load_tells :
    (n : ConversationMemoryNode) (c : Call) (s : Conversations) (id : String)
    → extract_conversation_id c.msg.payload ≡ some id
    → (old : Option ConversationData) → get id s ≡ old
    → (t : Option Talk) → shown old ≡ expected n.max_messages t
    → stale old n.ttl_seconds c.now ≡ over n.ttl_seconds c.now t
    → get_field "messages" (first_payload (handle_load n c s).0)
      ≡ some (array (items_of (told n c.now t)))
unfolding handle_load get_field lookup output derive new_message messages_of
load_tells n c s id e none f none k l =
    rw (e, f, keep_last_all {A = Value} n.max_messages [] (ground arith)) refl
load_tells n c s id e none f (some u) k l = cc
load_tells n c s id e (some d) f none k l = cc
load_tells n c s id e (some d) f (some u) k l =
    elim (Bool-cases (stale (some d) n.ttl_seconds c.now)) [
      | inl old ↦ rw (e, f, old, sym l ∙ old) refl
      | inr new ↦ rw (e, f, new, sym l ∙ new) (ap (λ p. some (array (items_of (messages_of p)))) k)
    ]

-- After any calls from an empty store on, `load` for a message that names a conversation answers
-- with the last max_messages of all messages that were saved in it since it was cleared or found
-- expired; with no message if there are none or if the conversation has expired by now.
pub handle_load-run :
    (n : ConversationMemoryNode) (cs : Calls) (c : Call) (id : String)
    → extract_conversation_id c.msg.payload ≡ some id
    → get_field "messages" (first_payload (handle_load n c (run n cs [])).0)
      ≡ some (array (items_of (told n c.now (replay n cs no_talks id))))
unfolding Holds
handle_load-run n cs c id e =
    let s = run n cs [] in
    let t = replay n cs no_talks id in
    let h = run_empty-Holds n cs in
    load_tells n c s id e (get id s) refl t (h id)
      (stale-over n c s (replay n cs no_talks) h (get id s) t (h id))
