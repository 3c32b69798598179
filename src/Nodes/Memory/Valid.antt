-- ===== src/Nodes/Memory/Valid.antt =====
-- What every action keeps of the store of conversations.
use z8run.Base.{
  ℕ, ◌≤◌, ltb, String, Option, none, some, length, keep_last, length-keep_last, some_inv, str_eq,
  ◌≡◌, refl, subst, arith, Bool-cases, inl, inr,
}
use z8run.StringMap.{get, put, delete, HasDistinctKeys}
use z8run.StringMap.Laws.{get-put, get-delete, put-HasDistinctKeys, delete-HasDistinctKeys}
use z8run.Nodes.Memory.{
  ConversationData, Conversations, ConversationMemoryNode, Call, extract_conversation_id, trim,
  saved_to, stale, load_from, handle_save, handle_load, handle_clear, handle_list, process,
}

-- No conversation is stored twice and none has more messages than the node keeps.
unfoldable pub IsValid : ConversationMemoryNode → Conversations → Type 0
IsValid n s =
    HasDistinctKeys s
    × ((id : String) (d : ConversationData)
        → get id s ≡ some d
        → length d.messages ≤ n.max_messages)

trim_bound : (max : ℕ) (d : ConversationData) → length (trim max d).messages ≤ max
unfolding trim keep_last
trim_bound max d = elim (Bool-cases (ltb max (length d.messages))) [
  | inl e ↦ rw e (length-keep_last max d.messages)
  | inr e ↦ rw e (ground (arith, e))
]

module _ (n : ConversationMemoryNode) (c : Call) (s : Conversations) (h : IsValid n s) where
  put-IsValid :
      (id : String) (old : Option ConversationData) → IsValid n (put id (saved_to n c old) s)
  unfolding IsValid saved_to
  put-IsValid id old = (
    put-HasDistinctKeys id (saved_to n c old) s h.0,
    λ j d e. elim (Bool-cases (str_eq id j)) [
      | inl same ↦
          subst (λ x. length x.messages ≤ n.max_messages)
            (some_inv (rw (get-put id j (saved_to n c old) s, same) at e))
            (trim_bound n.max_messages _)
      | inr other ↦ h.1 j d (rw (get-put id j (saved_to n c old) s, other) at e)
    ],
  )

  delete-IsValid : (id : String) → IsValid n (delete id s)
  unfolding IsValid
  delete-IsValid id = (
    delete-HasDistinctKeys id s h.0,
    λ j d e. elim (Bool-cases (str_eq id j)) [
      | inl same ↦ let no : none ≡ some d = rw (get-delete id j s, same) at e in cc
      | inr other ↦ h.1 j d (rw (get-delete id j s, other) at e)
    ],
  )

  save-IsValid :
      (id : Option String)
      → extract_conversation_id c.msg.payload ≡ id
      → IsValid n (handle_save n c s).1
  unfolding handle_save
  save-IsValid none e = rw e h
  save-IsValid (some id) e = rw e (put-IsValid id (get id s))

  load-IsValid :
      (id : Option String)
      → extract_conversation_id c.msg.payload ≡ id
      → IsValid n (handle_load n c s).1
  unfolding handle_load
  load-IsValid none e = rw e h
  load-IsValid (some id) e = rw e (go (get id s) refl)
    where
      go :
          (old : Option ConversationData) → get id s ≡ old → IsValid n (load_from (some id) n c s).1
      go none f = rw (f, get) h
      go (some d) f = elim (Bool-cases (stale (some d) n.ttl_seconds c.now)) [
        | inl old ↦ rw (f, old) (delete-IsValid id)
        | inr new ↦ rw (f, new) h
      ]

  clear-IsValid :
      (id : Option String)
      → extract_conversation_id c.msg.payload ≡ id
      → IsValid n (handle_clear n c s).1
  unfolding handle_clear
  clear-IsValid none e = rw e h
  clear-IsValid (some id) e = rw e (delete-IsValid id)

-- Every action, on every message and also when it is not known or the message is refused, keeps
-- the store valid: no conversation is stored twice, and none has more than max_messages messages.
pub process-IsValid :
    (n : ConversationMemoryNode) (c : Call) (s : Conversations)
    → IsValid n s
    → IsValid n (process n c s).1
unfolding process handle_list
process-IsValid n c s h =
    let id = extract_conversation_id c.msg.payload in
    elim (Bool-cases (str_eq n.action "save")) [
      | inl a ↦ rw a (save-IsValid n c s h id refl)
      | inr a ↦ rw a (elim (Bool-cases (str_eq n.action "load")) [
        | inl b ↦ rw b (load-IsValid n c s h id refl)
        | inr b ↦ rw b (elim (Bool-cases (str_eq n.action "clear")) [
          | inl d ↦ rw d (clear-IsValid n c s h id refl)
          | inr d ↦
              rw d (elim (Bool-cases (str_eq n.action "list")) [ inl l ↦ rw l h | inr l ↦ rw l h ])
        ])
      ])
    ]
