-- ===== src/Nodes/Handoff/Lookup.antt =====
-- Tickets that are looked up: after they were opened, and by an executor that opens none.
use z8run.Base.{
  String, Bool, true, false, not, ◌&&◌, Option, none, some, List, [], ◌∷◌, map, str_eq, eq_iff,
  is_some, some_inv, ◌≡◌, refl, subst, inl, inr, Bool-cases,
}
use z8run.Json.{Value, null, bool, number, string, array, object}
use z8run.StringMap.{get, put}
use z8run.StringMap.Laws.{get-put}
use z8run.Message.{FlowMessage, derive, new_message}
use z8run.Nodes.{is_empty_text, output}
use z8run.Nodes.Handoff.{
  TicketData, HumanHandoffNode, Queue, Call, Reply, notified, answer, new_ticket, to_json,
  ticket_field, agent_field, metadata_of, customer_of, set_customer, escalated, handle_escalate,
  handle_check_status, handle_resolve, handle_assign, process, create,
}

notified-messages :
    (url : Option String) (event : String) (t : TicketData) (r : Reply)
    → (notified url event t r).0 ≡ r.0
notified-messages none event t r = refl
notified-messages (some url) event t (out, q, posts) = refl

notified-queue :
    (url : Option String) (event : String) (t : TicketData) (r : Reply)
    → (notified url event t r).1 ≡ r.1
notified-queue none event t r = refl
notified-queue (some url) event t (out, q, posts) = refl

abbrev pub payloads : List FlowMessage → List Value
payloads ms = map (λ m. m.payload) ms

abbrev pub ports : List FlowMessage → List String
ports ms = map (λ m. m.source_port) ms

-- A value in which no key can be set.
abbrev pub is_scalar : Value → Bool
is_scalar null = false
is_scalar (object fs) = false
is_scalar _ = true

-- A panic leaves the queue as it is.
abbrev pub after : Option Reply → Queue → Queue
after none q = q
after (some r) q = r.1

module _ (render : Value → String) where
  found :
      (n : HumanHandoffNode) (c c' : Call) (q : Queue) (r : Reply) (metadata : Option Value)
      → escalated render n c metadata q ≡ some r
      → ticket_field render c'.msg.payload ≡ c.ticket_id
      → is_empty_text c.ticket_id ≡ false
      → payloads (handle_check_status render n c' r.1).0 ≡ payloads r.0
  unfolding handle_check_status output derive new_message
  found n c c' q r none e f g = cc
  found n c c' q r (some metadata) e f g =
      let t = new_ticket render n c metadata in
      let base = answer c "escalated" (to_json t) (put c.ticket_id t q) in
      subst (λ x. payloads (handle_check_status render n c' x.1).0 ≡ payloads x.0) (some_inv e)
        (rw
          (
            notified-messages n.webhook_url "escalated" t base,
            notified-queue n.webhook_url "escalated" t base,
            f,
            g,
            get-put c.ticket_id c.ticket_id t q,
            (eq_iff c.ticket_id c.ticket_id).1 refl,
          )
          refl)

  -- A ticket that has been opened is found by its identifier, as long as that is not empty: the
  -- status has the same content as the message that announced the ticket.
  pub status-escalate :
      (n : HumanHandoffNode) (c c' : Call) (q : Queue) (r : Reply)
      → handle_escalate render n c q ≡ some r
      → ticket_field render c'.msg.payload ≡ c.ticket_id
      → is_empty_text c.ticket_id ≡ false
      → payloads (handle_check_status render n c' r.1).0 ≡ payloads r.0
  unfolding handle_escalate
  status-escalate n c c' q r e f g =
      found n c c' q r (set_customer (customer_of render c.msg.payload) (metadata_of c.msg.payload))
        e f g

  is_some-escalated :
      (n : HumanHandoffNode) (c : Call) (q : Queue) (customer : Option String) (metadata : Value)
      → is_some (escalated render n c (set_customer customer metadata) q)
        ≡ not (is_some customer && is_scalar metadata)
  is_some-escalated n c q none v = refl
  is_some-escalated n c q (some x) null = refl
  is_some-escalated n c q (some x) (bool b) = refl
  is_some-escalated n c q (some x) (number k) = refl
  is_some-escalated n c q (some x) (string s) = refl
  is_some-escalated n c q (some x) (array vs) = refl
  is_some-escalated n c q (some x) (object fs) = refl

  -- Opening a ticket panics just when the message names a customer and its metadata, or in their
  -- place its context, are a text, a number, a Boolean or an array.
  pub handle_escalate_panics :
      (n : HumanHandoffNode) (c : Call) (q : Queue)
      → is_some (handle_escalate render n c q)
        ≡ not (is_some (customer_of render c.msg.payload) && is_scalar (metadata_of c.msg.payload))
  unfolding handle_escalate
  handle_escalate_panics n c q =
      is_some-escalated n c q (customer_of render c.msg.payload) (metadata_of c.msg.payload)

  -- The calls that one executor serves.
  unfoldable pub serve : HumanHandoffNode → List Call → Queue → Queue
  serve n [] q = q
  serve n (c ∷ cs) q = serve n cs (after (process render n c q) q)

  abbrev Refuses : Option Reply → Type 0
  Refuses o = (r : Reply) × (o ≡ some r) × (r.1 ≡ []) × (ports r.0 ≡ "error" ∷ [])

  check-Refuses :
      (n : HumanHandoffNode) (c : Call) → Refuses (some (handle_check_status render n c []))
  unfolding handle_check_status get output derive new_message
  check-Refuses n c = elim (Bool-cases (is_empty_text (ticket_field render c.msg.payload))) [
    | inl e ↦ (_, refl, rw e refl, rw e refl)
    | inr e ↦ (_, refl, rw e refl, rw e refl)
  ]

  resolve-Refuses :
      (n : HumanHandoffNode) (c : Call) → Refuses (some (handle_resolve render n c []))
  unfolding handle_resolve get output derive new_message
  resolve-Refuses n c = elim (Bool-cases (is_empty_text (ticket_field render c.msg.payload))) [
    | inl e ↦ (_, refl, rw e refl, rw e refl)
    | inr e ↦ (_, refl, rw e refl, rw e refl)
  ]

  assign-Refuses : (n : HumanHandoffNode) (c : Call) → Refuses (some (handle_assign render n c []))
  unfolding handle_assign get output derive new_message
  assign-Refuses n c = elim (Bool-cases (is_empty_text (ticket_field render c.msg.payload))) [
    | inl e ↦ (_, refl, rw e refl, rw e refl)
    | inr e ↦ elim (Bool-cases (is_empty_text (agent_field render c.msg.payload))) [
      | inl f ↦ (_, refl, rw (e, f) refl, rw (e, f) refl)
      | inr f ↦ (_, refl, rw (e, f) refl, rw (e, f) refl)
    ]
  ]

  process-Refuses :
      (n : HumanHandoffNode) (c : Call)
      → str_eq n.action "escalate" ≡ false
      → Refuses (process render n c [])
  unfolding process output derive new_message
  process-Refuses n c a = rw a (elim (Bool-cases (str_eq n.action "check_status")) [
    | inl b ↦ rw b (check-Refuses n c)
    | inr b ↦ rw b (elim (Bool-cases (str_eq n.action "resolve")) [
      | inl d ↦ rw d (resolve-Refuses n c)
      | inr d ↦ rw d (elim (Bool-cases (str_eq n.action "assign")) [
        | inl g ↦ rw g (assign-Refuses n c)
        | inr g ↦ rw g (_, refl, refl, refl)
      ])
    ])
  ])

  serve_nothing :
      (n : HumanHandoffNode) (cs : List Call)
      → str_eq n.action "escalate" ≡ false
      → serve n cs [] ≡ []
  unfolding serve
  serve_nothing n [] a = refl
  serve_nothing n (c ∷ cs) a =
      let (r, e, none_left, port) = process-Refuses n c a in
      rw (e, none_left) (serve_nothing n cs a)

  -- The queue of an executor is its own: one whose action is not "escalate" never finds a ticket,
  -- and answers every message on its port "error", whatever it has served before.
  pub create-refuses :
      (config : Value) (cs : List Call) (c : Call)
      → str_eq (create config).0.action "escalate" ≡ false
      → let (n, q) = create config in
        (r : Reply) × (process render n c (serve n cs q) ≡ some r) × (ports r.0 ≡ "error" ∷ [])
  unfolding create
  create-refuses config cs c a =
      let n = (create config).0 in
      let (r, e, none_left, port) = process-Refuses n c a in (r, rw (serve_nothing n cs a) e, port)
