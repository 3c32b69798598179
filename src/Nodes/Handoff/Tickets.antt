-- ===== src/Nodes/Handoff/Tickets.antt =====
-- The life of the tickets in the queue: what the node's actions can do to them.
use z8run.Base.{
  ℕ, String, false, Option, none, some, str_eq, eq_iff, some_inv, ◌≡◌, refl, subst, inl, inr, arith,
  Bool-cases,
}
use z8run.Json.{Value}
use z8run.StringMap.{get, put}
use z8run.StringMap.Laws.{get-put}
use z8run.Nodes.{is_empty_text}
use z8run.Nodes.Handoff.{
  TicketData, HumanHandoffNode, Queue, Call, Reply, notified, new_ticket, resolve, assign,
  ticket_field, agent_field, metadata_of, customer_of, set_customer, escalated, change_ticket,
  handle_escalate, handle_check_status, handle_resolve, handle_assign, process, status_of,
}

-- A pending ticket has no agent and one that is assigned has one.
pub data IsTicket (t : TicketData) : Type 0 where
  pending : t.status ≡ "pending" → t.assigned_to ≡ none → IsTicket t
  assigned :
      (agent : String)
      → t.status ≡ "assigned"
      → t.assigned_to ≡ some agent
      → is_empty_text agent ≡ false
      → IsTicket t
  resolved : t.status ≡ "resolved" → IsTicket t

-- What a call can do to a ticket that is stored.
pub data Progress (t : TicketData) : TicketData → Type 0 where
  unchanged : Progress t t
  resolve_ticket : (now : ℕ) → Progress t (resolve now t)
  assign_ticket :
      (agent : String) (now : ℕ) → is_empty_text agent ≡ false → Progress t (assign agent now t)

-- A ticket is stored under its identifier.
unfoldable pub IsQueue : Queue → Type 0
IsQueue q = (id : String) (t : TicketData) → get id q ≡ some t → (t.id ≡ id) × IsTicket t

module _ (render : Value → String) (n : HumanHandoffNode) (c : Call) (q : Queue) where
  -- The queues that a call can leave behind.
  data Step : Queue → Type 0 where
    stay : Step q
    escalate_step : (metadata : Value) → Step (put c.ticket_id (new_ticket render n c metadata) q)
    resolve_step :
        (id : String) (t : TicketData) → get id q ≡ some t → Step (put id (resolve c.now t) q)
    assign_step :
        (id agent : String) (t : TicketData)
        → get id q ≡ some t
        → is_empty_text agent ≡ false
        → Step (put id (assign agent c.now t) q)

  StepTo : Option Reply → Type 0
  StepTo none = Unit
  StepTo (some r) = Step r.1

  notified-Step :
      (url : Option String) (event : String) (t : TicketData) (r : Reply)
      → Step r.1
      → Step (notified url event t r).1
  notified-Step none event t r h = h
  notified-Step (some url) event t (out, q', posts) h = h

  escalate-Step : (metadata : Option Value) → StepTo (escalated render n c metadata q)
  unfolding StepTo
  escalate-Step none = tt
  escalate-Step (some metadata) = notified-Step n.webhook_url _ _ _ (escalate_step metadata)

  change-Step :
      (old : Option TicketData) (id : String) (f : TicketData → TicketData) (event : String)
      → get id q ≡ old
      → ((t : TicketData) → get id q ≡ some t → Step (put id (f t) q))
      → Step (change_ticket old id f event n c q).1
  change-Step none id f event e h = stay
  change-Step (some t) id f event e h = notified-Step n.webhook_url event (f t) _ (h t e)

  check-Step : Step (handle_check_status render n c q).1
  unfolding handle_check_status
  check-Step = elim (Bool-cases (is_empty_text (ticket_field render c.msg.payload))) [
    | inl e ↦ rw e stay
    | inr e ↦ rw e (found (get (ticket_field render c.msg.payload) q))
  ]
    where
      found :
          (old : Option TicketData) → Step (status_of old (ticket_field render c.msg.payload) c q).1
      found none = stay
      found (some t) = stay

  resolve-Step : Step (handle_resolve render n c q).1
  unfolding handle_resolve
  resolve-Step =
      let id = ticket_field render c.msg.payload in
      elim (Bool-cases (is_empty_text id)) [
        | inl e ↦ rw e stay
        | inr e ↦ rw e (change-Step (get id q) id (resolve c.now) "resolved" refl (resolve_step id))
      ]

  assign-Step : Step (handle_assign render n c q).1
  unfolding handle_assign
  assign-Step =
      let id = ticket_field render c.msg.payload in
      let agent = agent_field render c.msg.payload in
      elim (Bool-cases (is_empty_text id)) [
        | inl e ↦ rw e stay
        | inr e ↦ rw e (elim (Bool-cases (is_empty_text agent)) [
          | inl f ↦ rw f stay
          | inr f ↦ rw f (
              change-Step (get id q) id (assign agent c.now) "assigned" refl
                (λ t g. assign_step id agent t g f))
        ])
      ]

  process-Step : StepTo (process render n c q)
  unfolding process handle_escalate StepTo
  process-Step = elim (Bool-cases (str_eq n.action "escalate")) [
    | inl a ↦ rw a (
        escalate-Step (set_customer (customer_of render c.msg.payload) (metadata_of c.msg.payload)))
    | inr a ↦ rw a (elim (Bool-cases (str_eq n.action "check_status")) [
      | inl b ↦ rw b check-Step
      | inr b ↦ rw b (elim (Bool-cases (str_eq n.action "resolve")) [
        | inl d ↦ rw d resolve-Step
        | inr d ↦ rw d (elim (Bool-cases (str_eq n.action "assign")) [
          | inl g ↦ rw g assign-Step
          | inr g ↦ rw g stay
        ])
      ])
    ])
  ]

  step_of : (r : Reply) → process render n c q ≡ some r → Step r.1
  unfolding StepTo
  step_of r e = subst StepTo e process-Step

  module _ (h : IsQueue q) where
    put-IsQueue : (id : String) (t : TicketData) → t.id ≡ id → IsTicket t → IsQueue (put id t q)
    unfolding IsQueue
    put-IsQueue id t e k j u g = elim (Bool-cases (str_eq id j)) [
      | inl same ↦
          subst (λ x. (x.id ≡ j) × IsTicket x) (some_inv (rw (get-put id j t q, same) at g))
            (ground (arith, eq_iff id j, same, e), k)
      | inr other ↦ h j u (rw (get-put id j t q, other) at g)
    ]

    step-IsQueue : (q' : Queue) → Step q' → IsQueue q'
    unfolding IsQueue new_ticket
    step-IsQueue q' stay = h
    step-IsQueue q' (escalate_step metadata) =
        put-IsQueue c.ticket_id (new_ticket render n c metadata) refl (pending refl refl)
    step-IsQueue q' (resolve_step id t e) =
        put-IsQueue id (resolve c.now t) (h id t e).0 (resolved refl)
    step-IsQueue q' (assign_step id agent t e f) =
        put-IsQueue id (assign agent c.now t) (h id t e).0 (assigned agent refl refl f)

-- A call that does not panic keeps the queue valid, whatever its action is: each ticket is stored
-- under its identifier, a pending ticket has no agent, and one that is assigned has an agent with
-- a name that is not empty.
pub process-IsQueue :
    (render : Value → String) (n : HumanHandoffNode) (c : Call) (q : Queue) (r : Reply)
    → IsQueue q
    → process render n c q ≡ some r
    → IsQueue r.1
process-IsQueue render n c q r h e = step-IsQueue render n c q h r.1 (step_of render n c q r e)
