-- ===== src/Nodes/Handoff.antt =====
-- crates/z8run-core/src/nodes/human_handoff.rs: the queue of tickets and the node's four actions.
pub mod Tickets
pub mod Lookup
use Prim.Native.String.{◌++◌ as text_append}
use z8run.Base.{ℕ, String, Option, none, some, List, [], ◌∷◌, if◌then◌else◌, str_eq}
use z8run.Json.{Value, null, bool, number, string, array, object, Fields, no_fields, entry, insert}
use z8run.StringMap.{StringMap, get, put}
use z8run.Error.{Z8Result}
use z8run.Message.{FlowMessage}
use z8run.Nodes.{
  Outside, output, get_field, as_str, as_u64, or_keep, text_or_empty, is_empty_text, items_of,
  require_one_of,
}

pub record TicketData : Type 0 where
  pub id : String
  pub conversation_id : String
  pub reason : String
  pub priority : String
  pub status : String
  pub assigned_to : Option String
  pub created_at : ℕ
  pub updated_at : ℕ
  pub metadata : Value
  pub messages : List Value

abbrev optional : Option String → Value
optional none = null
optional (some s) = string s

unfoldable pub to_json : TicketData → Value
unfolding items_of
to_json t = object (
    entry "id" (string t.id) (
      entry "conversationId" (string t.conversation_id) (
        entry "reason" (string t.reason) (
          entry "priority" (string t.priority) (
            entry "status" (string t.status) (
              entry "assignedTo" (optional t.assigned_to) (
                entry "createdAt" (number t.created_at) (
                  entry "updatedAt" (number t.updated_at) (
                    entry "metadata" t.metadata
                      (entry "messages" (array (items_of t.messages)) no_fields))))))))))

-- The fields that the configuration sets; the queue is passed along.
pub record HumanHandoffNode : Type 0 where
  pub name : String
  pub action : String
  pub webhook_url : Option String
  pub priority : String
  pub timeout_ms : ℕ

abbrev pub Queue : Type 0
Queue = StringMap TicketData

unfoldable pub new_node : (name : String) → HumanHandoffNode
new_node name = record {
  name = name;
  action = "escalate";
  webhook_url = none;
  priority = "medium";
  timeout_ms = 300000;
}

-- What a call reads: the message, the clock in seconds, a new ticket's identifier and the
-- conversation's that stands in for a missing one.
pub record Call : Type 0 where
  pub msg : FlowMessage
  pub outside : Outside
  pub now : ℕ
  pub ticket_id : String
  pub conversation_id : String

-- The messages, the queue and the events that are posted to the webhook with their tickets.
abbrev pub Reply : Type 0
Reply = List FlowMessage × Queue × List (String × TicketData)

abbrev pub answer : Call → (port : String) → Value → Queue → Reply
answer c port payload q = (output c.outside 0 c.msg port payload ∷ [], q, [])

-- `notify_webhook`, if a webhook is configured.
abbrev pub notified : Option String → (event : String) → TicketData → Reply → Reply
notified none event t r = r
notified (some url) event t (out, q, posts) = (out, q, (event, t) ∷ posts)

abbrev pub failed : Call → (error : String) → Fields → Queue → Reply
failed c error fs q = answer c "error" (object (entry "error" (string error) fs)) q

abbrev pub not_found : Call → (ticket_id : String) → Queue → Reply
not_found c id q = failed c "Ticket not found" (entry "ticketId" (string id) no_fields) q

abbrev pub status_of : Option TicketData → (ticket_id : String) → Call → Queue → Reply
status_of none id c q = not_found c id q
status_of (some t) id c q = answer c "status" (to_json t) q

-- A ticket is changed by `get_mut` and announced.
abbrev pub change_ticket :
    Option TicketData
    → (ticket_id : String) → (TicketData → TicketData)
    → (event : String) → HumanHandoffNode
    → Call
    → Queue
    → Reply
change_ticket none id change event n c q = not_found c id q
change_ticket (some t) id change event n c q =
    notified n.webhook_url event (change t)
      (answer c event (to_json (change t)) (put id (change t) q))

abbrev pub resolve : (now : ℕ) → TicketData → TicketData
resolve now t = record t { status = "resolved"; updated_at = now }

abbrev pub assign : (agent : String) (now : ℕ) → TicketData → TicketData
assign agent now t = record t { assigned_to = some agent; status = "assigned"; updated_at = now }

-- `metadata["customer"] = json!(cust)`, which panics where a key cannot be set.
abbrev pub set_customer : Option String → (metadata : Value) → Option Value
set_customer none metadata = some metadata
set_customer (some cust) (object fs) = some (object (insert "customer" (string cust) fs))
set_customer (some cust) null = some (object (entry "customer" (string cust) no_fields))
set_customer (some cust) metadata = none

abbrev pub metadata_of : Value → Value
metadata_of payload =
    or_keep (get_field "metadata" payload) (or_keep (get_field "context" payload) null)

-- The rendering of a value as JSON, `to_string`, is a parameter.
module _ (render : Value → String) where
  abbrev pub text_of : Value → String
  text_of (string s) = s
  text_of v = render v

  unfoldable pub extract_field : Value → (field_names : List String) → Option String
  extract_field payload [] = none
  extract_field payload (k ∷ ks) = elim (get_field k payload) [
    | some v ↦ some (text_of v)
    | none ↦ extract_field payload ks
  ]

  abbrev pub ticket_field : Value → String
  ticket_field payload =
      text_or_empty (extract_field payload ("ticketId" ∷ "ticket_id" ∷ "id" ∷ []))

  abbrev pub agent_field : Value → String
  agent_field payload = text_or_empty (
      extract_field payload ("agentId" ∷ "agent_id" ∷ "agentName" ∷ "agent_name" ∷ "assignee" ∷ []))

  abbrev pub customer_of : Value → Option String
  customer_of payload = extract_field payload ("customer" ∷ "customerName" ∷ "customer_name" ∷ [])

  unfoldable pub new_ticket : HumanHandoffNode → Call → (metadata : Value) → TicketData
  unfolding extract_field
  new_ticket n c metadata =
      let payload = c.msg.payload in
      record {
        id = c.ticket_id;
        conversation_id =
            or_keep
              (extract_field payload ("conversationId" ∷ "conversation_id" ∷ "sessionId" ∷ []))
              c.conversation_id;
        reason =
            or_keep
              (extract_field payload ("reason" ∷ "escalationReason" ∷ "issue" ∷ "description" ∷ []))
              "No reason provided";
        priority = or_keep (extract_field payload ("priority" ∷ [])) n.priority;
        status = "pending";
        assigned_to = none;
        created_at = c.now;
        updated_at = c.now;
        metadata = metadata;
        messages = [];
      }

  -- The ticket is stored and announced; none is a panic.
  abbrev pub escalated : HumanHandoffNode → Call → Option Value → Queue → Option Reply
  escalated n c none q = none
  escalated n c (some metadata) q =
      let t = new_ticket n c metadata in
      some (
        notified n.webhook_url "escalated" t
          (answer c "escalated" (to_json t) (put c.ticket_id t q)))

  unfoldable pub handle_escalate : HumanHandoffNode → Call → Queue → Option Reply
  unfolding new_ticket to_json put extract_field
  handle_escalate n c q =
      escalated n c (set_customer (customer_of c.msg.payload) (metadata_of c.msg.payload)) q

  unfoldable pub handle_check_status : HumanHandoffNode → Call → Queue → Reply
  unfolding to_json get extract_field
  handle_check_status n c q =
      let id = ticket_field c.msg.payload in
      if is_empty_text id
      then failed c "No ticket ID provided" (entry "received" c.msg.payload no_fields) q
      else status_of (get id q) id c q

  unfoldable pub handle_resolve : HumanHandoffNode → Call → Queue → Reply
  unfolding to_json get put extract_field
  handle_resolve n c q =
      let id = ticket_field c.msg.payload in
      if is_empty_text id
      then failed c "No ticket ID provided" no_fields q
      else change_ticket (get id q) id (resolve c.now) "resolved" n c q

  unfoldable pub handle_assign : HumanHandoffNode → Call → Queue → Reply
  unfolding to_json get put extract_field
  handle_assign n c q =
      let id = ticket_field c.msg.payload in
      let agent = agent_field c.msg.payload in
      if is_empty_text id
      then failed c "No ticket ID provided" no_fields q
      else if is_empty_text agent
      then failed c "No agent ID provided" no_fields q
      else change_ticket (get id q) id (assign agent c.now) "assigned" n c q

  unfoldable pub process : HumanHandoffNode → Call → Queue → Option Reply
  unfolding handle_escalate handle_check_status handle_resolve handle_assign
  process n c q =
      if str_eq n.action "escalate"
      then handle_escalate n c q
      else if str_eq n.action "check_status"
      then some (handle_check_status n c q)
      else if str_eq n.action "resolve"
      then some (handle_resolve n c q)
      else if str_eq n.action "assign"
      then some (handle_assign n c q)
      else some (failed c (text_append "Unknown action: " n.action) no_fields q)

unfoldable pub configure : Value → HumanHandoffNode → HumanHandoffNode
configure config n = record {
  name = or_keep (as_str (get_field "name" config)) n.name;
  action = or_keep (as_str (get_field "action" config)) n.action;
  webhook_url = elim (as_str (get_field "webhookUrl" config)) [
    | some url ↦ some url
    | none ↦ n.webhook_url
  ];
  priority = or_keep (as_str (get_field "priority" config)) n.priority;
  timeout_ms = or_keep (as_u64 (get_field "timeoutMs" config)) n.timeout_ms;
}

unfoldable pub validate : (List String → String) → HumanHandoffNode → Z8Result {0} Unit
unfolding require_one_of
validate debug_list n =
    require_one_of debug_list n.action ("escalate" ∷ "check_status" ∷ "resolve" ∷ "assign" ∷ [])
      "Invalid Human Handoff action"

-- `create` of the factory: the node and its queue, which is new for each executor.
unfoldable pub create : (config : Value) → HumanHandoffNode × Queue
unfolding configure new_node
create config = (configure config (new_node "HumanHandoff"), [])
