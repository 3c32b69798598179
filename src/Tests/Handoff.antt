-- ===== src/Tests/Handoff.antt =====
-- A ticket that is opened and looked up.
use z8run.Base.{String, none, some, [], ◌∷◌, ◌≡◌, refl}
use z8run.Json.{Value, null, string, object, no_fields, entry, lookup}
use z8run.StringMap.{get, put}
use z8run.Message.{derive, new_message}
use z8run.Nodes.{output, get_field, is_empty_text, items_of}
use z8run.Nodes.Handoff.{
  TicketData, HumanHandoffNode, Call, Reply, to_json, new_node, extract_field, new_ticket,
  handle_escalate, handle_check_status, handle_resolve, handle_assign, process, configure, create,
}
use z8run.Nodes.Handoff.Tickets.{IsQueue}
use z8run.Nodes.Handoff.Lookup.{serve}
use z8run.Tests.Nodes.{outside, message}

abbrev render : Value → String
render v = "json"

abbrev call : (ticket_id : String) → Value → Call
call ticket_id payload = record {
  msg = message payload;
  outside = outside;
  now = 5;
  ticket_id = ticket_id;
  conversation_id = "conv";
}

abbrev open_call : Call
open_call = call "t1" (object (entry "reason" (string "help") no_fields))

abbrev status_call : Call
status_call = call "t2" (object (entry "ticketId" (string "t1") no_fields))

abbrev assign_call : Call
assign_call =
    call "t3" (object (entry "ticketId" (string "t1") (entry "agentId" (string "ann") no_fields)))

abbrev handoff : (action : String) → HumanHandoffNode
handoff action = record {
  name = "h";
  action = action;
  webhook_url = some "https://x";
  priority = "high";
  timeout_ms = 1;
}

runs : Unit {0}
unfolding get put process handle_escalate handle_check_status handle_resolve handle_assign
    new_ticket extract_field to_json get_field lookup output derive new_message items_of
    is_empty_text IsQueue configure create serve new_node
runs = tt

abbrev ticket : TicketData
ticket = record {
  id = "t1";
  conversation_id = "conv";
  reason = "help";
  priority = "high";
  status = "pending";
  assigned_to = none;
  created_at = 5;
  updated_at = 5;
  metadata = null;
  messages = [];
}

abbrev opened : Reply
opened = (
  output outside 0 open_call.msg "escalated" (to_json ticket) ∷ [],
  ("t1", ticket) ∷ [],
  ("escalated", ticket) ∷ [],
)

opens : process render (handoff "escalate") open_call [] ≡ some opened
unfolding runs
opens = refl

abbrev assigned_ticket : TicketData
assigned_ticket = record ticket { assigned_to = some "ann"; status = "assigned" }

abbrev assigned : Reply
assigned = (
  output outside 0 assign_call.msg "assigned" (to_json assigned_ticket) ∷ [],
  ("t1", assigned_ticket) ∷ [],
  ("assigned", assigned_ticket) ∷ [],
)

-- A customer with a text as context.
abbrev upset_call : Call
upset_call =
    call "t4"
      (object (entry "customer" (string "Bob") (entry "context" (string "upset") no_fields)))

upset_panics : handle_escalate render (handoff "escalate") upset_call [] ≡ none
unfolding runs
upset_panics = refl

abbrev assign_config : Value
assign_config = object (entry "action" (string "assign") no_fields)
