-- ===== src/Tests/Run.antt =====
-- Runs of plans over channels.
use z8run.Base.{
  ℕ, ◌+◌, ◌≡◌, ◌≢◌, refl, true, false, some, none, List, [], ◌∷◌, map, filter, find, elem, count,
  length, leb, arith, Memᴰ, if◌then◌else◌,
}
use z8run.Json.{null, no_fields}
use z8run.Error.{ok}
use z8run.Message.{FlowMessage, new_message}
use z8run.Flow.{Flow, find_node, outgoing, outgoing_edges}
use z8run.Scheduler.{ExecutionStep, ExecutionPlan}
use z8run.Engine.Run.{
  RunState, get_queue, set_queue, remove_queue, emit, open_channels, out_channels, finished,
  returned, hangs, Env, capacity, send, dispatch_message, dispatch_outputs, process_all,
  make_executor, run_receiver, run_root, run_node, run_nodes, drop_senders, await_all, run_steps,
  channel_nodes, execute_plan,
}
use z8run.Engine.Run.Dispatch.{routed, append_to, dispatch_outputs_lem, dispatch_outputs_blocks}
use z8run.Engine.Run.Channels.{open_sender_hangs}
use z8run.Engine.Run.Late.{arrivals, late_source_dropped}
use z8run.Scheduler.Compile.{enabled}
use z8run.Engine.Run.Ended.{endings}
use z8run.Engine.Run.Plan.{execute_plan_once}
use z8run.Tests.Samples.{chain, node, edge, flow, partly, insertion_order}
use z8run.Tests.Graph.{partly_plan, partly_targets, partly_compiles}

-- Every node passes its message on through the port "out".
abbrev pass_on : Env
pass_on = record {
  registered = λ t. true;
  create = λ n. ok tt;
  process = λ n seen m. ok (record m { source_node = n.id; source_port = "out" } ∷ []);
  preview = λ v. v;
  no_executor = λ t. t;
  default_buffer_size = 2;
  duration_us = λ n. 0;
  fresh_id = λ n. 0;
  now = λ n. 0;
}

runs : Unit {0}
unfolding execute_plan run_steps run_nodes run_node run_root run_receiver process_all make_executor
    dispatch_outputs dispatch_message send out_channels open_channels channel_nodes drop_senders
    await_all get_queue set_queue remove_queue emit outgoing_edges outgoing find_node find filter
    elem count new_message
runs = tt

abbrev steps_of : List (List ℕ) → ExecutionPlan
steps_of ids = record { steps = map (λ l. record { node_ids = l; step = 0 }) ids; total_nodes = 0 }

abbrev first_step : ExecutionStep
first_step = record { node_ids = 1 ∷ []; step = 0 }

-- Node 1 feeds 2 and 3, and 2 feeds 3: node 3 gets the message of 1 only, since its channel is
-- closed after the first step.
short_cut_loses :
    get_queue 3
      (run_nodes pass_on chain 5 none (2 ∷ []) (record {
        senders = drop_senders chain (1 ∷ []) (2 ∷ 3 ∷ []);
        queues = (2, new_message 0 0 1 "out" null 5 ∷ []) ∷ (3, []) ∷ [];
        events = [];
      })).2.queues
    ≡ some []
unfolding runs
short_cut_loses = refl

-- Node 2 has an edge from the disabled node 1 only: the execution never ends.
abbrev waiting : Flow
waiting = flow (node 1 false ∷ node 2 true ∷ []) (edge 1 2 ∷ [])

waiting_hangs :
    (execute_plan pass_on waiting 5 none (λ s. false) (steps_of ((2 ∷ []) ∷ []))).0 ≡ hangs
unfolding runs
waiting_hangs = refl

chain_ends :
    (execute_plan pass_on chain 5 none
      (λ s. false)
      (steps_of ((1 ∷ []) ∷ (2 ∷ []) ∷ (3 ∷ []) ∷ []))).0
    ≡ returned (ok tt)
unfolding runs
chain_ends = refl

abbrev msg : FlowMessage
msg = record {
  id = 1;
  payload = null;
  source_node = 1;
  source_port = "out";
  timestamp = 0;
  trace_id = 5;
  metadata = no_fields;
}

abbrev two_channels : RunState
two_channels = record { senders = 2 ∷ 3 ∷ []; queues = (2, []) ∷ (3, []) ∷ []; events = [] }

dispatch_outputs_lem_example :
    get_queue 2
      (dispatch_outputs pass_on chain 1
        (msg ∷ [])
        (("out", 2) ∷ ("err", 3) ∷ [])
        two_channels).1.queues
    ≡ append_to
        (routed 2 (msg ∷ []) (("out", 2) ∷ ("err", 3) ∷ []))
        (get_queue 2 two_channels.queues)
unfolding runs
dispatch_outputs_lem_example =
    dispatch_outputs_lem pass_on chain 1 2 (msg ∷ []) (("out", 2) ∷ ("err", 3) ∷ []) two_channels
      refl

-- Three messages do not fit into a channel of two.
dispatch_outputs_blocks_example :
    (dispatch_outputs pass_on chain 1 (msg ∷ msg ∷ msg ∷ []) (("out", 2) ∷ []) two_channels).0
    ≡ leb (length {A = FlowMessage} [] + length (msg ∷ msg ∷ msg ∷ [])) (capacity pass_on chain)
unfolding runs
dispatch_outputs_blocks_example =
    dispatch_outputs_blocks pass_on chain 1 "out" 2 (msg ∷ msg ∷ msg ∷ []) two_channels [] refl
      (omega arith)

late_source_dropped_example :
    arrivals 3
      (run_steps pass_on chain 5 none
        (λ s. false)
        (first_step ∷ (steps_of ((2 ∷ []) ∷ (3 ∷ []) ∷ [])).steps)
        two_channels).1
    ≡ arrivals 3 (run_nodes pass_on chain 5 none (1 ∷ []) two_channels).2
unfolding outgoing_edges outgoing filter
late_source_dropped_example =
    late_source_dropped pass_on chain 5 none (λ s. false) first_step
      (steps_of ((2 ∷ []) ∷ (3 ∷ []) ∷ [])).steps two_channels 1 (edge 1 3) refl (Memᴰ.head refl)
      (Memᴰ.tail (Memᴰ.head refl))

open_sender_hangs_example :
    (run_node pass_on waiting 5 none (node 2 true) two_channels).0 ≢ finished
unfolding elem count get_queue
open_sender_hangs_example =
    open_sender_hangs waiting pass_on 5 none (node 2 true) two_channels [] refl refl

execute_plan_once_example :
    endings 2 (execute_plan pass_on partly 5 none (λ s. false) partly_plan).1
    ≡ (if enabled partly 2 then 1 else 0)
unfolding runs
execute_plan_once_example =
    execute_plan_once pass_on partly 2 5 none insertion_order (λ s. false) partly_plan
      partly_targets partly_compiles (λ s. refl) refl
