-- ===== src/Engine/Run.antt =====
-- `execute_plan` and `dispatch_outputs` of engine.rs: the steps of a plan, run over bounded
-- channels. The tasks of a step are run in the order in which they are spawned.
pub mod Dispatch
pub mod Channels
pub mod Late
pub mod Ended
pub mod Plan
use z8run.Base.{
  ℕ, zero, suc, ◌+◌, String, Bool, true, false, not, ◌&&◌, ◌||◌, Option, none, some, List, [], ◌∷◌,
  ◌++◌, map, filter, elem, is_some, length, ltb, leb, ◌==◌, if◌then◌else◌, str_eq,
}
use z8run.Json.{Value, bool, Fields, no_fields, entry, object}
use z8run.Error.{Uuid, Z8Error, node_not_found, internal, Z8Result, ok, err}
use z8run.Message.{FlowMessage, new_message}
use z8run.Node.{Node}
use z8run.Flow.{Edge, Flow, find_node, outgoing_edges}
use z8run.Scheduler.{ExecutionStep, ExecutionPlan}
use z8run.Engine.{EngineEvent, node_started, node_completed, node_skipped, message_sent}

-- `receivers`: the messages in the channel of a node that has not run yet.
abbrev pub Queues : Type 0
Queues = List (Uuid × List FlowMessage)

-- `senders` are the keys of `channels`, the map of the original senders.
pub record RunState : Type 0 where
  pub senders : List Uuid
  pub queues : Queues
  pub events : List EngineEvent

unfoldable pub get_queue : Uuid → Queues → Option (List FlowMessage)
get_queue t [] = none
get_queue t ((k, q) ∷ m) = let rest = get_queue t m in if k == t then some q else rest

unfoldable pub set_queue : Uuid → List FlowMessage → Queues → Queues
set_queue t q [] = []
set_queue t q ((k, p) ∷ m) =
    let rest = set_queue t q m in if k == t then (k, q) ∷ m else (k, p) ∷ rest

unfoldable pub remove_queue : Uuid → Queues → Queues
remove_queue t [] = []
remove_queue t ((k, q) ∷ m) = let rest = remove_queue t m in if k == t then m else (k, q) ∷ rest

unfoldable pub emit : EngineEvent → RunState → RunState
emit ev s = record s { events = s.events ++ ev ∷ [] }

-- An entry of `out_channels`: the port of the edge and the node that it leads to.
abbrev pub OutChannel : Type 0
OutChannel = String × Uuid

unfoldable pub open_channels : List Edge → (senders : List Uuid) → List OutChannel
open_channels [] senders = []
open_channels (e ∷ es) senders =
    let rest = open_channels es senders in
    if elem e.to_node senders then (e.from_port, e.to_node) ∷ rest else rest

unfoldable pub out_channels : Flow → Uuid → RunState → List OutChannel
out_channels f node_id s = open_channels (outgoing_edges f node_id) s.senders

-- How a task ends. A task that is blocked waits for a channel that nothing will fill, empty or
-- close, so the driver waits for it until the flow is cancelled.
pub data NodeResult : Type 0 where
  finished : NodeResult
  failed : Z8Error → NodeResult
  blocked : NodeResult

-- How `execute_plan` ends.
pub data PlanResult : Type 0 where
  returned : Z8Result (Unit {0}) → PlanResult
  hangs : PlanResult

-- What the engine does not implement: the executor of a node, the registry of node types and the
-- preview of a payload; the capacity of a channel; and the readings of the clock. An executor is
-- made for one task and may keep state, so its answer depends on the messages it has seen before.
pub record Env : Type 0 where
  pub registered : String → Bool
  pub create : Node → Z8Result (Unit {0})
  pub process : Node → (seen : List FlowMessage) → FlowMessage → Z8Result (List FlowMessage)
  pub preview : Value → Value
  pub no_executor : String → String
  pub default_buffer_size : ℕ
  pub duration_us : Node → ℕ
  pub fresh_id : Node → Uuid
  pub now : Node → ℕ

abbrev pub capacity : Env → Flow → ℕ
capacity env f =
    if leb env.default_buffer_size f.config.buffer_size
    then f.config.buffer_size
    else env.default_buffer_size

-- `tx.send(msg).await`: at a closed channel the message is dropped with a warning, and at a full
-- one the task waits; the receiver runs in a later step, so nothing makes room.
unfoldable pub send : (cap : ℕ) → Uuid → FlowMessage → Queues → Option Queues
send cap t msg queues = elim (get_queue t queues) [
  | none ↦ some queues
  | some q ↦ if ltb (length q) cap then some (set_queue t (q ++ msg ∷ []) queues) else none
]

-- Removes the senders of the targets of a node.
unfoldable pub drop_targets : List Edge → List Uuid → List Uuid
drop_targets [] senders = senders
drop_targets (e ∷ es) senders = drop_targets es (filter (λ k. not (k == e.to_node)) senders)

-- The tasks are awaited in order: the first that did not finish decides.
unfoldable pub await_all : List NodeResult → Option PlanResult
await_all [] = none
await_all (finished ∷ rs) = await_all rs
await_all (failed e ∷ rs) = some (returned (err e))
await_all (blocked ∷ rs) = some hangs

abbrev pub step_end : Option Z8Error → List NodeResult → Option PlanResult
step_end (some e) results = some (returned (err e))
step_end none results = await_all results

module _ (f : Flow) where
  unfoldable pub drop_senders : List Uuid → List Uuid → List Uuid
  unfolding drop_targets
  drop_senders [] senders = senders
  drop_senders (id ∷ ids) senders = drop_senders ids (drop_targets (outgoing_edges f id) senders)

  -- The nodes that get a channel: enabled, with an incoming edge.
  unfoldable pub channel_nodes : List Uuid
  channel_nodes =
      map (λ n. n.id) (filter (λ n. n.enabled && elem n.id (map (λ e. e.to_node) f.edges)) f.nodes)

module _ (env : Env) (f : Flow) where
  abbrev pub sent_event : Uuid → Uuid → FlowMessage → EngineEvent
  sent_event node_id to_node msg =
      message_sent f.id node_id to_node msg.id (some (env.preview msg.payload))

  -- The inner loop of `dispatch_outputs`; `false` is a send that waits forever.
  unfoldable pub dispatch_message :
      (node_id : Uuid) (single : Bool) → FlowMessage → List OutChannel → RunState → Bool × RunState
  dispatch_message node_id single msg [] s = (true, s)
  dispatch_message node_id single msg ((port, to_node) ∷ outs) s =
      elim (str_eq msg.source_port port || single) [
        | true ↦
            let s' = emit (sent_event node_id to_node msg) s in
            elim (send (capacity env f) to_node msg s.queues) [
              | none ↦ (false, s')
              | some queues ↦
                  dispatch_message node_id single msg outs (record s' { queues = queues })
            ]
        | false ↦ dispatch_message node_id single msg outs s
      ]

  unfoldable pub dispatch_outputs :
      (node_id : Uuid) → List FlowMessage → List OutChannel → RunState → Bool × RunState
  dispatch_outputs node_id [] outs s = (true, s)
  dispatch_outputs node_id (msg ∷ msgs) outs s =
      let (sent, s') = dispatch_message node_id (length outs == 1) msg outs s in
      elim sent [ true ↦ dispatch_outputs node_id msgs outs s' | false ↦ (false, s') ]

  abbrev pub first_preview : Option Value → List FlowMessage → Option Value
  first_preview (some v) outputs = some v
  first_preview none [] = none
  first_preview none (m ∷ outputs) = some (env.preview m.payload)

  abbrev pub complete : Node → Option Value → RunState → NodeResult × RunState
  complete n preview s = (finished, emit (node_completed f.id n.id (env.duration_us n) preview) s)

  -- The loop over the messages of a receiver; `seen` are those before. After the last one `recv` waits for more, unless
  -- every sender is gone.
  unfoldable pub process_all :
      Node
      → List OutChannel
      → (open_sender : Bool) → (seen msgs : List FlowMessage) → Option Value
      → RunState
      → NodeResult × RunState
  process_all n outs open_sender seen [] preview s =
      if open_sender then (blocked, s) else complete n preview s
  process_all n outs open_sender seen (msg ∷ msgs) preview s = elim (env.process n seen msg) [
    | err e ↦ (failed e, s)
    | ok outputs ↦
        let (sent, s') = dispatch_outputs n.id outputs outs s in
        elim sent [
          | true ↦
              process_all n outs open_sender (seen ++ msg ∷ []) msgs (first_preview preview outputs)
                s'
          | false ↦ (blocked, s')
        ]
  ]

  -- The lookup of the factory and the creation of the executor.
  unfoldable pub make_executor : Node → Z8Result (Unit {0})
  make_executor n =
      if env.registered n.node_type
      then env.create n
      else err (internal (env.no_executor n.node_type))

  abbrev pub after_create :
      Z8Result (Unit {0}) → RunState → (RunState → NodeResult × RunState) → NodeResult × RunState
  after_create (err e) s body = (failed e, s)
  after_create (ok u) s body = body s

  abbrev pub with_executor :
      Node → RunState → (RunState → NodeResult × RunState) → NodeResult × RunState
  with_executor n s body = after_create (make_executor n) (emit (node_started f.id n.id) s) body

  -- The message of a root node.
  abbrev pub root_message : Node → (trace_id : Uuid) → Option FlowMessage → FlowMessage
  root_message n trace_id (some m) = record m { source_node = n.id }
  root_message n trace_id none =
      new_message (env.fresh_id n) (env.now n) n.id "trigger"
        (object (entry "triggered" (bool true) no_fields)) trace_id

  -- The task of a node with a receiver, and of one without.
  unfoldable pub run_receiver :
      Node → List OutChannel → List FlowMessage → RunState → NodeResult × RunState
  unfolding process_all
  run_receiver n outs [] s =
      if elem n.id s.senders then (blocked, s) else (finished, emit (node_skipped f.id n.id) s)
  run_receiver n outs (msg ∷ msgs) s =
      with_executor n s (process_all n outs (elem n.id s.senders) [] (msg ∷ msgs) none)

  unfoldable pub run_root :
      (trace_id : Uuid)
      → Option FlowMessage
      → Node
      → List OutChannel
      → RunState
      → NodeResult × RunState
  unfolding process_all
  run_root trace_id trigger n outs s =
      with_executor n s (process_all n outs false [] (root_message n trace_id trigger ∷ []) none)

  unfoldable pub run_node :
      (trace_id : Uuid) → Option FlowMessage → Node → RunState → NodeResult × RunState
  run_node trace_id trigger n s =
      let outs = out_channels f n.id s in
      elim (get_queue n.id s.queues) [
        | none ↦ run_root trace_id trigger n outs s
        | some q ↦ run_receiver n outs q (record s { queues = remove_queue n.id s.queues })
      ]

  -- The tasks of a step: their results, and the error that ends the spawning.
  unfoldable pub run_nodes :
      (trace_id : Uuid)
      → Option FlowMessage
      → List Uuid
      → RunState
      → List NodeResult × Option Z8Error × RunState
  run_nodes trace_id trigger [] s = ([], none, s)
  run_nodes trace_id trigger (id ∷ ids) s = elim (find_node f id) [
    | none ↦ ([], some (node_not_found f.id id), s)
    | some n ↦
        let (r, s') = run_node trace_id trigger n s in
        let (rs, e, s'') = run_nodes trace_id trigger ids s' in (r ∷ rs, e, s'')
  ]

  -- `cancelled` is the flag as it is read at the start of a step.
  unfoldable pub run_steps :
      (trace_id : Uuid)
      → Option FlowMessage
      → (cancelled : ExecutionStep → Bool) → List ExecutionStep
      → RunState
      → PlanResult × RunState
  run_steps trace_id trigger cancelled [] s = (returned (ok tt), s)
  run_steps trace_id trigger cancelled (step ∷ steps) s = elim (cancelled step) [
    | true ↦ (returned (ok tt), s)
    | false ↦
        let (results, e, s') = run_nodes trace_id trigger step.node_ids s in
        elim (step_end e results) [
          | some r ↦ (r, s')
          | none ↦
              run_steps trace_id trigger cancelled steps
                (record s' { senders = drop_senders f step.node_ids s'.senders })
        ]
  ]

  unfoldable pub execute_plan :
      (trace_id : Uuid)
      → Option FlowMessage
      → (cancelled : ExecutionStep → Bool) → ExecutionPlan
      → PlanResult × RunState
  execute_plan trace_id trigger cancelled plan =
      run_steps trace_id trigger cancelled plan.steps (record {
        senders = channel_nodes f;
        queues = map (λ id. (id, [])) (channel_nodes f);
        events = [];
      })
