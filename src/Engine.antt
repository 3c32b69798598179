-- ===== src/Engine.antt =====
-- crates/z8run-core/src/engine.rs: the executions in progress, their cancellation and their events.
pub mod Lifecycle
pub mod Preview
pub mod Run
pub mod Start
use z8run.Base.{
  ℕ, String, Bool, true, false, Option, none, some, List, [], ◌∷◌, ◌++◌, elem, dedup, ◌==◌,
  if◌then◌else◌,
}
use z8run.Json.{Value}
use z8run.Error.{Uuid, Z8Error, Z8Result, ok, err}
use z8run.Flow.{Flow, FlowStatus, running, completed, error, stopped}
use z8run.Scheduler.{ExecutionPlan}

pub data EngineEvent : Type 0 where
  flow_started : (flow_id trace_id : Uuid) → EngineEvent
  node_started : (flow_id node_id : Uuid) → EngineEvent
  node_completed :
      (flow_id node_id : Uuid) (duration_us : ℕ) (output_preview : Option Value) → EngineEvent
  node_skipped : (flow_id node_id : Uuid) → EngineEvent
  node_error : (flow_id node_id : Uuid) (error_text : String) → EngineEvent
  message_sent :
      (flow_id from_node to_node message_id : Uuid) (payload_preview : Option Value) → EngineEvent
  stream_chunk : (flow_id node_id : Uuid) (chunk : String) (done : Bool) → EngineEvent
  flow_completed : (flow_id trace_id : Uuid) (duration_ms : ℕ) → EngineEvent
  flow_error : (flow_id trace_id : Uuid) (e : Z8Error) → EngineEvent
  flow_stopped : (flow_id trace_id : Uuid) (duration_ms : ℕ) → EngineEvent

-- `EngineEvent::flow_id`
unfoldable pub event_flow_id : EngineEvent → Uuid
event_flow_id (flow_started f t) = f
event_flow_id (node_started f n) = f
event_flow_id (node_completed f n d o) = f
event_flow_id (node_skipped f n) = f
event_flow_id (node_error f n e) = f
event_flow_id (message_sent f a b m p) = f
event_flow_id (stream_chunk f n c d) = f
event_flow_id (flow_completed f t d) = f
event_flow_id (flow_error f t e) = f
event_flow_id (flow_stopped f t d) = f

-- A cancel handle is shared by the entry of the map and the driver task, so it is the name of a
-- flag that the engine keeps.
abbrev pub CancelHandle : Type 0
CancelHandle = ℕ

pub record ActiveFlow : Type 0 where
  pub flow_id : Uuid
  pub flow : Flow
  pub plan : ExecutionPlan
  pub status : FlowStatus
  pub cancel : CancelHandle

-- `HashMap<Uuid, ActiveFlow>`, keyed by trace id.
abbrev pub ActiveFlows : Type 0
ActiveFlows = List (Uuid × ActiveFlow)

-- `cancelled` lists the handles whose flag is set; `events` are the events sent, in order.
pub record FlowEngine : Type 0 where
  pub active_flows : ActiveFlows
  pub cancelled : List CancelHandle
  pub events : List EngineEvent

unfoldable pub get_active : Uuid → ActiveFlows → Option ActiveFlow
get_active t [] = none
get_active t ((k, a) ∷ m) = let rest = get_active t m in if k == t then some a else rest

unfoldable pub insert_active : Uuid → ActiveFlow → ActiveFlows → ActiveFlows
insert_active t a [] = (t, a) ∷ []
insert_active t a ((k, b) ∷ m) =
    let rest = insert_active t a m in if k == t then (k, a) ∷ m else (k, b) ∷ rest

unfoldable pub remove_active : Uuid → ActiveFlows → ActiveFlows
remove_active t [] = []
remove_active t ((k, b) ∷ m) =
    let rest = remove_active t m in if k == t then rest else (k, b) ∷ rest

unfoldable pub set_status : Uuid → FlowStatus → ActiveFlows → ActiveFlows
set_status t s [] = []
set_status t s ((k, b) ∷ m) =
    let rest = set_status t s m in
    if k == t then (k, record b { status = s }) ∷ m else (k, b) ∷ rest

-- `CancelHandle::is_cancelled`
unfoldable pub is_cancelled : FlowEngine → CancelHandle → Bool
is_cancelled e h = elem h e.cancelled

unfoldable pub send_event : EngineEvent → FlowEngine → FlowEngine
send_event ev e = record e { events = e.events ++ ev ∷ [] }

-- The part of `execute_with_trigger` before the driver task: the execution is registered.
unfoldable pub register :
    (trace_id : Uuid) (cancel : CancelHandle) → Flow → ExecutionPlan → FlowEngine → FlowEngine
unfolding send_event
register trace_id cancel f plan e = send_event (flow_started f.id trace_id) (record e {
  active_flows =
      insert_active trace_id
        (record { flow_id = f.id; flow = f; plan = plan; status = running; cancel = cancel })
        e.active_flows;
})

-- The loop of `stop` over the values of the map.
unfoldable pub stop_all : Uuid → ActiveFlows → List CancelHandle → ActiveFlows × List CancelHandle
stop_all flow_id [] flags = ([], flags)
stop_all flow_id ((k, a) ∷ m) flags =
    let hit = a.flow_id == flow_id in
    let (m', flags') = stop_all flow_id m (if hit then a.cancel ∷ flags else flags) in
    ((k, (if hit then record a { status = stopped } else a)) ∷ m', flags')

unfoldable pub stop : Uuid → FlowEngine → FlowEngine
unfolding stop_all
stop flow_id e =
    let (m, flags) = stop_all flow_id e.active_flows e.cancelled in
    record e { active_flows = m; cancelled = flags }

unfoldable pub cancel_execution : Uuid → FlowEngine → FlowEngine × Bool
cancel_execution trace_id e = elim (get_active trace_id e.active_flows) [
  | none ↦ (e, false)
  | some a ↦ (
    record e {
      active_flows = set_status trace_id stopped e.active_flows;
      cancelled = a.cancel ∷ e.cancelled;
    },
    true,
  )
]

-- `flow_status`: some execution of the flow, in the order of the map.
unfoldable pub flow_status : Uuid → ActiveFlows → Option FlowStatus
flow_status flow_id [] = none
flow_status flow_id ((k, a) ∷ m) =
    let rest = flow_status flow_id m in if a.flow_id == flow_id then some a.status else rest

abbrev pub flow_ids : ActiveFlows → List Uuid
flow_ids [] = []
flow_ids ((k, a) ∷ m) = a.flow_id ∷ flow_ids m

unfoldable pub active_flow_ids : FlowEngine → List Uuid
active_flow_ids e = dedup (flow_ids e.active_flows)

unfoldable pub set_execution_status : Uuid → FlowStatus → FlowEngine → FlowEngine
set_execution_status t s e = record e { active_flows = set_status t s e.active_flows }

unfoldable pub remove_execution : Uuid → FlowEngine → FlowEngine
remove_execution t e = record e { active_flows = remove_active t e.active_flows }

-- Where a driver task stands. Other tasks run between two of its accesses to shared state.
pub data Phase : Type 0 where
  executing : Phase
  stopping : Phase
  finishing : Z8Result (Unit {0}) → Phase
  marking : FlowStatus → Phase
  removing : Phase
  gone : Phase

-- The driver task that `execute_with_trigger` spawns.
pub record Driver : Type 0 where
  pub flow_id : Uuid
  pub trace_id : Uuid
  pub cancel : CancelHandle
  pub phase : Phase

-- One access of the driver to shared state. `result` is what `execute_plan` returned and `ms` is
-- the time elapsed; each is read in one phase only.
abbrev pub next_phase : Phase → Driver → (result : Z8Result (Unit {0})) → FlowEngine → Phase
next_phase executing d result e = if is_cancelled e d.cancel then stopping else finishing result
next_phase stopping d result e = removing
next_phase (finishing (ok u)) d result e = marking completed
next_phase (finishing (err x)) d result e = marking error
next_phase (marking s) d result e = removing
next_phase removing d result e = gone
next_phase gone d result e = gone

abbrev pub access : Phase → Driver → (ms : ℕ) → FlowEngine → FlowEngine
access executing d ms e = e
access stopping d ms e = send_event (flow_stopped d.flow_id d.trace_id ms) e
access (finishing (ok u)) d ms e = send_event (flow_completed d.flow_id d.trace_id ms) e
access (finishing (err x)) d ms e = send_event (flow_error d.flow_id d.trace_id x) e
access (marking s) d ms e = set_execution_status d.trace_id s e
access removing d ms e = remove_execution d.trace_id e
access gone d ms e = e

unfoldable pub advance :
    Driver → (result : Z8Result (Unit {0})) (ms : ℕ) → FlowEngine → FlowEngine × Driver
advance d result ms e = (access d.phase d ms e, record d { phase = next_phase d.phase d result e })
