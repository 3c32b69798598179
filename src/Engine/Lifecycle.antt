-- ===== src/Engine/Lifecycle.antt =====
-- The executions of engine.rs under any interleaving of requests and driver tasks.
pub mod World
pub mod Cancel
use z8run.Base.{
  ◌⊎◌, inl, inr, ℕ, suc, ◌+◌, ◌≤◌, ◌<◌, ◌≡◌, refl, ap, sym, ◌∙◌, Bool, true, false, not, ◌&&◌,
  Option, none, some, List, [], ◌∷◌, ◌++◌, elem, count, is_some, ltb, ◌==◌, if◌then◌else◌, arith,
}
use z8run.Error.{Uuid, Z8Result, ok, err}
use z8run.Flow.{Flow, FlowStatus, stopped, running}
use z8run.Scheduler.{ExecutionPlan}
use z8run.Engine.{
  EngineEvent, flow_started, flow_completed, flow_error, flow_stopped, ActiveFlow, ActiveFlows,
  CancelHandle, FlowEngine, get_active, insert_active, remove_active, set_status, stop_all,
  is_cancelled, send_event, stop, cancel_execution, Phase, executing, stopping, finishing, marking,
  removing, gone, Driver, next_phase, access, set_execution_status, remove_execution, register,
}

pub get-insert :
    (t k : Uuid) (a : ActiveFlow) (m : ActiveFlows)
    → get_active t (insert_active k a m) ≡ (if k == t then some a else get_active t m)
unfolding get_active insert_active
get-insert t k a [] = refl
get-insert t k a ((j, b) ∷ m) = ground (arith, get-insert t k a m)

get-remove :
    (t k : Uuid) (m : ActiveFlows)
    → get_active t (remove_active k m) ≡ (if k == t then none else get_active t m)
unfolding get_active remove_active
get-remove t k [] = ground arith
get-remove t k ((j, b) ∷ m) = ground (arith, get-remove t k m)

abbrev pub with_status : FlowStatus → Option ActiveFlow → Option ActiveFlow
with_status s none = none
with_status s (some a) = some (record a { status = s })

pub get-set_status :
    (t k : Uuid) (s : FlowStatus) (m : ActiveFlows)
    → get_active t (set_status k s m)
      ≡ (if k == t then with_status s (get_active t m) else get_active t m)
unfolding get_active set_status
get-set_status t k s [] = ground arith
get-set_status t k s ((j, b) ∷ m) = ground (arith, get-set_status t k s m)

-- What `stop` makes of an entry.
abbrev pub stop_entry : Uuid → Option ActiveFlow → Option ActiveFlow
stop_entry flow_id none = none
stop_entry flow_id (some a) =
    some (if a.flow_id == flow_id then record a { status = stopped } else a)

pub get-stop_all :
    (t flow_id : Uuid) (m : ActiveFlows) (flags : List CancelHandle)
    → get_active t (stop_all flow_id m flags).0 ≡ stop_entry flow_id (get_active t m)
unfolding get_active stop_all
get-stop_all t flow_id [] flags = refl
get-stop_all t flow_id ((k, a) ∷ m) flags =
    let flags' = if a.flow_id == flow_id then a.cancel ∷ flags else flags in
    ground (arith, get-stop_all t flow_id m flags')

-- The terminal events of an execution.
abbrev pub terminal : Uuid → EngineEvent → ℕ
terminal t (flow_completed f k d) = if k == t then 1 else 0
terminal t (flow_error f k e) = if k == t then 1 else 0
terminal t (flow_stopped f k d) = if k == t then 1 else 0
terminal t _ = 0

-- The events that report an execution as completed or failed.
abbrev pub outcome : Uuid → EngineEvent → ℕ
outcome t (flow_completed f k d) = if k == t then 1 else 0
outcome t (flow_error f k e) = if k == t then 1 else 0
outcome t _ = 0

unfoldable pub total : (EngineEvent → ℕ) → List EngineEvent → ℕ
total w [] = 0
total w (e ∷ es) = w e + total w es

pub total-snoc :
    (w : EngineEvent → ℕ) (es : List EngineEvent) (e : EngineEvent)
    → total w (es ++ e ∷ []) ≡ total w es + w e
unfolding total
total-snoc w [] e = omega arith
total-snoc w (x ∷ es) e = omega (arith, total-snoc w es e)

-- Whether an entry of the map remains.
abbrev pub alive : Phase → ℕ
alive gone = 0
alive _ = 1

-- Whether the terminal event was sent.
abbrev pub past : Phase → ℕ
past (marking s) = 1
past removing = 1
past gone = 1
past _ = 0

-- Whether the next access sends it.
abbrev pub emits : Phase → ℕ
emits stopping = 1
emits (finishing r) = 1
emits _ = 0

-- Whether the driver reports a completion or a failure.
abbrev pub loud : Phase → ℕ
loud (finishing r) = 1
loud (marking s) = 1
loud _ = 0

abbrev pub is_removing : Phase → Bool
is_removing removing = true
is_removing _ = false

module _ (t : Uuid) (d : Driver) (ms : ℕ) (e : FlowEngine) where
  pub access-entry :
      (p : Phase)
      → is_some (get_active t (access p d ms e).active_flows) ≡ (
          if is_removing p && d.trace_id == t then false else is_some (get_active t e.active_flows))
  unfolding send_event set_execution_status remove_execution
  access-entry executing = refl
  access-entry stopping = refl
  access-entry (finishing (ok u)) = refl
  access-entry (finishing (err x)) = refl
  access-entry (marking s) = ground (arith, get-set_status t d.trace_id s e.active_flows)
  access-entry removing = ground (arith, get-remove t d.trace_id e.active_flows)
  access-entry gone = refl

  pub access-terminal :
      (p : Phase)
      → total (terminal t) (access p d ms e).events
        ≡ total (terminal t) e.events + (if d.trace_id == t then emits p else 0)
  unfolding send_event set_execution_status remove_execution
  access-terminal executing = ground arith
  access-terminal stopping = total-snoc (terminal t) e.events (flow_stopped d.flow_id d.trace_id ms)
  access-terminal (finishing (ok u)) =
      total-snoc (terminal t) e.events (flow_completed d.flow_id d.trace_id ms)
  access-terminal (finishing (err x)) =
      total-snoc (terminal t) e.events (flow_error d.flow_id d.trace_id x)
  access-terminal (marking s) = ground arith
  access-terminal removing = ground arith
  access-terminal gone = ground arith

  pub access-outcome :
      (p : Phase)
      → ((d.trace_id == t) ≡ false) ⊎ (loud p ≡ 0)
      → total (outcome t) (access p d ms e).events ≡ total (outcome t) e.events
  unfolding send_event set_execution_status remove_execution
  access-outcome executing h = refl
  access-outcome stopping h =
      ground (arith, total-snoc (outcome t) e.events (flow_stopped d.flow_id d.trace_id ms))
  access-outcome (finishing (ok u)) h =
      ground (arith, total-snoc (outcome t) e.events (flow_completed d.flow_id d.trace_id ms))
  access-outcome (finishing (err x)) h =
      ground (arith, total-snoc (outcome t) e.events (flow_error d.flow_id d.trace_id x))
  access-outcome (marking s) h = refl
  access-outcome removing h = refl
  access-outcome gone h = refl

pub past-next_phase :
    (p : Phase) (d : Driver) (r : Z8Result (Unit {0})) (e : FlowEngine)
    → past (next_phase p d r e) ≡ past p + emits p
past-next_phase executing d r e = ground arith
past-next_phase (finishing (ok u)) d r e = refl
past-next_phase (finishing (err x)) d r e = refl
past-next_phase _ d r e = refl

pub alive-next_phase :
    (p : Phase) (d : Driver) (r : Z8Result (Unit {0})) (e : FlowEngine)
    → alive (next_phase p d r e) ≡ (if is_removing p then 0 else alive p)
alive-next_phase executing d r e = ground arith
alive-next_phase (finishing (ok u)) d r e = refl
alive-next_phase (finishing (err x)) d r e = refl
alive-next_phase _ d r e = refl

-- The registration adds the entry and sends no terminal event.
pub register_lem :
    (t k : Uuid) (h : CancelHandle) (f : Flow) (plan : ExecutionPlan) (e : FlowEngine)
    → (is_some (get_active t (register k h f plan e).active_flows)
        ≡ (if k == t then true else is_some (get_active t e.active_flows)))
      × (total (terminal t) (register k h f plan e).events ≡ total (terminal t) e.events)
      × (total (outcome t) (register k h f plan e).events ≡ total (outcome t) e.events)
unfolding register
register_lem t k h f plan e =
    let a : ActiveFlow = record {
      flow_id = f.id;
      flow = f;
      plan = plan;
      status = running;
      cancel = h;
    } in
    (
      ground (arith, get-insert t k a e.active_flows),
      omega (arith, total-snoc (terminal t) e.events (flow_started f.id k)),
      omega (arith, total-snoc (outcome t) e.events (flow_started f.id k)),
    )

pub stop-entry :
    (t flow_id : Uuid) (e : FlowEngine)
    → (is_some (get_active t (stop flow_id e).active_flows) ≡ is_some (get_active t e.active_flows))
      × ((stop flow_id e).events ≡ e.events)
unfolding stop
stop-entry t flow_id e = (ground (arith, get-stop_all t flow_id e.active_flows e.cancelled), refl)

pub cancel-entry :
    (t k : Uuid) (e : FlowEngine)
    → (is_some (get_active t (cancel_execution k e).0.active_flows)
        ≡ is_some (get_active t e.active_flows))
      × ((cancel_execution k e).0.events ≡ e.events)
unfolding cancel_execution
cancel-entry t k e = (ground (arith, get-set_status t k stopped e.active_flows), ground arith)
