-- ===== src/Engine/Start.antt =====
-- `execute_with_trigger` of engine.rs, up to the driver task that it spawns.
use z8run.Base.{◌≡◌, ◌==◌, refl, ==-refl, false, Option, none, some, [], ◌∷◌, ◌++◌}
use z8run.Error.{Uuid, Z8Result, ok, err}
use z8run.Message.{FlowMessage}
use z8run.Flow.{Flow, running}
use z8run.Kahn.{HashOrder}
use z8run.Scheduler.{ExecutionPlan, compile}
use z8run.Scheduler.Compile.{compile_total}
use z8run.Engine.{
  flow_started, CancelHandle, ActiveFlow, FlowEngine, get_active, send_event, register, executing,
  Driver,
}
use z8run.Engine.Lifecycle.{get-insert}

-- `trigger_msg.map(|m| m.trace_id).unwrap_or_else(Uuid::now_v7)`
abbrev pub trace_of : (fresh : Uuid) → Option FlowMessage → Uuid
trace_of fresh none = fresh
trace_of fresh (some m) = m.trace_id

abbrev pub driver_of : Flow → Uuid → CancelHandle → Driver
driver_of f trace_id cancel = record {
  flow_id = f.id;
  trace_id = trace_id;
  cancel = cancel;
  phase = executing;
}

-- The execution of a compiled flow: the result, the engine and the driver task.
abbrev pub start_driver :
    Uuid
    → CancelHandle
    → Flow
    → Z8Result ExecutionPlan
    → FlowEngine
    → Z8Result Uuid × FlowEngine × Option Driver
start_driver trace_id cancel f (err x) e = (err x, e, none)
start_driver trace_id cancel f (ok plan) e =
    (ok trace_id, register trace_id cancel f plan e, some (driver_of f trace_id cancel))

unfoldable pub execute_with_trigger :
    HashOrder
    → (fresh : Uuid) → CancelHandle
    → Flow
    → Option FlowMessage
    → FlowEngine
    → Option (Z8Result Uuid × FlowEngine × Option Driver)
execute_with_trigger h fresh cancel f trigger e = elim (compile h f) [
  | none ↦ none
  | some r ↦ some (start_driver (trace_of fresh trigger) cancel f r e)
]

-- What `execute_with_trigger` promises of its result.
unfoldable pub Started :
    HashOrder
    → (trace_id : Uuid) → CancelHandle
    → Flow
    → FlowEngine
    → Z8Result Uuid × FlowEngine × Option Driver
    → Type 0
Started h t cancel f e (err x, e', d) = (compile h f ≡ some (err x)) × (e' ≡ e) × (d ≡ none)
Started h t cancel f e (ok u, e', d) =
    (plan : ExecutionPlan) × (compile h f ≡ some (ok plan))
    × (u ≡ t)
    × (get_active t e'.active_flows
        ≡ some
            (record { flow_id = f.id; flow = f; plan = plan; status = running; cancel = cancel }))
    × ((k : Uuid) → (t == k) ≡ false → get_active k e'.active_flows ≡ get_active k e.active_flows)
    × (e'.events ≡ e.events ++ flow_started f.id t ∷ [])
    × (d ≡ some (driver_of f t cancel))

-- `execute_with_trigger` always returns. If the flow does not compile, it returns that error and
-- changes nothing; else it returns the trace id, under which the flow is running with its plan,
-- leaves the other executions alone, announces the start and spawns one driver.
pub execute_with_trigger_lem :
    (h : HashOrder) (fresh : Uuid) (cancel : CancelHandle) (f : Flow) (trigger : Option FlowMessage)
    (e : FlowEngine)
    → (r : Z8Result Uuid × FlowEngine × Option Driver) × (execute_with_trigger h fresh cancel f
          trigger e
        ≡ some r)
      × Started h (trace_of fresh trigger) cancel f e r
unfolding execute_with_trigger Started register send_event
execute_with_trigger_lem h fresh cancel f trigger e = go (compile_total h f).0 (compile_total h f).1
  where
    t : Uuid
    t = trace_of fresh trigger

    go :
        (r : Z8Result ExecutionPlan)
        → compile h f ≡ some r
        → (r : Z8Result Uuid × FlowEngine × Option Driver) × (execute_with_trigger h fresh cancel f
              trigger e
            ≡ some r)
          × Started h (trace_of fresh trigger) cancel f e r
    go (err x) c =
        (start_driver t cancel f (err x) e, rw (execute_with_trigger, c) refl, (c, refl, refl))
    go (ok plan) c =
        let a : ActiveFlow = record {
          flow_id = f.id;
          flow = f;
          plan = plan;
          status = running;
          cancel = cancel;
        } in
        (
          start_driver t cancel f (ok plan) e,
          rw (execute_with_trigger, c) refl,
          (
            plan,
            c,
            refl,
            rw (get-insert t t a e.active_flows, ==-refl t) refl,
            λ k other. rw (get-insert k t a e.active_flows, other) refl,
            refl,
            refl,
          ),
        )
