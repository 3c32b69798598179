-- ===== src/Tests/Executions.antt =====
-- An execution that starts and stops, and one that a stop of the server interrupts.
use z8run.Base.{ℕ, String, true, false, none, some, [], ◌∷◌, Memᴰ, find, ◌≡◌, refl}
use z8run.Error.{Uuid, Z8Error}
use z8run.Storage.{StorageResult}
use z8run.Storage.Flows.{ExecutionRecord, FlowTables, has_id}
use z8run.Storage.Executions.{is_stale, record_start, record_completion, interrupt_running}
use z8run.Storage.Executions.Interrupted.{stopped_as, interrupt_running-again}
use z8run.Engine.{flow_started, flow_stopped, flow_completed}
use z8run.Api.Recorder.{Recorder, event, receive}
use z8run.Api.Recorder.Rows.{status_of}
use z8run.Api.Recorder.Log.{Log, Run, spawn, next, follow, earlier, log_status}
use z8run.Api.Recorder.Recorded.{recorder_refines}
use z8run.Flow.{new_flow}
use z8run.Tests.Api.{stored, no_deployments}

abbrev pub tables : FlowTables
tables = record {
  flows = record { flow = stored; user_id = some 9; updated_at = 0 } ∷ [];
  deployments = no_deployments;
  executions = [];
}

runs : Unit {0}
unfolding find has_id new_flow receive record_start record_completion interrupt_running follow
runs = tt

abbrev show_nothing : Z8Error → String
show_nothing e = ""

abbrev spawned : Recorder
spawned = record { in_flight = λ k. none; tables = tables }

abbrev started : Recorder
unfolding receive
started = receive show_nothing 1 none 20 (event (flow_started 5 4)) spawned

-- The stop is recorded, and what ends after it is not.
abbrev ended : Recorder
unfolding receive
ended =
    receive show_nothing 4 none 0 (event (flow_completed 5 4 3))
      (receive show_nothing 3 none 0 (event (flow_stopped 5 4 2)) started)

abbrev log : Uuid → Log
unfolding follow
log k = follow k none (event (flow_completed 5 4 3)) (
    follow k none (event (flow_stopped 5 4 2))
      (follow k none (event (flow_started 5 4)) (earlier (status_of k tables.executions))))

run : Run show_nothing tables ended log
unfolding runs
run =
    next
      (next (next spawn 1 none 20 (event (flow_started 5 4)) (refl, refl, refl)) 3 none 0
        (event (flow_stopped 5 4 2)) tt)
      4 none 0 (event (flow_completed 5 4 3)) tt

ended_stopped : log_status (log 4) ≡ some "stopped"
unfolding runs
ended_stopped = refl

recorder_refines_example : status_of 4 ended.tables.executions ≡ log_status (log 4)
recorder_refines_example = recorder_refines show_nothing tables ended log run 4

interrupt_running-again_example :
    (n : ℕ) × (t' : FlowTables) × (interrupt_running 9 none 8 "restart" started.tables
      ≡ StorageResult.ok (n, t'))
    × (interrupt_running 10 none 8 "restart" t' ≡ StorageResult.ok (0, t'))
    × ((x : ExecutionRecord)
        → Memᴰ x started.tables.executions
        → is_stale 8 x ≡ true
        → Memᴰ (stopped_as 9 "restart" x) t'.executions)
    × ((x : ExecutionRecord)
        → Memᴰ x started.tables.executions
        → is_stale 8 x ≡ false
        → Memᴰ x t'.executions)
interrupt_running-again_example = interrupt_running-again 9 10 8 "restart" started.tables
