-- ===== src/Api/Recorder.antt =====
-- The recorder of crates/z8run-api/src/execution_recorder.rs, which writes the executions that the
-- engine reports into the table. Its loop is one call of `receive` per result of `recv`.
pub mod Rows
pub mod Log
pub mod Recorded
use z8run.Base.{ℕ, String, Option, none, some, if◌then◌else◌, ◌==◌}
use z8run.Error.{Uuid, Z8Error}
use z8run.Storage.{StorageResult, ok, err, Failure}
use z8run.Storage.Flows.{FlowTables}
use z8run.Storage.Executions.{record_start, record_completion}
use z8run.Engine.{EngineEvent, flow_started, flow_completed, flow_error, flow_stopped}

-- The executions that are open, by trace, and the tables that the task writes to.
pub record Recorder : Type 0 where
  pub in_flight : Uuid → Option Uuid
  pub tables : FlowTables

pub data Received : Type 0 where
  event : EngineEvent → Received
  lagged : ℕ → Received

abbrev pub with_entry : (trace_id : Uuid) → Option Uuid → (Uuid → Option Uuid) → Uuid → Option Uuid
with_entry trace_id o m t = if t == trace_id then o else m t

-- A failed write is logged.
abbrev pub or_logged : FlowTables → StorageResult FlowTables → FlowTables
or_logged old (err e) = old
or_logged old (ok t) = t

abbrev pub opened : (trace_id id : Uuid) → StorageResult FlowTables → Recorder → Recorder
opened trace_id id (err e) r = r
opened trace_id id (ok t) r = record {
  in_flight = with_entry trace_id (some id) r.in_flight;
  tables = t;
}

-- `in_flight.remove` and what follows it.
abbrev pub closed :
    (now : ℕ)
    → Failure
    → (trace_id : Uuid) (status : String) (duration_ms : ℕ) → (error_text : Option String)
    → Recorder
    → Option Uuid
    → Recorder
closed now fails trace_id status duration_ms error_text r none = r
closed now fails trace_id status duration_ms error_text r (some id) = record {
  in_flight = with_entry trace_id none r.in_flight;
  tables =
      or_logged r.tables (record_completion now fails id status duration_ms error_text r.tables);
}

-- The identifier is the one that `record_start` makes.
unfoldable pub receive :
    (show_error : Z8Error → String) (now : ℕ)
    → Failure
    → (id : Uuid) → Received
    → Recorder
    → Recorder
unfolding record_start record_completion
receive show_error now fails id (event (flow_started flow_id trace_id)) r =
    opened trace_id id (record_start now fails id flow_id trace_id r.tables) r
receive show_error now fails id (event (flow_completed flow_id trace_id duration_ms)) r =
    closed now fails trace_id "completed" duration_ms none r (r.in_flight trace_id)
receive show_error now fails id (event (flow_error flow_id trace_id e)) r =
    closed now fails trace_id "error" 0 (some (show_error e)) r (r.in_flight trace_id)
receive show_error now fails id (event (flow_stopped flow_id trace_id duration_ms)) r =
    closed now fails trace_id "stopped" duration_ms none r (r.in_flight trace_id)
receive show_error now fails id (event _) r = r
receive show_error now fails id (lagged n) r = r
