-- ===== src/Storage/Executions.antt =====
-- The executions of crates/z8run-storage/src/sqlite.rs and postgres.rs.
pub mod Interrupted
use z8run.Base.{
  ℕ, ltb, String, Bool, true, false, ◌&&◌, Option, none, some, List, [], ◌∷◌, ◌++◌, map, filter,
  find, length, take, is_some, if◌then◌else◌, ◌==◌, str_eq,
}
use z8run.Error.{Uuid}
use z8run.Storage.{StorageResult, ok, err, Failure, query, newest_first, database}
use z8run.Storage.Flows.{FlowRow, ExecutionRecord, FlowTables, has_id}

abbrev pub new_execution : (id flow_id trace_id : Uuid) (now : ℕ) → ExecutionRecord
new_execution id flow_id trace_id now = record {
  id = id;
  flow_id = flow_id;
  trace_id = trace_id;
  status = "running";
  started_at = now;
  completed_at = none;
  duration_ms = none;
  error_text = none;
}

-- The insert violates the reference if the flow is gone.
unfoldable pub record_start :
    (now : ℕ) → Failure → (id flow_id trace_id : Uuid) → FlowTables → StorageResult FlowTables
unfolding has_id
record_start now fails id flow_id trace_id t =
    if is_some (find (has_id flow_id) t.flows)
    then query fails
        (record t { executions = t.executions ++ new_execution id flow_id trace_id now ∷ [] })
    else err (database "FOREIGN KEY constraint failed")

-- `WHERE id = ? AND status = 'running'`
abbrev pub runs_as : Uuid → ExecutionRecord → Bool
runs_as id x = (x.id == id) && str_eq x.status "running"

abbrev pub completed_as :
    (now : ℕ) (status : String) (duration_ms : ℕ) (error_text : Option String)
    → ExecutionRecord
    → ExecutionRecord
completed_as now status duration_ms error_text x = record x {
  status = status;
  completed_at = some now;
  duration_ms = some duration_ms;
  error_text = error_text;
}

unfoldable pub record_completion :
    (now : ℕ)
    → Failure
    → (id : Uuid) (status : String) (duration_ms : ℕ) → (error_text : Option String) → FlowTables
    → StorageResult FlowTables
record_completion now fails id status duration_ms error_text t = query fails (record t {
  executions =
      map (λ x. if runs_as id x then completed_as now status duration_ms error_text x else x)
        t.executions;
})

-- `WHERE status = 'running' AND started_at < ?`, with the number of the rows.
abbrev pub is_stale : (started_before : ℕ) → ExecutionRecord → Bool
is_stale started_before x = str_eq x.status "running" && ltb x.started_at started_before

unfoldable pub interrupt_running :
    (now : ℕ)
    → Failure
    → (started_before : ℕ) (reason : String) → FlowTables
    → StorageResult (ℕ × FlowTables)
interrupt_running now fails started_before reason t = query fails (
  length (filter (is_stale started_before) t.executions),
  record t {
    executions =
        map
          (λ x.
            if is_stale started_before x
            then record x { status = "stopped"; completed_at = some now; error_text = some reason }
            else x)
          t.executions;
  },
)

unfoldable pub get_history :
    Failure → (flow_id : Uuid) (limit : ℕ) → FlowTables → StorageResult (List ExecutionRecord)
get_history fails flow_id limit t = query fails (
    take limit (newest_first (λ x. x.started_at) (filter (λ x. x.flow_id == flow_id) t.executions)))
