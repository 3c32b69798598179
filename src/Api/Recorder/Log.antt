-- ===== src/Api/Recorder/Log.antt =====
-- What the recorder is to write: a log of each trace, and the runs of the recorder with it.
use z8run.Base.{
  ℕ, String, Bool, true, false, Option, none, some, find, is_some, if◌then◌else◌, ◌==◌, ◌≡◌, refl,
}
use z8run.Error.{Uuid, Z8Error}
use z8run.Storage.{Failure}
use z8run.Storage.Flows.{FlowTables, has_id}
use z8run.Engine.{flow_started, flow_completed, flow_error, flow_stopped}
use z8run.Api.Recorder.{Recorder, Received, event, lagged, receive}
use z8run.Api.Recorder.Rows.{status_of, has_row}

-- An execution as the log sees it: not in the log, open, or closed with a status.
pub data Log : Type 0 where
  unknown : Log
  tracked : Log
  closed_as : String → Log

-- The first end of an open execution closes it; one that is not written leaves it `running`.
abbrev pub end : Failure → (status : String) → Log → Log
end fails status unknown = unknown
end none status tracked = closed_as status
end (some text) status tracked = closed_as "running"
end fails status (closed_as s) = closed_as s

abbrev pub begin : Failure → Log → Log
begin none l = tracked
begin (some text) l = l

unfoldable pub follow : (trace : Uuid) → Failure → Received → Log → Log
follow trace fails (event (flow_started f t)) l = if trace == t then begin fails l else l
follow trace fails (event (flow_completed f t ms)) l =
    if trace == t then end fails "completed" l else l
follow trace fails (event (flow_error f t e)) l = if trace == t then end fails "error" l else l
follow trace fails (event (flow_stopped f t ms)) l = if trace == t then end fails "stopped" l else l
follow trace fails (event _) l = l
follow trace fails (lagged n) l = l

abbrev pub log_status : Log → Option String
log_status unknown = none
log_status tracked = some "running"
log_status (closed_as s) = some s

abbrev pub is_open : Log → Bool
is_open tracked = true
is_open _ = false

-- The trace of a start and the identifier made for it are new, and its flow is stored.
abbrev pub IsNew : (id : Uuid) → Received → Recorder → Type 0
IsNew id (event (flow_started f t)) r =
    (status_of t r.tables.executions ≡ none)
    × (has_row id r.tables.executions ≡ false)
    × (is_some (find (has_id f) r.tables.flows) ≡ true)
IsNew id _ r = Unit

-- An earlier execution is closed.
abbrev pub earlier : Option String → Log
earlier none = unknown
earlier (some s) = closed_as s

-- The runs of a recorder that is spawned on the tables, with what the log says of each trace.
pub data Run (show_error : Z8Error → String) (t : FlowTables)
    : Recorder → (Uuid → Log) → Type 0 where
  spawn :
      Run show_error t
        (record { in_flight = λ k. none; tables = t })
        (λ k. earlier (status_of k t.executions))
  next :
      {s : Recorder} {log : Uuid → Log}
      → Run show_error t s log
      → (now : ℕ) (fails : Failure) (id : Uuid) (e : Received) → IsNew id e s
      → Run show_error t (receive show_error now fails id e s) (λ k. follow k fails e (log k))

pub open_running : (l : Log) → is_open l ≡ true → log_status l ≡ some "running"
open_running unknown e = cc
open_running tracked e = refl
open_running (closed_as s) e = cc

pub end_not_open : (fails : Failure) (s : String) (l : Log) → is_open (end fails s l) ≡ false
end_not_open fails s unknown = refl
end_not_open none s tracked = refl
end_not_open (some text) s tracked = refl
end_not_open fails s (closed_as x) = refl

pub end_again :
    (fails : Failure) (s : String) (l : Log)
    → is_open l ≡ false
    → log_status (end fails s l) ≡ log_status l
end_again fails s unknown e = refl
end_again fails s tracked e = cc
end_again fails s (closed_as x) e = refl

pub end_unwritten : (text s : String) (l : Log) → log_status (end (some text) s l) ≡ log_status l
end_unwritten text s unknown = refl
end_unwritten text s tracked = refl
end_unwritten text s (closed_as x) = refl

pub end_written : (s : String) (l : Log) → is_open l ≡ true → log_status (end none s l) ≡ some s
end_written s unknown e = cc
end_written s tracked e = refl
end_written s (closed_as x) e = cc
