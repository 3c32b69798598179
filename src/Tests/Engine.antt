-- ===== src/Tests/Engine.antt =====
-- Executions, their cancellation and previews at small inputs.
use z8run.Base.{
  ℕ, ◌≤◌, ◌<◌, ◌≡◌, refl, String, some, none, List, [], ◌∷◌, elem, count, arith, Option,
}
use z8run.Json.{Value, string, object, Fields, no_fields, entry}
use z8run.Error.{Uuid, Z8Result, ok}
use z8run.Flow.{running}
use z8run.Scheduler.{ExecutionPlan}
use z8run.Engine.{
  ActiveFlow, Driver, FlowEngine, get_active, insert_active, register, cancel_execution, advance,
}
use z8run.Engine.Lifecycle.{terminal, outcome, total}
use z8run.Engine.Lifecycle.World.{
  World, fresh, Reach, here, next, execute, cancel_trace, drive, weigh, owned, terminal_once,
  new_driver,
}
use z8run.Engine.Lifecycle.Cancel.{cancelled_silent}
use z8run.Engine.Preview.{truncate_utf8, truncate_payload, is_sensitive_key}
use z8run.Engine.Preview.Secrets.{object_agree, secret_agree, no_fields_agree, preview_hides}
use z8run.Engine.Start.{execute_with_trigger, Started, execute_with_trigger_lem}
use z8run.Tests.Samples.{chain, insertion_order}

abbrev plan : ExecutionPlan
plan = record { steps = []; total_nodes = 0 }

-- An execution of trace 7 with handle 70 is started.
abbrev started : World
started = record {
  engine = register 7 70 chain plan fresh.engine;
  drivers = new_driver 99 7 70 ∷ [];
}

Reach-started : Reach fresh started
unfolding elem count
Reach-started = next here (execute fresh 7 70 chain plan refl refl)

-- It is cancelled before its driver looks at the flag.
abbrev cancelled : World
cancelled = record started { engine = (cancel_execution 7 started.engine).0 }

Reach-cancelled : Reach fresh cancelled
Reach-cancelled = next Reach-started (cancel_trace started 7)

abbrev driven : World
driven = record {
  engine = (advance (new_driver 99 7 70) (ok tt) 5 cancelled.engine).0;
  drivers = (advance (new_driver 99 7 70) (ok tt) 5 cancelled.engine).1 ∷ [];
}

terminal_once_example :
    (total (terminal 7) cancelled.engine.events ≤ 1)
    × (0 < weigh owned 7 cancelled.drivers
        → get_active 7 cancelled.engine.active_flows ≡ none
        → total (terminal 7) cancelled.engine.events ≡ 1)
terminal_once_example = terminal_once 7 Reach-cancelled

cancelled_silent_example :
    total (outcome 7) driven.engine.events ≡ total (outcome 7) cancelled.engine.events
unfolding cancel_execution register get_active insert_active elem count
cancelled_silent_example =
    cancelled_silent {u = cancelled} {v = driven} 7 70 refl (omega arith) refl
      (next here (drive cancelled.engine [] (new_driver 99 7 70) [] (ok tt) 5))

abbrev running_entry : ActiveFlow
running_entry = record { flow_id = 99; flow = chain; plan = plan; status = running; cancel = 70 }

abbrev busy : FlowEngine
busy = record {
  active_flows = (7, running_entry) ∷ (8, record running_entry { flow_id = 98; cancel = 80 }) ∷ [];
  cancelled = [];
  events = [];
}

-- "aé", cut to two bytes, loses the whole second character.
abbrev accented : List ℕ
accented = 97 ∷ 0xc3 ∷ 0xa9 ∷ []

accented_cut : truncate_utf8 accented 2 ≡ 97 ∷ []
unfolding truncate_utf8
accented_cut = refl

abbrev no_bytes : Value → List ℕ
no_bytes v = []

abbrev ellipsis : List ℕ → String
ellipsis bs = "..."

abbrev more : ℕ → String
more n = "...and more keys"

abbrev headers : String → Fields
headers secret = entry "Authorization" (string secret) no_fields

preview_hides_example :
    truncate_payload no_bytes ellipsis more (λ s. s) (object (headers "Bearer abc"))
    ≡ truncate_payload no_bytes ellipsis more (λ s. s) (object (headers "Bearer xyz"))
unfolding is_sensitive_key
preview_hides_example =
    preview_hides (λ s. s) no_bytes ellipsis more
      (object_agree (
        secret_agree "Authorization" (string "Bearer abc") (string "Bearer xyz") refl
          no_fields_agree))

execute_with_trigger_lem_example :
    (r : Z8Result Uuid × FlowEngine × Option Driver) × (execute_with_trigger insertion_order 9 90
        chain none busy
      ≡ some r)
    × Started insertion_order 9 90 chain busy r
execute_with_trigger_lem_example = execute_with_trigger_lem insertion_order 9 90 chain none busy
