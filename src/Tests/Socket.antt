-- ===== src/Tests/Socket.antt =====
-- A client that owns one of the two flows whose events it meets.
use z8run.Base.{Bool, true, false, none, some, List, [], ◌∷◌, find, filter, ◌==◌, ◌≡◌, refl}
use z8run.Error.{Uuid}
use z8run.Flow.{new_flow}
use z8run.Engine.{EngineEvent, flow_started, flow_stopped, event_flow_id}
use z8run.Storage.Flows.{has_id, get_flow_owner}
use z8run.Api.Socket.{Turn, received, lagged, idle, new_socket, on_event, on_events}
use z8run.Api.Socket.Owned.{IsStable, events_of, about, on_events_lem, on_events_misses}
use z8run.Tests.Executions.{tables}

abbrev seen : (sends : Bool) → EngineEvent → Turn
seen sends e = received (record { e = e; fails = none; tables = tables; sends = sends })

-- The last event comes after a send that fails.
abbrev met : List Turn
met =
    seen true (flow_started 5 4)
    ∷ seen true (flow_started 7 6)
    ∷ lagged 3
    ∷ idle
    ∷ seen true (flow_stopped 5 4 2)
    ∷ seen false (flow_started 5 8)
    ∷ seen true (flow_stopped 5 8 1)
    ∷ []

abbrev owns : Uuid → Bool
owns f = f == 5

runs : Unit {0}
unfolding find filter has_id new_flow get_flow_owner event_flow_id on_event on_events
runs = tt

met-IsStable : IsStable 9 owns met
unfolding runs
met-IsStable = (refl, (refl, (refl, (refl, (refl, tt)))))

sends_two : (on_events 9 met new_socket).sent ≡ flow_started 5 4 ∷ flow_stopped 5 4 2 ∷ []
unfolding runs
sends_two = refl

on_events_lem_example : (on_events 9 met new_socket).sent ≡ events_of owns met
on_events_lem_example = on_events_lem 9 owns met met-IsStable

on_events_misses_example :
    about
      (event_flow_id (flow_started 5 4))
      (on_events 9 met (on_event 9 (some "busy") (flow_started 5 4) tables new_socket)).sent
    ≡ about (event_flow_id (flow_started 5 4)) []
on_events_misses_example = on_events_misses 9 (flow_started 5 4) "busy" tables met new_socket refl
