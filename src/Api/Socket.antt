-- ===== src/Api/Socket.antt =====
-- `handle_socket` of crates/z8run-api/src/ws.rs: which events of the engine a client is
-- sent.
pub mod Owned
use z8run.Base.{
  ℕ, String, Bool, true, false, not, ◌&&◌, Option, none, some, List, [], ◌∷◌, ◌++◌, if◌then◌else◌,
  ◌==◌,
}
use z8run.Error.{Uuid}
use z8run.Engine.{EngineEvent, event_flow_id}
use z8run.Storage.{StorageResult, ok, err, Failure}
use z8run.Storage.Flows.{FlowTables, get_flow_owner, is_user}

-- The cache of a connection, by flow, and the events that were sent.
pub record Socket : Type 0 where
  pub ownership : Uuid → Option Bool
  pub sent : List EngineEvent

abbrev pub new_socket : Socket
new_socket = record { ownership = λ f. none; sent = [] }

-- `matches!(…, Ok(Some(owner)) if owner == user_id)`
abbrev pub is_owner : (user : Uuid) → StorageResult (Option Uuid) → Bool
is_owner user (err e) = false
is_owner user (ok owner) = is_user user owner

abbrev pub remember : Uuid → Bool → (Uuid → Option Bool) → Uuid → Option Bool
remember flow_id owned m f = if f == flow_id then some owned else m f

abbrev pub forward : EngineEvent → Bool → Socket → Socket
forward e owned s = if owned then record s { sent = s.sent ++ e ∷ [] } else s

abbrev pub resolved :
    (user : Uuid) → Failure → EngineEvent → FlowTables → Socket → Option Bool → Socket
resolved user fails e t s (some owned) = forward e owned s
resolved user fails e t s none =
    let owned = is_owner user (get_flow_owner fails (event_flow_id e) t) in
    forward e owned (record s { ownership = remember (event_flow_id e) owned s.ownership })

-- An event, with the tables that are read for it.
unfoldable pub on_event : (user : Uuid) → Failure → EngineEvent → FlowTables → Socket → Socket
unfolding get_flow_owner event_flow_id
on_event user fails e t s = resolved user fails e t s (s.ownership (event_flow_id e))

-- A turn of the loop: an event, with the failure and the tables of its lookup and whether the client
-- can still be sent to; events that the channel has dropped; a ping, a message of the client or a
-- closed channel, after which the loop goes on; and what ends it.
pub record Seen : Type 0 where
  pub e : EngineEvent
  pub fails : Failure
  pub tables : FlowTables
  pub sends : Bool

pub data Turn : Type 0 where
  received : Seen → Turn
  lagged : ℕ → Turn
  idle : Turn
  ended : Turn

-- Whether a send is tried: the cache has the owner after the lookup.
abbrev pub known_as : Option Bool → Bool
known_as none = false
known_as (some owned) = owned

abbrev pub is_owned : Uuid → Socket → Bool
is_owned f s = known_as (s.ownership f)

-- The cache is kept although the send fails, but then the loop ends.
abbrev pub unsent : Socket → Socket → Socket
unsent s s' = record s' { sent = s.sent }

-- The loop over the turns, and the connection where it ends.
unfoldable pub on_events : (user : Uuid) → List Turn → Socket → Socket
unfolding on_event
on_events user [] s = s
on_events user (received x ∷ turns) s =
    let s' = on_event user x.fails x.e x.tables s in
    let rest = on_events user turns s' in
    if is_owned (event_flow_id x.e) s' && not x.sends then unsent s s' else rest
on_events user (lagged n ∷ turns) s = on_events user turns s
on_events user (idle ∷ turns) s = on_events user turns s
on_events user (ended ∷ turns) s = s
