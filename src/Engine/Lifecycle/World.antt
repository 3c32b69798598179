-- ===== src/Engine/Lifecycle/World.antt =====
-- The engine with the driver tasks that it has spawned, as a step relation: between two accesses
-- of a driver any other driver, and any request, may run.
use z8run.Base.{
  ℕ, ◌+◌, ◌≤◌, ◌<◌, ◌≡◌, refl, ap, ◌∙◌, false, none, List, [], ◌∷◌, ◌++◌, elem, is_some, ltb, ◌==◌,
  if◌then◌else◌, arith,
}
use z8run.Error.{Uuid, Z8Result}
use z8run.Flow.{Flow}
use z8run.Scheduler.{ExecutionPlan}
use z8run.Engine.{
  CancelHandle, FlowEngine, get_active, stop, cancel_execution, executing, Driver, next_phase,
  access, advance, register,
}
use z8run.Engine.Lifecycle.{
  terminal, total, alive, past, access-entry, access-terminal, past-next_phase, alive-next_phase,
  register_lem, stop-entry, cancel-entry,
}

pub record World : Type 0 where
  pub engine : FlowEngine
  pub drivers : List Driver

abbrev pub new_driver : Uuid → Uuid → CancelHandle → Driver
new_driver flow_id t h = record { flow_id = flow_id; trace_id = t; cancel = h; phase = executing }

abbrev pub weigh : (Uuid → Driver → ℕ) → Uuid → List Driver → ℕ
weigh w t [] = 0
weigh w t (d ∷ ds) = w t d + weigh w t ds

-- The drivers of a trace, those with an entry and those that have sent their terminal event.
abbrev pub owned : Uuid → Driver → ℕ
owned t d = if d.trace_id == t then 1 else 0

abbrev pub live : Uuid → Driver → ℕ
live t d = if d.trace_id == t then alive d.phase else 0

abbrev pub ended : Uuid → Driver → ℕ
ended t d = if d.trace_id == t then past d.phase else 0

-- The trace id of a new execution is fresh. `drive` is one access of one driver.
pub data Step : World → World → Type 0 where
  execute :
      (w : World) (t : Uuid) (h : CancelHandle) (f : Flow) (plan : ExecutionPlan)
      → weigh owned t w.drivers ≡ 0
      → elem h w.engine.cancelled ≡ false
      → Step w (record {
        engine = register t h f plan w.engine;
        drivers = new_driver f.id t h ∷ w.drivers;
      })
  stop_flow : (w : World) (flow_id : Uuid) → Step w (record w { engine = stop flow_id w.engine })
  cancel_trace :
      (w : World) (t : Uuid) → Step w (record w { engine = (cancel_execution t w.engine).0 })
  drive :
      (e : FlowEngine) (before : List Driver) (d : Driver) (after : List Driver)
      (result : Z8Result (Unit {0})) (ms : ℕ)
      → Step
          (record { engine = e; drivers = before ++ d ∷ after })
          (record {
            engine = (advance d result ms e).0;
            drivers = before ++ (advance d result ms e).1 ∷ after;
          })

pub data Reach (w : World) : World → Type 0 where
  here : Reach w w
  next : {u v : World} → Reach w u → Step u v → Reach w v

-- `FlowEngine::new`
abbrev pub fresh : World
fresh = record { engine = record { active_flows = []; cancelled = []; events = [] }; drivers = [] }

pub record Inv (w : World) : Type 0 where
  pub unique : (t : Uuid) → weigh owned t w.drivers ≤ 1
  pub listed :
      (t : Uuid) → is_some (get_active t w.engine.active_flows) ≡ ltb 0 (weigh live t w.drivers)
  pub once : (t : Uuid) → total (terminal t) w.engine.events ≡ weigh ended t w.drivers

pub weigh-split :
    (w : Uuid → Driver → ℕ) (t : Uuid) (xs : List Driver) (d : Driver) (ys : List Driver)
    → weigh w t (xs ++ d ∷ ys) ≡ weigh w t xs + w t d + weigh w t ys
weigh-split w t [] d ys = omega arith
weigh-split w t (x ∷ xs) d ys = omega (arith, weigh-split w t xs d ys)

live-le-owned : (t : Uuid) (ds : List Driver) → weigh live t ds ≤ weigh owned t ds
live-le-owned t [] = omega arith
live-le-owned t (d ∷ ds) = ground (arith, live-le-owned t ds)

fresh-Inv : Inv fresh
unfolding get_active total
fresh-Inv = record { unique = λ t. omega arith; listed = λ t. refl; once = λ t. refl }

module _ (e : FlowEngine) (before : List Driver) (d : Driver) (after : List Driver)
    (result : Z8Result (Unit {0})) (ms : ℕ)
    (inv : Inv (record { engine = e; drivers = before ++ d ∷ after })) where
  abbrev moved : Driver
  moved = record d { phase = next_phase d.phase d result e }

  drive-listed :
      (t : Uuid)
      → is_some (get_active t (access d.phase d ms e).active_flows)
        ≡ ltb 0 (weigh live t (before ++ moved ∷ after))
  drive-listed t = ground (
    arith,
    inv.listed t,
    inv.unique t,
    access-entry t d ms e d.phase,
    alive-next_phase d.phase d result e,
    weigh-split live t before d after,
    weigh-split live t before moved after,
    weigh-split owned t before d after,
    live-le-owned t before,
    live-le-owned t after,
  )

  drive-once :
      (t : Uuid)
      → total (terminal t) (access d.phase d ms e).events ≡ weigh ended t (before ++ moved ∷ after)
  drive-once t = ground (
    arith,
    inv.once t,
    access-terminal t d ms e d.phase,
    past-next_phase d.phase d result e,
    weigh-split ended t before d after,
    weigh-split ended t before moved after,
  )

  drive_unique : (t : Uuid) → weigh owned t (before ++ moved ∷ after) ≤ 1
  drive_unique t = omega (
    arith,
    inv.unique t,
    weigh-split owned t before d after,
    weigh-split owned t before moved after,
  )

Step-Inv : {u v : World} → Step u v → Inv u → Inv v
unfolding advance
Step-Inv (execute w t h f plan new unused) inv = record {
  unique = λ k. ground (arith, inv.unique k, new);
  listed = λ k.
      ground (
        arith,
        inv.listed k,
        (register_lem k t h f plan w.engine).0,
        new,
        live-le-owned k w.drivers,
      );
  once = λ k. ground (arith, inv.once k, (register_lem k t h f plan w.engine).1);
}
Step-Inv (stop_flow w flow_id) inv = record {
  unique = inv.unique;
  listed = λ k. (stop-entry k flow_id w.engine).0 ∙ inv.listed k;
  once = λ k. ap (total (terminal k)) (stop-entry k flow_id w.engine).1 ∙ inv.once k;
}
Step-Inv (cancel_trace w t) inv = record {
  unique = inv.unique;
  listed = λ k. (cancel-entry k t w.engine).0 ∙ inv.listed k;
  once = λ k. ap (total (terminal k)) (cancel-entry k t w.engine).1 ∙ inv.once k;
}
Step-Inv (drive e before d after result ms) inv = record {
  unique = drive_unique e before d after result ms inv;
  listed = drive-listed e before d after result ms inv;
  once = drive-once e before d after result ms inv;
}

-- Under every interleaving: a trace has at most one driver, the map of active executions has an
-- entry for it just while that driver is not gone, and the terminal events sent for it are one if
-- the driver is past its send and none before.
pub Reach-Inv : {w : World} → Reach fresh w → Inv w
Reach-Inv here = fresh-Inv
Reach-Inv (next r s) = Step-Inv s (Reach-Inv r)

ended-le-owned : (t : Uuid) (ds : List Driver) → weigh ended t ds ≤ weigh owned t ds
ended-le-owned t [] = omega arith
ended-le-owned t (d ∷ ds) = ground (arith, ended-le-owned t ds)

-- Under every interleaving from a fresh engine, where each execution starts with a new trace id and
-- a handle whose flag is not set, an execution has at most one terminal event, and one that has
-- left the map of active executions has exactly one.
pub terminal_once :
    {w : World} (t : Uuid)
    → Reach fresh w
    → (total (terminal t) w.engine.events ≤ 1)
      × (0 < weigh owned t w.drivers
          → get_active t w.engine.active_flows ≡ none
          → total (terminal t) w.engine.events ≡ 1)
terminal_once {w} t r =
    let inv = Reach-Inv r in
    (
      omega (arith, inv.once t, inv.unique t, ended-le-owned t w.drivers),
      λ o n. ground (
        arith,
        inv.once t,
        inv.unique t,
        inv.listed t,
        not_live t w.drivers,
        ended-le-owned t w.drivers,
      ),
    )
  where
    not_live : (t : Uuid) (ds : List Driver) → weigh owned t ds ≤ weigh live t ds + weigh ended t ds
    not_live t [] = omega arith
    not_live t (d ∷ ds) = ground (arith, not_live t ds)
