-- ===== src/Engine/Lifecycle/Cancel.antt =====
-- `stop` and `cancel_execution` of engine.rs, and the drivers of the executions that they reach.
use z8run.Base.{
  ◌⊎◌, inl, inr, ℕ, ◌+◌, ◌<◌, ◌≡◌, refl, ap, ◌∙◌, true, false, none, some, List, [], ◌∷◌, elem,
  count, is_some, ◌==◌, if◌then◌else◌, arith, ==→≡, Bool-cases, some_inv,
}
use z8run.Error.{Uuid, Z8Result, ok, err}
use z8run.Flow.{stopped}
use z8run.Engine.{
  ActiveFlow, ActiveFlows, CancelHandle, FlowEngine, get_active, stop_all, stop, cancel_execution,
  Phase, executing, stopping, finishing, marking, removing, gone, Driver, next_phase, access,
  advance, register, is_cancelled, send_event, set_execution_status, remove_execution,
}
use z8run.Engine.Lifecycle.{
  outcome, total, loud, access-outcome, register_lem, cancel-entry, stop_entry, get-set_status,
  get-stop_all,
}
use z8run.Engine.Lifecycle.World.{
  World, Step, execute, stop_flow, cancel_trace, drive, Reach, here, next, weigh, weigh-split,
  owned,
}

stop_all_keeps :
    (h flow_id : ℕ) (m : ActiveFlows) (flags : List CancelHandle)
    → elem h flags ≡ true
    → elem h (stop_all flow_id m flags).1 ≡ true
unfolding stop_all elem count
stop_all_keeps h flow_id [] flags s = s
stop_all_keeps h flow_id ((k, a) ∷ m) flags s =
    stop_all_keeps h flow_id m (if a.flow_id == flow_id then a.cancel ∷ flags else flags)
      (ground arith)

flag_added :
    (h c f flow_id : ℕ) (flags : List CancelHandle)
    → c ≡ h
    → f ≡ flow_id
    → elem h (if f == flow_id then c ∷ flags else flags) ≡ true
unfolding elem count
flag_added h c f flow_id flags e s = ground arith

stop_all_flags :
    (t flow_id : ℕ) (m : ActiveFlows) (flags : List CancelHandle) (a : ActiveFlow)
    → get_active t m ≡ some a
    → a.flow_id ≡ flow_id
    → elem a.cancel (stop_all flow_id m flags).1 ≡ true
unfolding stop_all get_active
stop_all_flags t flow_id [] flags a g s = cc
stop_all_flags t flow_id ((k, b) ∷ m) flags a g s =
    let flags' = if b.flow_id == flow_id then b.cancel ∷ flags else flags in
    elim (Bool-cases (k == t)) [
      | inl this ↦
          let same : b ≡ a = some_inv (rw this at g) in
          stop_all_keeps a.cancel flow_id m flags' (
            flag_added a.cancel b.cancel b.flow_id flow_id flags (ap (λ x. x.cancel) same)
              (ap (λ x. x.flow_id) same ∙ s))
      | inr other ↦ stop_all_flags t flow_id m flags' a (rw other at g) s
    ]

-- `stop` marks every execution of the flow as stopped and sets its cancel flag, changes no entry
-- of another flow, removes none and sends no event.
pub stop_effect :
    (t flow_id : Uuid) (e : FlowEngine)
    → (get_active t (stop flow_id e).active_flows
        ≡ stop_entry flow_id (get_active t e.active_flows))
      × ((a : ActiveFlow)
          → get_active t e.active_flows ≡ some a
          → a.flow_id ≡ flow_id
          → is_cancelled (stop flow_id e) a.cancel ≡ true)
      × ((stop flow_id e).events ≡ e.events)
unfolding stop is_cancelled
stop_effect t flow_id e = (
  get-stop_all t flow_id e.active_flows e.cancelled,
  stop_all_flags t flow_id e.active_flows e.cancelled,
  refl,
)

-- `cancel_execution` says whether the execution is still active; if it is, its entry is marked as
-- stopped and its cancel flag is set, and if not, nothing changes. Other entries are unchanged.
pub cancel_execution_effect :
    (t : Uuid) (e : FlowEngine)
    → ((cancel_execution t e).1 ≡ is_some (get_active t e.active_flows))
      × (get_active t e.active_flows ≡ none → (cancel_execution t e).0 ≡ e)
      × ((a : ActiveFlow)
          → get_active t e.active_flows ≡ some a
          → (is_cancelled (cancel_execution t e).0 a.cancel ≡ true)
            × (get_active t (cancel_execution t e).0.active_flows
                ≡ some (record a { status = stopped })))
      × ((k : Uuid)
          → (t == k) ≡ false
          → get_active k (cancel_execution t e).0.active_flows ≡ get_active k e.active_flows)
unfolding cancel_execution is_cancelled elem count
cancel_execution_effect t e = (
  ground arith,
  λ n. ground arith,
  λ a g. (ground arith, ground (arith, get-set_status t t stopped e.active_flows)),
  λ k other. ground (arith, get-set_status k t stopped e.active_flows),
)

-- A driver of a trace that is past its check towards a completion, or that has another handle.
abbrev pub noisy : CancelHandle → Uuid → Driver → ℕ
noisy h t d = if d.trace_id == t then loud d.phase + (if d.cancel == h then 0 else 1) else 0

record Calm (t : Uuid) (h : CancelHandle) (k : ℕ) (w : World) : Type 0 where
  flagged : elem h w.engine.cancelled ≡ true
  owns : 0 < weigh owned t w.drivers
  quiet : weigh (noisy h) t w.drivers ≡ 0
  kept : total (outcome t) w.engine.events ≡ k

-- The flag makes the driver stop.
quiet-next_phase :
    (p : Phase) (h : CancelHandle) (d : Driver) (r : Z8Result (Unit {0})) (e : FlowEngine)
    → elem h e.cancelled ≡ true
    → loud p ≡ 0
    → d.cancel ≡ h
    → loud (next_phase p d r e) ≡ 0
unfolding is_cancelled
quiet-next_phase executing h d r e flag q same = rw (ap (λ c. elem c e.cancelled) same ∙ flag) refl
quiet-next_phase stopping h d r e flag q same = refl
quiet-next_phase (finishing (ok u)) h d r e flag q same = absurd (omega arith)
quiet-next_phase (finishing (err x)) h d r e flag q same = absurd (omega arith)
quiet-next_phase (marking s) h d r e flag q same = absurd (omega arith)
quiet-next_phase removing h d r e flag q same = refl
quiet-next_phase gone h d r e flag q same = refl

noisy-next :
    (t : Uuid) (h : CancelHandle) (d : Driver) (r : Z8Result (Unit {0})) (e : FlowEngine)
    → elem h e.cancelled ≡ true
    → noisy h t d ≡ 0
    → noisy h t (record d { phase = next_phase d.phase d r e }) ≡ 0
noisy-next t h d r e flag q = elim (Bool-cases (d.trace_id == t)) [
  | inl this ↦ ground (arith, quiet-next_phase d.phase h d r e flag (ground arith) (ground arith))
  | inr other ↦ rw other refl
]

cancel_keeps :
    (h t : ℕ) (e : FlowEngine)
    → elem h e.cancelled ≡ true
    → elem h (cancel_execution t e).0.cancelled ≡ true
unfolding cancel_execution elem count
cancel_keeps h t e s = ground arith

Step-Calm :
    {u v : World} (t : Uuid) (h : CancelHandle) (k : ℕ) → Step u v → Calm t h k u → Calm t h k v
unfolding advance stop register send_event set_execution_status remove_execution
Step-Calm t h k (execute w j i f plan new unused) calm = record {
  flagged = calm.flagged;
  owns = ground (arith, calm.owns);
  quiet = ground (arith, calm.quiet, calm.owns, other_trace);
  kept = (register_lem t j i f plan w.engine).2 ∙ calm.kept;
}
  where
    other_trace : (j == t) ≡ false
    other_trace = elim (Bool-cases (j == t)) [
      | inl same ↦
          absurd (omega (arith, calm.owns, new, ap (λ x. weigh owned x w.drivers) (==→≡ j t same)))
      | inr other ↦ other
    ]
Step-Calm t h k (stop_flow w flow_id) calm = record {
  flagged = stop_all_keeps h flow_id w.engine.active_flows w.engine.cancelled calm.flagged;
  owns = calm.owns;
  quiet = calm.quiet;
  kept = calm.kept;
}
Step-Calm t h k (cancel_trace w j) calm = record {
  flagged = cancel_keeps h j w.engine calm.flagged;
  owns = calm.owns;
  quiet = calm.quiet;
  kept = ap (total (outcome t)) (cancel-entry t j w.engine).1 ∙ calm.kept;
}
Step-Calm t h k (drive e before d after result ms) calm =
    let moved = record d { phase = next_phase d.phase d result e } in
    let still : noisy h t d ≡ 0 =
      omega (arith, calm.quiet, weigh-split (noisy h) t before d after) in
    record {
      flagged = access_keeps d.phase;
      owns = omega (
        arith,
        calm.owns,
        weigh-split owned t before d after,
        weigh-split owned t before moved after,
      );
      quiet = omega (
        arith,
        calm.quiet,
        noisy-next t h d result e calm.flagged still,
        weigh-split (noisy h) t before d after,
        weigh-split (noisy h) t before moved after,
      );
      kept = access-outcome t d ms e d.phase (silent still) ∙ calm.kept;
    }
  where
    silent : noisy h t d ≡ 0 → ((d.trace_id == t) ≡ false) ⊎ (loud d.phase ≡ 0)
    silent q = elim (Bool-cases (d.trace_id == t)) [
      | inl same ↦ inr (ground arith)
      | inr other ↦ inl other
    ]

    access_keeps : (p : Phase) → elem h (access p d ms e).cancelled ≡ true
    access_keeps (finishing (ok u)) = calm.flagged
    access_keeps (finishing (err x)) = calm.flagged
    access_keeps _ = calm.flagged

Reach-Calm :
    {u v : World} (t : Uuid) (h : CancelHandle) (k : ℕ) → Reach u v → Calm t h k u → Calm t h k v
Reach-Calm t h k here calm = calm
Reach-Calm t h k (next r s) calm = Step-Calm t h k s (Reach-Calm t h k r calm)

-- Once the cancel flag of an execution is set, and its driver holds that handle and has not yet
-- found the flag unset, no interleaving makes the driver report a completion or a failure.
pub cancelled_silent :
    {u v : World} (t : Uuid) (h : CancelHandle)
    → elem h u.engine.cancelled ≡ true
    → 0 < weigh owned t u.drivers
    → weigh (noisy h) t u.drivers ≡ 0
    → Reach u v
    → total (outcome t) v.engine.events ≡ total (outcome t) u.engine.events
cancelled_silent {u} t h flag owns quiet r =
    let calm : Calm t h (total (outcome t) u.engine.events) u = record {
      flagged = flag;
      owns = owns;
      quiet = quiet;
      kept = refl;
    } in
    (Reach-Calm t h (total (outcome t) u.engine.events) r calm).kept
