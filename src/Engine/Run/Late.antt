-- ===== src/Engine/Run/Late.antt =====
-- What the steps of `execute_plan` of engine.rs deliver to a node after its channel is closed.
use z8run.Base.{
  ℕ, ◌≡◌, ◌≢◌, refl, ap, sym, ◌∙◌, subst, inl, inr, Bool, true, false, Option, none, some, List, [],
  ◌∷◌, ◌++◌, ◌+◌, elem, length, ◌==◌, ==→≡, if◌then◌else◌, All, Bool-cases, arith, Memᴰ,
}
use z8run.Json.{Value}
use z8run.Error.{Uuid, Z8Error, Z8Result, ok, err}
use z8run.Message.{FlowMessage}
use z8run.Node.{Node}
use z8run.Flow.{Edge, Flow, outgoing_edges, find_node}
use z8run.Scheduler.{ExecutionStep}
use z8run.Engine.{EngineEvent, message_sent, node_started, node_completed, node_skipped}
use z8run.Engine.Lifecycle.{total, total-snoc}
use z8run.Engine.Run.Dispatch.{matching, after_send, dispatch-skip, dispatch-full, dispatch-sent}
use z8run.Engine.Run.Channels.{drop_senders-closed, drop_senders-drops, open_channels-open}
use z8run.Engine.Run.{
  RunState, emit, get_queue, remove_queue, Queues, OutChannel, out_channels, NodeResult, PlanResult,
  Env, capacity, send, sent_event, dispatch_message, dispatch_outputs, first_preview, process_all,
  make_executor, with_executor, run_receiver, root_message, run_root, run_node, run_nodes, step_end,
  drop_senders, run_steps,
}

-- The messages that were sent to a node.
abbrev pub arrived : Uuid → EngineEvent → ℕ
arrived t (message_sent f a b m p) = if b == t then 1 else 0
arrived t _ = 0

abbrev pub arrivals : Uuid → RunState → ℕ
arrivals t s = total (arrived t) s.events

emit-arrivals :
    (t : Uuid) (ev : EngineEvent) (s : RunState)
    → arrivals t (emit ev s) ≡ arrivals t s + arrived t ev
unfolding emit
emit-arrivals t ev s = total-snoc (arrived t) s.events ev

ne_false : (k t : Uuid) → k ≢ t → (k == t) ≡ false
ne_false k t h = elim (Bool-cases (k == t)) [ inl e ↦ absurd (h (==→≡ k t e)) | inr e ↦ e ]

-- Nothing was sent to a node, and no sender was made or dropped.
record IsQuiet (t : Uuid) (s s' : RunState) : Type 0 where
  silent : arrivals t s' ≡ arrivals t s
  kept : s'.senders ≡ s.senders

still : (t : Uuid) (s : RunState) → IsQuiet t s s
still t s = record { silent = refl; kept = refl }

moved : (t : Uuid) (s : RunState) (queues : Queues) → IsQuiet t s (record s { queues = queues })
moved t s queues = record { silent = refl; kept = refl }

chain : {t : Uuid} {a b c : RunState} → IsQuiet t a b → IsQuiet t b c → IsQuiet t a c
chain p q = record { silent = q.silent ∙ p.silent; kept = q.kept ∙ p.kept }

module _ (env : Env) (f : Flow) (t : Uuid) where
  emit-IsQuiet : (ev : EngineEvent) (s : RunState) → arrived t ev ≡ 0 → IsQuiet t s (emit ev s)
  unfolding emit
  emit-IsQuiet ev s e = record { silent = omega (arith, emit-arrivals t ev s, e); kept = refl }

  message-IsQuiet :
      (node_id : Uuid) (single : Bool) (msg : FlowMessage) (outs : List OutChannel) (s : RunState)
      → All (λ o. o.1 ≢ t) outs
      → IsQuiet t s (dispatch_message env f node_id single msg outs s).1
  unfolding dispatch_message
  message-IsQuiet node_id single msg [] s h = still t s
  message-IsQuiet node_id single msg ((port, k) ∷ outs) s (ne, h) =
      elim (Bool-cases (matching single msg port)) [
        | inl hit ↦
            go hit (send (capacity env f) k msg s.queues) refl
              (λ s. message-IsQuiet node_id single msg outs s h)
        | inr miss ↦
            subst (λ r. IsQuiet t s r.1)
              (sym (dispatch-skip env f node_id single msg port k outs s miss))
              (message-IsQuiet node_id single msg outs s h)
      ]
    where
      sent : IsQuiet t s (emit (sent_event env f node_id k msg) s)
      sent = emit-IsQuiet (sent_event env f node_id k msg) s (rw (ne_false k t ne) refl)

      go :
          matching single msg port ≡ true
          → (o : Option Queues) → send (capacity env f) k msg s.queues ≡ o
          → ((s : RunState) → IsQuiet t s (dispatch_message env f node_id single msg outs s).1)
          → IsQuiet t s (dispatch_message env f node_id single msg ((port, k) ∷ outs) s).1
      go hit none e rec =
          subst (λ r. IsQuiet t s r.1)
            (sym (dispatch-full env f node_id single msg port k outs s hit e)) sent
      go hit (some queues) e rec =
          subst (λ r. IsQuiet t s r.1)
            (sym (dispatch-sent env f node_id single msg port k outs s hit e))
            (chain sent (
              chain (moved t (emit (sent_event env f node_id k msg) s) queues)
                (rec (after_send env f node_id single msg k s queues))))

  outputs-IsQuiet :
      (node_id : Uuid) (msgs : List FlowMessage) (outs : List OutChannel) (s : RunState)
      → All (λ o. o.1 ≢ t) outs
      → IsQuiet t s (dispatch_outputs env f node_id msgs outs s).1
  unfolding dispatch_outputs
  outputs-IsQuiet node_id [] outs s h = still t s
  outputs-IsQuiet node_id (msg ∷ msgs) outs s h =
      let one = message-IsQuiet node_id (length outs == 1) msg outs s h in
      elim (Bool-cases (dispatch_message env f node_id (length outs == 1) msg outs s).0) [
        | inl sent ↦
            rw (dispatch_outputs, sent)
              (chain one (
                outputs-IsQuiet node_id msgs outs
                  (dispatch_message env f node_id (length outs == 1) msg outs s).1 h))
        | inr full ↦ rw (dispatch_outputs, full) one
      ]

  process_all-IsQuiet :
      (n : Node) (outs : List OutChannel) (opened : Bool) (seen msgs : List FlowMessage)
      (preview : Option Value) (s : RunState)
      → All (λ o. o.1 ≢ t) outs
      → IsQuiet t s (process_all env f n outs opened seen msgs preview s).1
  unfolding process_all
  process_all-IsQuiet n outs true seen [] preview s h = still t s
  process_all-IsQuiet n outs false seen [] preview s h =
      emit-IsQuiet (node_completed f.id n.id (env.duration_us n) preview) s refl
  process_all-IsQuiet n outs opened seen (msg ∷ msgs) preview s h =
      go (env.process n seen msg) refl
        (λ preview s. process_all-IsQuiet n outs opened (seen ++ msg ∷ []) msgs preview s h)
    where
      go :
          (r : Z8Result (List FlowMessage))
          → env.process n seen msg ≡ r
          → ((preview : Option Value) (s : RunState)
              → IsQuiet t s (process_all env f n outs opened (seen ++ msg ∷ []) msgs preview s).1)
          → IsQuiet t s (process_all env f n outs opened seen (msg ∷ msgs) preview s).1
      go (err x) e rec = rw (process_all, e) (still t s)
      go (ok outputs) e rec =
          let one = outputs-IsQuiet n.id outputs outs s h in
          elim (Bool-cases (dispatch_outputs env f n.id outputs outs s).0) [
            | inl sent ↦
                rw (process_all, e, sent)
                  (chain one (
                    rec (first_preview env f preview outputs)
                      (dispatch_outputs env f n.id outputs outs s).1))
            | inr full ↦ rw (process_all, e, full) one
          ]

  with_executor-IsQuiet :
      (n : Node) (s : RunState) (body : RunState → NodeResult × RunState)
      → ((s : RunState) → IsQuiet t s (body s).1)
      → IsQuiet t s (with_executor env f n s body).1
  with_executor-IsQuiet n s body h = go (make_executor env f n) refl
    where
      started : IsQuiet t s (emit (node_started f.id n.id) s)
      started = emit-IsQuiet (node_started f.id n.id) s refl

      go :
          (r : Z8Result (Unit {0}))
          → make_executor env f n ≡ r
          → IsQuiet t s (with_executor env f n s body).1
      go (err x) e = rw e started
      go (ok u) e = rw e (chain started (h (emit (node_started f.id n.id) s)))

  run_receiver-IsQuiet :
      (n : Node) (outs : List OutChannel) (q : List FlowMessage) (s : RunState)
      → All (λ o. o.1 ≢ t) outs
      → IsQuiet t s (run_receiver env f n outs q s).1
  unfolding run_receiver
  run_receiver-IsQuiet n outs [] s h = elim (Bool-cases (elem n.id s.senders)) [
    | inl opened ↦ rw (run_receiver, opened) (still t s)
    | inr closed ↦ rw (run_receiver, closed) (emit-IsQuiet (node_skipped f.id n.id) s refl)
  ]
  run_receiver-IsQuiet n outs (msg ∷ msgs) s h =
      with_executor-IsQuiet n s
        (process_all env f n outs (elem n.id s.senders) [] (msg ∷ msgs) none)
        (λ s'. process_all-IsQuiet n outs (elem n.id s.senders) [] (msg ∷ msgs) none s' h)

  -- Nothing has a channel to a node whose sender is gone.
  no_channel :
      (source : Uuid) (s : RunState)
      → elem t s.senders ≡ false
      → All (λ o. o.1 ≢ t) (out_channels f source s)
  unfolding out_channels
  no_channel source s h = open_channels-open f t (outgoing_edges f source) s.senders h

  module _ (trace_id : Uuid) (trigger : Option FlowMessage) where
    run_node-IsQuiet :
        (n : Node) (s : RunState)
        → elem t s.senders ≡ false
        → IsQuiet t s (run_node env f trace_id trigger n s).1
    unfolding run_node run_root
    run_node-IsQuiet n s h = go (get_queue n.id s.queues) refl
      where
        outs : List OutChannel
        outs = out_channels f n.id s

        go :
            (o : Option (List FlowMessage))
            → get_queue n.id s.queues ≡ o
            → IsQuiet t s (run_node env f trace_id trigger n s).1
        go none e =
            let msgs = root_message env f n trace_id trigger ∷ [] in
            rw (run_node, e)
              (with_executor-IsQuiet n s (process_all env f n outs false [] msgs none)
                (λ s'. process_all-IsQuiet n outs false [] msgs none s' (no_channel n.id s h)))
        go (some q) e =
            rw (run_node, e)
              (chain (moved t s (remove_queue n.id s.queues)) (
                run_receiver-IsQuiet n outs q (record s { queues = remove_queue n.id s.queues })
                  (no_channel n.id s h)))

    run_nodes-IsQuiet :
        (ids : List Uuid) (s : RunState)
        → elem t s.senders ≡ false
        → IsQuiet t s (run_nodes env f trace_id trigger ids s).2
    unfolding run_nodes
    run_nodes-IsQuiet [] s h = still t s
    run_nodes-IsQuiet (k ∷ ids) s h = go (find_node f k) refl (run_nodes-IsQuiet ids)
      where
        go :
            (o : Option Node)
            → find_node f k ≡ o
            → ((s : RunState)
                → elem t s.senders ≡ false
                → IsQuiet t s (run_nodes env f trace_id trigger ids s).2)
            → IsQuiet t s (run_nodes env f trace_id trigger (k ∷ ids) s).2
        go none e rec = rw (run_nodes, e) (still t s)
        go (some n) e rec =
            let one = run_node-IsQuiet n s h in
            rw (run_nodes, e)
              (chain one (rec (run_node env f trace_id trigger n s).1 (ap (elem t) one.kept ∙ h)))

    run_steps-arrivals :
        (cancelled : ExecutionStep → Bool) (steps : List ExecutionStep) (s : RunState)
        → elem t s.senders ≡ false
        → arrivals t (run_steps env f trace_id trigger cancelled steps s).1 ≡ arrivals t s
    unfolding run_steps
    run_steps-arrivals cancelled [] s h = refl
    run_steps-arrivals cancelled (step ∷ steps) s h = elim (Bool-cases (cancelled step)) [
      | inl stop ↦ rw (run_steps, stop) refl
      | inr on ↦ go on (step_end r.1 r.0) refl (run_steps-arrivals cancelled steps next closed)
    ]
      where
        r : List NodeResult × Option Z8Error × RunState
        r = run_nodes env f trace_id trigger step.node_ids s

        quiet : IsQuiet t s r.2
        quiet = run_nodes-IsQuiet step.node_ids s h

        next : RunState
        next = record (r.2) { senders = drop_senders f step.node_ids r.2.senders }

        closed : elem t next.senders ≡ false
        closed = drop_senders-closed f t step.node_ids r.2.senders (ap (elem t) quiet.kept ∙ h)

        go :
            cancelled step ≡ false
            → (o : Option PlanResult) → step_end r.1 r.0 ≡ o
            → arrivals t (run_steps env f trace_id trigger cancelled steps next).1 ≡ arrivals t next
            → arrivals t (run_steps env f trace_id trigger cancelled (step ∷ steps) s).1
              ≡ arrivals t s
        go on (some x) e rec = rw (run_steps, on, e) quiet.silent
        go on none e rec = rw (run_steps, on, e) (rec ∙ quiet.silent)

-- Once a step has run that holds a source of a node, no event of a later step reports a message
-- that is sent to the node, whatever its sources in those steps send: from the end of the tasks of
-- that step on, up to the end of the run, the messages that were sent to it stay as many as they
-- were, if the step is not cancelled.
pub late_source_dropped :
    (env : Env) (f : Flow) (trace_id : Uuid) (trigger : Option FlowMessage)
    (cancelled : ExecutionStep → Bool) (step : ExecutionStep) (later : List ExecutionStep)
    (s : RunState) (id : Uuid) (e : Edge)
    → cancelled step ≡ false
    → Memᴰ id step.node_ids
    → Memᴰ e (outgoing_edges f id)
    → arrivals e.to_node (run_steps env f trace_id trigger cancelled (step ∷ later) s).1
      ≡ arrivals e.to_node (run_nodes env f trace_id trigger step.node_ids s).2
unfolding run_steps
late_source_dropped env f trace_id trigger cancelled step later s id e on m h =
    go (step_end r.1 r.0) refl
  where
    r : List NodeResult × Option Z8Error × RunState
    r = run_nodes env f trace_id trigger step.node_ids s

    next : RunState
    next = record (r.2) { senders = drop_senders f step.node_ids r.2.senders }

    rest :
        arrivals e.to_node (run_steps env f trace_id trigger cancelled later next).1
        ≡ arrivals e.to_node next
    rest =
        run_steps-arrivals env f e.to_node trace_id trigger cancelled later next
          (drop_senders-drops f id e step.node_ids r.2.senders m h)

    go :
        (o : Option PlanResult)
        → step_end r.1 r.0 ≡ o
        → arrivals e.to_node (run_steps env f trace_id trigger cancelled (step ∷ later) s).1
          ≡ arrivals e.to_node r.2
    go (some x) k = rw (run_steps, on, k) refl
    go none k = rw (run_steps, on, k) rest
