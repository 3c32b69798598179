-- ===== src/Engine/Run/Ended.antt =====
-- The events that a task of engine.rs adds: those that report its node as completed or skipped.
use z8run.Base.{
  ℕ, ◌+◌, ◌≡◌, refl, ap, ◌∙◌, inl, inr, Bool, true, false, Option, none, some, List, [], ◌∷◌, elem,
  length, ◌==◌, if◌then◌else◌, Bool-cases, arith, ◌++◌,
}
use z8run.Json.{Value}
use z8run.Error.{Uuid, Z8Result, ok, err}
use z8run.Message.{FlowMessage}
use z8run.Node.{Node}
use z8run.Flow.{Flow}
use z8run.Engine.{EngineEvent, node_started, node_completed, node_skipped}
use z8run.Engine.Lifecycle.{total, total-snoc}
use z8run.Engine.Run.Dispatch.{matching, after_send, dispatch-skip, dispatch-full, dispatch-sent}
use z8run.Engine.Run.{
  RunState, emit, Queues, OutChannel, NodeResult, finished, Env, capacity, send, sent_event,
  dispatch_message, dispatch_outputs, first_preview, process_all, make_executor, with_executor,
  run_receiver,
}

-- The events that report a node as completed or skipped.
abbrev pub ended : Uuid → EngineEvent → ℕ
ended id (node_completed f n d o) = if n == id then 1 else 0
ended id (node_skipped f n) = if n == id then 1 else 0
ended id _ = 0

abbrev pub endings : Uuid → RunState → ℕ
endings id s = total (ended id) s.events

emit-endings :
    (id : Uuid) (ev : EngineEvent) (s : RunState)
    → endings id (emit ev s) ≡ endings id s + ended id ev
unfolding emit
emit-endings id ev s = total-snoc (ended id) s.events ev

module _ (env : Env) (f : Flow) (id : Uuid) where
  sent-endings :
      (node_id k : Uuid) (msg : FlowMessage) (s : RunState)
      → endings id (emit (sent_event env f node_id k msg) s) ≡ endings id s
  sent-endings node_id k msg s = omega (arith, emit-endings id (sent_event env f node_id k msg) s)

  dispatch_message-endings :
      (node_id : Uuid) (single : Bool) (msg : FlowMessage) (outs : List OutChannel) (s : RunState)
      → endings id (dispatch_message env f node_id single msg outs s).1 ≡ endings id s
  unfolding dispatch_message
  dispatch_message-endings node_id single msg [] s = refl
  dispatch_message-endings node_id single msg ((port, k) ∷ outs) s =
      elim (Bool-cases (matching single msg port)) [
        | inl hit ↦
            go hit (send (capacity env f) k msg s.queues) refl
              (dispatch_message-endings node_id single msg outs)
        | inr miss ↦
            ap (λ r. endings id r.1) (dispatch-skip env f node_id single msg port k outs s miss)
            ∙ dispatch_message-endings node_id single msg outs s
      ]
    where
      go :
          matching single msg port ≡ true
          → (o : Option Queues) → send (capacity env f) k msg s.queues ≡ o
          → ((s : RunState)
              → endings id (dispatch_message env f node_id single msg outs s).1 ≡ endings id s)
          → endings id (dispatch_message env f node_id single msg ((port, k) ∷ outs) s).1
            ≡ endings id s
      go hit none e rec =
          ap (λ r. endings id r.1) (dispatch-full env f node_id single msg port k outs s hit e)
          ∙ sent-endings node_id k msg s
      go hit (some queues) e rec =
          ap (λ r. endings id r.1) (dispatch-sent env f node_id single msg port k outs s hit e)
          ∙ rec (after_send env f node_id single msg k s queues)
          ∙ sent-endings node_id k msg s

  dispatch_outputs-endings :
      (node_id : Uuid) (msgs : List FlowMessage) (outs : List OutChannel) (s : RunState)
      → endings id (dispatch_outputs env f node_id msgs outs s).1 ≡ endings id s
  unfolding dispatch_outputs
  dispatch_outputs-endings node_id [] outs s = refl
  dispatch_outputs-endings node_id (msg ∷ msgs) outs s =
      let one = dispatch_message-endings node_id (length outs == 1) msg outs s in
      elim (Bool-cases (dispatch_message env f node_id (length outs == 1) msg outs s).0) [
        | inl sent ↦
            rw (dispatch_outputs, sent)
              (dispatch_outputs-endings node_id msgs outs
                  (dispatch_message env f node_id (length outs == 1) msg outs s).1
                ∙ one)
        | inr full ↦ rw (dispatch_outputs, full) one
      ]

  -- What a task that finished adds.
  unfoldable pub Finishes : Node → RunState → NodeResult × RunState → Type 0
  Finishes n s r = r.0 ≡ finished → endings id r.1 ≡ endings id s + (if n.id == id then 1 else 0)

  pub process_all-Finishes :
      (n : Node) (outs : List OutChannel) (opened : Bool) (seen msgs : List FlowMessage)
      (preview : Option Value) (s : RunState)
      → Finishes n s (process_all env f n outs opened seen msgs preview s)
  unfolding process_all Finishes
  process_all-Finishes n outs true seen [] preview s = λ h. cc
  process_all-Finishes n outs false seen [] preview s =
      λ h. emit-endings id (node_completed f.id n.id (env.duration_us n) preview) s
  process_all-Finishes n outs opened seen (msg ∷ msgs) preview s =
      go (env.process n seen msg) refl (process_all-Finishes n outs opened (seen ++ msg ∷ []) msgs)
    where
      go :
          (r : Z8Result (List FlowMessage))
          → env.process n seen msg ≡ r
          → ((preview : Option Value) (s : RunState)
              → Finishes n s (process_all env f n outs opened (seen ++ msg ∷ []) msgs preview s))
          → Finishes n s (process_all env f n outs opened seen (msg ∷ msgs) preview s)
      go (err x) e rec = rw (process_all, e) (λ h. cc)
      go (ok outputs) e rec =
          let one = dispatch_outputs-endings n.id outputs outs s in
          elim (Bool-cases (dispatch_outputs env f n.id outputs outs s).0) [
            | inl sent ↦
                rw (process_all, e, sent)
                  (λ h.
                    rec (first_preview env f preview outputs)
                      (dispatch_outputs env f n.id outputs outs s).1 h
                    ∙ ap (λ k. k + (if n.id == id then 1 else 0)) one)
            | inr full ↦ rw (process_all, e, full) (λ h. cc)
          ]

  pub with_executor-Finishes :
      (n : Node) (s : RunState) (body : RunState → NodeResult × RunState)
      → ((s : RunState) → Finishes n s (body s))
      → Finishes n s (with_executor env f n s body)
  unfolding Finishes
  with_executor-Finishes n s body h = go (make_executor env f n) refl
    where
      started : RunState
      started = emit (node_started f.id n.id) s

      go :
          (r : Z8Result (Unit {0}))
          → make_executor env f n ≡ r
          → Finishes n s (with_executor env f n s body)
      go (err x) e = rw e (λ k. cc)
      go (ok u) e = rw e (λ k.
          h started k
          ∙ ap (λ m. m + (if n.id == id then 1 else 0))
              (omega (arith, emit-endings id (node_started f.id n.id) s)))

  pub run_receiver-Finishes :
      (n : Node) (outs : List OutChannel) (q : List FlowMessage) (s : RunState)
      → Finishes n s (run_receiver env f n outs q s)
  unfolding run_receiver Finishes
  run_receiver-Finishes n outs [] s = elim (Bool-cases (elem n.id s.senders)) [
    | inl opened ↦ rw (run_receiver, opened) (λ h. cc)
    | inr closed ↦ rw (run_receiver, closed) (λ h. emit-endings id (node_skipped f.id n.id) s)
  ]
  run_receiver-Finishes n outs (msg ∷ msgs) s =
      with_executor-Finishes n s
        (process_all env f n outs (elem n.id s.senders) [] (msg ∷ msgs) none)
        (process_all-Finishes n outs (elem n.id s.senders) [] (msg ∷ msgs) none)
