-- ===== src/Engine/Run/Plan.antt =====
-- Which nodes a whole execution of engine.rs reports as completed or skipped.
use z8run.Base.{
  ℕ, ◌+◌, ◌≡◌, ◌≢◌, refl, ap, sym, ◌∙◌, inl, inr, Bool, false, Option, none, some, List, [], ◌∷◌,
  ◌++◌, find, count, ◌==◌, if◌then◌else◌, Bool-cases, some_inv, ==→≡, arith,
}
use z8run.Error.{Uuid, Z8Error, ok}
use z8run.Message.{FlowMessage}
use z8run.Node.{Node}
use z8run.Flow.{Flow, find_node}
use z8run.Scheduler.{ExecutionStep, ExecutionPlan}
use z8run.Engine.Lifecycle.{total}
use z8run.Engine.Run.{
  RunState, get_queue, remove_queue, OutChannel, out_channels, NodeResult, finished, failed,
  blocked, PlanResult, returned, Env, process_all, root_message, run_root, run_node, run_nodes,
  await_all, step_end, drop_senders, run_steps, execute_plan,
}
use z8run.Kahn.{HashOrder}
use z8run.Kahn.Acyclic.{KnownTargets}
use z8run.Scheduler.{compile}
use z8run.Scheduler.Steps.{nodes_of}
use z8run.Scheduler.Compile.{enabled, compile_sound}
use z8run.Engine.Run.Ended.{
  endings, Finishes, process_all-Finishes, with_executor-Finishes, run_receiver-Finishes,
}

count-append : (k : ℕ) (xs ys : List ℕ) → count k (xs ++ ys) ≡ count k xs + count k ys
unfolding count
count-append k [] ys = omega arith
count-append k (x ∷ xs) ys = ground (arith, count-append k xs ys)

find_node_id : (f : Flow) (id : Uuid) (n : Node) → find_node f id ≡ some n → n.id ≡ id
unfolding find_node find
find_node_id f id n = go f.nodes
  where
    go : (ns : List Node) → find (λ x. x.id == id) ns ≡ some n → n.id ≡ id
    go [] = λ h. cc
    go (m ∷ ns) = elim (Bool-cases (m.id == id)) [
      | inl hit ↦ rw hit (λ h. ap (λ x. x.id) (sym (some_inv h)) ∙ ==→≡ m.id id hit)
      | inr miss ↦ rw miss (go ns)
    ]

step_end-cons :
    (o : Option Z8Error) (r : NodeResult) (rs : List NodeResult)
    → step_end o (r ∷ rs) ≡ none
    → (r ≡ finished) × (step_end o rs ≡ none)
unfolding await_all
step_end-cons (some e) r rs h = cc
step_end-cons none finished rs h = (refl, h)
step_end-cons none (failed e) rs h = cc
step_end-cons none blocked rs h = cc

step_end-ok :
    (o : Option Z8Error) (rs : List NodeResult) (r : PlanResult)
    → step_end o rs ≡ some r
    → r ≢ returned (ok tt)
unfolding await_all
step_end-ok (some e) rs r h = λ k. cc
step_end-ok none [] r h = cc
step_end-ok none (finished ∷ rs) r h = step_end-ok none rs r h
step_end-ok none (failed e ∷ rs) r h = λ k. cc
step_end-ok none (blocked ∷ rs) r h = λ k. cc

module _ (env : Env) (f : Flow) (id : Uuid) (trace_id : Uuid) (trigger : Option FlowMessage) where
  run_root-Finishes :
      (n : Node) (outs : List OutChannel) (s : RunState)
      → Finishes env f id n s (run_root env f trace_id trigger n outs s)
  unfolding run_root
  run_root-Finishes n outs s =
      with_executor-Finishes env f id n s
        (process_all env f n outs false [] (root_message env f n trace_id trigger ∷ []) none)
        (process_all-Finishes env f id n outs false [] (root_message env f n trace_id trigger ∷ [])
          none)

  run_node-Finishes :
      (n : Node) (s : RunState) → Finishes env f id n s (run_node env f trace_id trigger n s)
  unfolding run_node Finishes
  run_node-Finishes n s = go (get_queue n.id s.queues) refl
    where
      go :
          (o : Option (List FlowMessage))
          → get_queue n.id s.queues ≡ o
          → Finishes env f id n s (run_node env f trace_id trigger n s)
      go none e = rw (run_node, e) (run_root-Finishes n (out_channels f n.id s) s)
      go (some q) e =
          rw (run_node, e)
            (run_receiver-Finishes env f id n (out_channels f n.id s) q
              (record s { queues = remove_queue n.id s.queues }))

  run_nodes-endings :
      (ids : List Uuid) (s : RunState)
      → let r = run_nodes env f trace_id trigger ids s in
        step_end r.1 r.0 ≡ none → endings id r.2 ≡ endings id s + count id ids
  unfolding run_nodes count Finishes
  run_nodes-endings [] s = λ h. omega arith
  run_nodes-endings (k ∷ ids) s = go (find_node f k) refl (run_nodes-endings ids)
    where
      Ends : List Uuid → RunState → List NodeResult × Option Z8Error × RunState → Type 0
      Ends ids s r = step_end r.1 r.0 ≡ none → endings id r.2 ≡ endings id s + count id ids

      go :
          (o : Option Node)
          → find_node f k ≡ o
          → ((s : RunState) → Ends ids s (run_nodes env f trace_id trigger ids s))
          → Ends (k ∷ ids) s (run_nodes env f trace_id trigger (k ∷ ids) s)
      go none e rec = rw (run_nodes, e) (λ h. cc)
      go (some n) e rec =
          let r = run_node env f trace_id trigger n s in
          let rest = run_nodes env f trace_id trigger ids r.1 in
          rw (run_nodes, e)
            (λ h.
              let (fin, more) = step_end-cons rest.1 r.0 rest.0 h in
              ground (arith, rec r.1 more, run_node-Finishes n s fin, find_node_id f k n e))

  run_steps-endings :
      (cancelled : ExecutionStep → Bool)
      → ((step : ExecutionStep) → cancelled step ≡ false)
      → (steps : List ExecutionStep) (s : RunState)
      → (run_steps env f trace_id trigger cancelled steps s).0 ≡ returned (ok tt)
      → endings id (run_steps env f trace_id trigger cancelled steps s).1
        ≡ endings id s + count id (nodes_of steps)
  unfolding run_steps count nodes_of
  run_steps-endings cancelled never [] s = λ h. omega arith
  run_steps-endings cancelled never (step ∷ steps) s =
      go (step_end r.1 r.0) refl (run_steps-endings cancelled never steps next)
    where
      r : List NodeResult × Option Z8Error × RunState
      r = run_nodes env f trace_id trigger step.node_ids s

      next : RunState
      next = record (r.2) { senders = drop_senders f step.node_ids r.2.senders }

      Ends : List ExecutionStep → RunState → PlanResult × RunState → Type 0
      Ends steps s r =
          r.0 ≡ returned (ok tt) → endings id r.1 ≡ endings id s + count id (nodes_of steps)

      go :
          (o : Option PlanResult)
          → step_end r.1 r.0 ≡ o
          → Ends steps next (run_steps env f trace_id trigger cancelled steps next)
          → Ends (step ∷ steps) s (run_steps env f trace_id trigger cancelled (step ∷ steps) s)
      go (some x) e rec = rw (run_steps, never step, e) (λ h. absurd (step_end-ok r.1 r.0 x e h))
      go none e rec =
          rw (run_steps, never step, e)
            (λ h. omega (
              arith,
              rec h,
              run_nodes-endings step.node_ids s e,
              count-append id step.node_ids (nodes_of steps),
            ))

  execute_plan_lem :
      (cancelled : ExecutionStep → Bool) (plan : ExecutionPlan)
      → ((step : ExecutionStep) → cancelled step ≡ false)
      → (execute_plan env f trace_id trigger cancelled plan).0 ≡ returned (ok tt)
      → endings id (execute_plan env f trace_id trigger cancelled plan).1
        ≡ count id (nodes_of plan.steps)
  unfolding execute_plan total
  execute_plan_lem cancelled plan never h =
      omega (arith, run_steps-endings cancelled never plan.steps _ h)

  -- Where every edge leads to a node of the flow: an execution of the compiled plan that is not
  -- cancelled and returns without an error has reported each enabled node as completed or skipped
  -- exactly once, and no other node.
  pub execute_plan_once :
      (h : HashOrder) (cancelled : ExecutionStep → Bool) (plan : ExecutionPlan)
      → KnownTargets f
      → compile h f ≡ some (ok plan)
      → ((step : ExecutionStep) → cancelled step ≡ false)
      → (execute_plan env f trace_id trigger cancelled plan).0 ≡ returned (ok tt)
      → endings id (execute_plan env f trace_id trigger cancelled plan).1
        ≡ (if enabled f id then 1 else 0)
  execute_plan_once h cancelled plan known compiled never returns =
      execute_plan_lem cancelled plan never returns ∙ (compile_sound h f plan known compiled).0 id
