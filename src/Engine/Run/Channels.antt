-- ===== src/Engine/Run/Channels.antt =====
-- When `execute_plan` of engine.rs closes the channel of a node, and what that does to the node.
use mathlib.Core.Bool.{false≢true}
use z8run.Base.{
  inl, inr, ℕ, ◌≡◌, ◌≢◌, refl, ap, sym, ◌∙◌, subst, true, false, not, Option, none, some, List, [],
  ◌∷◌, filter, elem, count, ◌==◌, if◌then◌else◌, All, Bool-cases, arith, Memᴰ, ◌++◌,
}
use z8run.Error.{Uuid, Z8Result, ok, err}
use z8run.Message.{FlowMessage}
use z8run.Node.{Node}
use z8run.Json.{Value}
use z8run.Flow.{Edge, Flow, outgoing_edges}
use z8run.Engine.{node_started}
use z8run.Engine.Run.{
  RunState, get_queue, remove_queue, emit, OutChannel, open_channels, out_channels, finished, Env,
  dispatch_outputs, first_preview, process_all, make_executor, run_receiver, run_node, drop_targets,
  drop_senders,
}

count-filter_ne :
    (t k : ℕ) (xs : List ℕ)
    → count t (filter (λ x. not (x == k)) xs) ≡ (if k == t then 0 else count t xs)
unfolding count filter
count-filter_ne t k [] = ground arith
count-filter_ne t k (x ∷ xs) = ground (arith, count-filter_ne t k xs)

drop_targets-closed :
    (t : Uuid) (es : List Edge) (senders : List Uuid)
    → elem t senders ≡ false
    → elem t (drop_targets es senders) ≡ false
unfolding drop_targets elem
drop_targets-closed t [] senders h = h
drop_targets-closed t (e ∷ es) senders h =
    drop_targets-closed t es (filter (λ k. not (k == e.to_node)) senders)
      (ground (arith, count-filter_ne t e.to_node senders))

drop_targets-drops :
    (e : Edge) (es : List Edge) (senders : List Uuid)
    → Memᴰ e es
    → elem e.to_node (drop_targets es senders) ≡ false
unfolding drop_targets elem
drop_targets-drops e [] senders m = elim m [ ]
drop_targets-drops e (x ∷ es) senders (Memᴰ.head same) =
    drop_targets-closed e.to_node es (filter (λ k. not (k == x.to_node)) senders)
      (ground (arith, count-filter_ne e.to_node x.to_node senders, ap (λ d. d.to_node) same))
drop_targets-drops e (x ∷ es) senders (Memᴰ.tail m) =
    drop_targets-drops e es (filter (λ k. not (k == x.to_node)) senders) m

module _ (f : Flow) where
  pub drop_senders-closed :
      (t : Uuid) (ids senders : List Uuid)
      → elem t senders ≡ false
      → elem t (drop_senders f ids senders) ≡ false
  unfolding drop_senders
  drop_senders-closed t [] senders h = h
  drop_senders-closed t (id ∷ ids) senders h =
      drop_senders-closed t ids (drop_targets (outgoing_edges f id) senders)
        (drop_targets-closed t (outgoing_edges f id) senders h)

  pub drop_senders-drops :
      (id : Uuid) (e : Edge) (ids senders : List Uuid)
      → Memᴰ id ids
      → Memᴰ e (outgoing_edges f id)
      → elem e.to_node (drop_senders f ids senders) ≡ false
  unfolding drop_senders
  drop_senders-drops id e [] senders m h = elim m [ ]
  drop_senders-drops id e (x ∷ ids) senders (Memᴰ.head same) h =
      drop_senders-closed e.to_node ids (drop_targets (outgoing_edges f x) senders) (
        drop_targets-drops e (outgoing_edges f x) senders
          (subst (λ k. Memᴰ e (outgoing_edges f k)) same h))
  drop_senders-drops id e (x ∷ ids) senders (Memᴰ.tail m) h =
      drop_senders-drops id e ids (drop_targets (outgoing_edges f x) senders) m h

  pub open_channels-open :
      (t : Uuid) (es : List Edge) (senders : List Uuid)
      → elem t senders ≡ false
      → All (λ o. o.1 ≢ t) (open_channels es senders)
  unfolding open_channels
  open_channels-open t [] senders h = tt
  open_channels-open t (e ∷ es) senders h =
      let rest = open_channels-open t es senders h in
      elim (Bool-cases (elem e.to_node senders)) [
        | inl on ↦
            rw on (
              (λ same. absurd (false≢true (sym h ∙ ap (λ k. elem k senders) (sym same) ∙ on))),
              rest,
            )
        | inr off ↦ rw off rest
      ]

  module _ (env : Env) where
    process_all-open :
        (n : Node) (outs : List OutChannel) (seen msgs : List FlowMessage) (preview : Option Value)
        (s : RunState)
        → (process_all env f n outs true seen msgs preview s).0 ≢ finished
    unfolding process_all
    process_all-open n outs seen [] preview s = λ h. cc
    process_all-open n outs seen (msg ∷ msgs) preview s =
        go (env.process n seen msg) refl (process_all-open n outs (seen ++ msg ∷ []) msgs)
      where
        go :
            (r : Z8Result (List FlowMessage))
            → env.process n seen msg ≡ r
            → ((preview : Option Value) (s : RunState)
                → (process_all env f n outs true (seen ++ msg ∷ []) msgs preview s).0 ≢ finished)
            → (process_all env f n outs true seen (msg ∷ msgs) preview s).0 ≢ finished
        go (err x) e rec = rw (process_all, e) (λ h. cc)
        go (ok outputs) e rec = elim (Bool-cases (dispatch_outputs env f n.id outputs outs s).0) [
          | inl sent ↦
              rw (process_all, e, sent)
                (rec (first_preview env f preview outputs)
                  (dispatch_outputs env f n.id outputs outs s).1)
          | inr full ↦ rw (process_all, e, full) (λ h. cc)
        ]

    run_receiver-open :
        (n : Node) (outs : List OutChannel) (q : List FlowMessage) (s : RunState)
        → elem n.id s.senders ≡ true
        → (run_receiver env f n outs q s).0 ≢ finished
    unfolding run_receiver
    run_receiver-open n outs [] s opened = rw (run_receiver, opened) (λ h. cc)
    run_receiver-open n outs (msg ∷ msgs) s opened = go (make_executor env f n) refl
      where
        go :
            (r : Z8Result (Unit {0}))
            → make_executor env f n ≡ r
            → (run_receiver env f n outs (msg ∷ msgs) s).0 ≢ finished
        go (err x) e = rw (run_receiver, e) (λ h. cc)
        go (ok u) e =
            rw (run_receiver, e, opened)
              (process_all-open n outs [] (msg ∷ msgs) none (emit (node_started f.id n.id) s))

    -- A node with a channel whose own sender is still open never finishes: its task fails, or it
    -- waits for a message or for room.
    pub open_sender_hangs :
        (trace_id : Uuid) (trigger : Option FlowMessage) (n : Node) (s : RunState)
        (q : List FlowMessage)
        → get_queue n.id s.queues ≡ some q
        → elem n.id s.senders ≡ true
        → (run_node env f trace_id trigger n s).0 ≢ finished
    unfolding run_node
    open_sender_hangs trace_id trigger n s q has_queue opened =
        rw (run_node, has_queue)
          (run_receiver-open n (out_channels f n.id s) q
            (record s { queues = remove_queue n.id s.queues }) opened)
