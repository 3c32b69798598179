-- ===== src/Engine/Run/Dispatch.antt =====
-- Which messages `dispatch_outputs` puts into which channel, and when it waits forever.
use mathlib.Core.Bool.{false≢true}
use mathlib.Core.List.{append_assoc, append-nil}
use z8run.Base.{
  inl, inr, ℕ, ◌+◌, ◌≤◌, ◌≡◌, refl, ap, sym, ◌∙◌, subst, String, Bool, true, false, ◌&&◌, ◌||◌,
  Option, none, some, List, [], ◌∷◌, ◌++◌, length, length-append, leb, ltb, ◌==◌, if◌then◌else◌,
  str_eq, Bool-cases, ==→≡, ==-refl, arith,
}
use z8run.Error.{Uuid}
use z8run.Message.{FlowMessage}
use z8run.Flow.{Flow}
use z8run.Engine.Run.{
  Queues, RunState, get_queue, set_queue, emit, OutChannel, Env, capacity, send, sent_event,
  dispatch_message, dispatch_outputs,
}

-- The messages that the ports of a list of channels lead to a node: the specification.
abbrev pub copies : Uuid → (single : Bool) → FlowMessage → List OutChannel → List FlowMessage
copies t single msg [] = []
copies t single msg ((port, to_node) ∷ outs) =
    (if (str_eq msg.source_port port || single) && to_node == t then msg ∷ [] else [])
    ++ copies t single msg outs

abbrev pub routed : Uuid → List FlowMessage → List OutChannel → List FlowMessage
routed t [] outs = []
routed t (msg ∷ msgs) outs = copies t (length outs == 1) msg outs ++ routed t msgs outs

abbrev pub append_to : List FlowMessage → Option (List FlowMessage) → Option (List FlowMessage)
append_to more none = none
append_to more (some q) = some (q ++ more)

get-set_queue :
    (t k : Uuid) (q : List FlowMessage) (m : Queues)
    → get_queue t (set_queue k q m)
      ≡ (if k == t then elim (get_queue t m) [ none ↦ none | some p ↦ some q ] else get_queue t m)
unfolding get_queue set_queue
get-set_queue t k q [] = ground arith
get-set_queue t k q ((j, p) ∷ m) = ground (arith, get-set_queue t k q m)

append_to_nil : (o : Option (List FlowMessage)) → append_to [] o ≡ o
append_to_nil none = refl
append_to_nil (some q) = ap some (append-nil q)

append_to_append :
    (xs ys : List FlowMessage) (o : Option (List FlowMessage))
    → append_to ys (append_to xs o) ≡ append_to (xs ++ ys) o
append_to_append xs ys none = refl
append_to_append xs ys (some q) = ap some (append_assoc q xs ys)

-- A send appends the message, where the channel is open.
get-send :
    (cap : ℕ) (t k : Uuid) (msg : FlowMessage) (m m' : Queues)
    → send cap k msg m ≡ some m'
    → get_queue t m' ≡ append_to (if k == t then msg ∷ [] else []) (get_queue t m)
unfolding send
get-send cap t k msg m m' h = go (get_queue k m) refl
  where
    same : (k == t) ≡ true → get_queue k m ≡ get_queue t m
    same e = ap (λ x. get_queue x m) (==→≡ k t e)

    go :
        (q : Option (List FlowMessage))
        → get_queue k m ≡ q
        → get_queue t m' ≡ append_to (if k == t then msg ∷ [] else []) (get_queue t m)
    go none e = elim (Bool-cases (k == t)) [
      | inl this ↦ ground (arith, same this)
      | inr other ↦ ground (arith, append_to_nil (get_queue t m))
    ]
    go (some q) e = elim (Bool-cases (k == t)) [
      | inl this ↦ ground (arith, same this, get-set_queue t k (q ++ msg ∷ []) m)
      | inr other ↦
          ground (arith, get-set_queue t k (q ++ msg ∷ []) m, append_to_nil (get_queue t m))
    ]

-- A dispatch that ends has appended the given messages to the channel of a node.
abbrev Delivers : Uuid → List FlowMessage → RunState → Bool × RunState → Type 0
Delivers t more s r = r.0 ≡ true → get_queue t r.1.queues ≡ append_to more (get_queue t s.queues)

abbrev pub matching : Bool → FlowMessage → String → Bool
matching single msg port = str_eq msg.source_port port || single

module _ (env : Env) (f : Flow) (node_id : Uuid) (single : Bool) (msg : FlowMessage) where
  abbrev pub after_send : Uuid → RunState → Queues → RunState
  after_send k s queues = record (emit (sent_event env f node_id k msg) s) { queues = queues }

  pub dispatch-skip :
      (port : String) (k : Uuid) (outs : List OutChannel) (s : RunState)
      → matching single msg port ≡ false
      → dispatch_message env f node_id single msg ((port, k) ∷ outs) s
        ≡ dispatch_message env f node_id single msg outs s
  unfolding dispatch_message
  dispatch-skip port k outs s e = rw (dispatch_message, e) refl

  pub dispatch-full :
      (port : String) (k : Uuid) (outs : List OutChannel) (s : RunState)
      → matching single msg port ≡ true
      → send (capacity env f) k msg s.queues ≡ none
      → dispatch_message env f node_id single msg ((port, k) ∷ outs) s
        ≡ (false, emit (sent_event env f node_id k msg) s)
  unfolding dispatch_message
  dispatch-full port k outs s e n = rw (dispatch_message, e, n) refl

  pub dispatch-sent :
      (port : String) (k : Uuid) (outs : List OutChannel) (s : RunState) {queues : Queues}
      → matching single msg port ≡ true
      → send (capacity env f) k msg s.queues ≡ some queues
      → dispatch_message env f node_id single msg ((port, k) ∷ outs) s
        ≡ dispatch_message env f node_id single msg outs (after_send k s queues)
  unfolding dispatch_message
  dispatch-sent port k outs s e n = rw (dispatch_message, e, n) refl

  message-Delivers :
      (t : Uuid) (outs : List OutChannel) (s : RunState)
      → Delivers t (copies t single msg outs) s (dispatch_message env f node_id single msg outs s)
  unfolding dispatch_message
  message-Delivers t [] s = λ h. sym (append_to_nil (get_queue t s.queues))
  message-Delivers t ((port, k) ∷ outs) s = elim (Bool-cases (matching single msg port)) [
    | inl hit ↦ go hit (send (capacity env f) k msg s.queues) refl (message-Delivers t outs)
    | inr miss ↦
        subst (Delivers t (copies t single msg ((port, k) ∷ outs)) s)
          (sym (dispatch-skip port k outs s miss)) (rw miss (message-Delivers t outs s))
  ]
    where
      go :
          matching single msg port ≡ true
          → (o : Option Queues) → send (capacity env f) k msg s.queues ≡ o
          → ((s : RunState)
              → Delivers t
                  (copies t single msg outs)
                  s
                  (dispatch_message env f node_id single msg outs s))
          → Delivers t
              (copies t single msg ((port, k) ∷ outs))
              s
              (dispatch_message env f node_id single msg ((port, k) ∷ outs) s)
      go hit none e rec =
          subst (Delivers t (copies t single msg ((port, k) ∷ outs)) s)
            (sym (dispatch-full port k outs s hit e)) (λ h. cc)
      go hit (some queues) e rec =
          subst (Delivers t (copies t single msg ((port, k) ∷ outs)) s)
            (sym (dispatch-sent port k outs s hit e))
            (λ h. rw hit (
              rec (after_send k s queues) h
              ∙ ap (append_to (copies t single msg outs))
                  (get-send (capacity env f) t k msg s.queues queues e)
              ∙ append_to_append (if k == t then msg ∷ [] else []) (copies t single msg outs)
                  (get_queue t s.queues)))

module _ (env : Env) (f : Flow) (node_id : Uuid) where
  or_true : (b : Bool) → (b || true) ≡ true
  or_true false = refl
  or_true true = refl

  send-fits :
      (t : Uuid) (msg : FlowMessage) (q : List FlowMessage) (m : Queues)
      → get_queue t m ≡ some q
      → ltb (length q) (capacity env f) ≡ true
      → send (capacity env f) t msg m ≡ some (set_queue t (q ++ msg ∷ []) m)
  unfolding send
  send-fits t msg q m e fits = rw (send, e, fits) refl

  send-full :
      (t : Uuid) (msg : FlowMessage) (q : List FlowMessage) (m : Queues)
      → get_queue t m ≡ some q
      → ltb (length q) (capacity env f) ≡ false
      → send (capacity env f) t msg m ≡ none
  unfolding send
  send-full t msg q m e full = rw (send, e, full) refl

  outputs-Delivers :
      (t : Uuid) (msgs : List FlowMessage) (outs : List OutChannel) (s : RunState)
      → Delivers t (routed t msgs outs) s (dispatch_outputs env f node_id msgs outs s)
  unfolding dispatch_outputs
  outputs-Delivers t [] outs s = λ h. sym (append_to_nil (get_queue t s.queues))
  outputs-Delivers t (msg ∷ msgs) outs s =
      let r = dispatch_message env f node_id (length outs == 1) msg outs s in
      go r.0 refl (outputs-Delivers t msgs outs r.1)
    where
      go :
          (sent : Bool)
          → (dispatch_message env f node_id (length outs == 1) msg outs s).0 ≡ sent
          → Delivers t
              (routed t msgs outs)
              (dispatch_message env f node_id (length outs == 1) msg outs s).1
              (dispatch_outputs env f node_id msgs outs
                (dispatch_message env f node_id (length outs == 1) msg outs s).1)
          → Delivers t
              (routed t (msg ∷ msgs) outs)
              s
              (dispatch_outputs env f node_id (msg ∷ msgs) outs s)
      go false e rec = rw (dispatch_outputs, e) (λ h. cc)
      go true e rec =
          rw (dispatch_outputs, e)
            (λ h.
              rec h
              ∙ ap (append_to (routed t msgs outs))
                  (message-Delivers env f node_id (length outs == 1) msg t outs s e)
              ∙ append_to_append (copies t (length outs == 1) msg outs) (routed t msgs outs)
                  (get_queue t s.queues))

  -- A dispatch that ends has appended to the open channel of every node, in order, the messages
  -- that a port leads there, or the only outgoing channel, and has changed no other channel.
  pub dispatch_outputs_lem :
      (t : Uuid) (msgs : List FlowMessage) (outs : List OutChannel) (s : RunState)
      → (dispatch_outputs env f node_id msgs outs s).0 ≡ true
      → get_queue t (dispatch_outputs env f node_id msgs outs s).1.queues
        ≡ append_to (routed t msgs outs) (get_queue t s.queues)
  dispatch_outputs_lem t msgs outs s h = outputs-Delivers t msgs outs s h

  dispatch_one :
      (port : String) (t : Uuid) (msg : FlowMessage) (s : RunState) (q : List FlowMessage)
      → get_queue t s.queues ≡ some q
      → ((dispatch_message env f node_id true msg ((port, t) ∷ []) s).0
          ≡ ltb (length q) (capacity env f))
        × (ltb (length q) (capacity env f) ≡ true
            → get_queue t (dispatch_message env f node_id true msg ((port, t) ∷ []) s).1.queues
              ≡ some (q ++ msg ∷ []))
  unfolding dispatch_message
  dispatch_one port t msg s q e = elim (Bool-cases (ltb (length q) (capacity env f))) [
    | inl fits ↦
        let sent = send-fits t msg q s.queues e fits in
        let run =
          dispatch-sent env f node_id true msg port t [] s (or_true (str_eq msg.source_port port))
            sent in
        (
          ap (λ r. r.0) run ∙ sym fits,
          λ h.
              ap (λ (r : Bool × RunState). get_queue t r.1.queues) run
              ∙ get-send (capacity env f) t t msg s.queues _ sent
              ∙ appended e,
        )
    | inr full ↦
        let run =
          dispatch-full env f node_id true msg port t [] s (or_true (str_eq msg.source_port port))
            (send-full t msg q s.queues e full) in
        (ap (λ r. r.0) run ∙ sym full, λ h. absurd (false≢true (sym full ∙ h)))
  ]
    where
      appended :
          get_queue t s.queues ≡ some q
          → append_to (if t == t then msg ∷ [] else []) (get_queue t s.queues)
            ≡ some (q ++ msg ∷ [])
      appended e = rw (==-refl t, e) refl

  -- With one outgoing channel, which is open and not over its capacity, a dispatch ends just when
  -- the channel has room for all messages; else a send waits.
  pub dispatch_outputs_blocks :
      (port : String) (t : Uuid) (msgs : List FlowMessage) (s : RunState) (q : List FlowMessage)
      → get_queue t s.queues ≡ some q
      → length q ≤ capacity env f
      → (dispatch_outputs env f node_id msgs ((port, t) ∷ []) s).0
        ≡ leb (length q + length msgs) (capacity env f)
  unfolding dispatch_outputs
  dispatch_outputs_blocks port t [] s q e room = ground arith
  dispatch_outputs_blocks port t (msg ∷ msgs) s q e room =
      let (sends, appended) = dispatch_one port t msg s q e in
      elim (Bool-cases (ltb (length q) (capacity env f))) [
        | inl fits ↦
            rw (dispatch_outputs, sends ∙ fits)
              (dispatch_outputs_blocks port t msgs
                  (dispatch_message env f node_id true msg ((port, t) ∷ []) s).1 (q ++ msg ∷ [])
                  (appended fits) (ground (arith, length-append q (msg ∷ [])))
                ∙ ground (arith, length-append q (msg ∷ [])))
        | inr full ↦ rw (dispatch_outputs, sends ∙ full) (ground arith)
      ]
