-- ===== src/Api/Socket/Owned.antt =====
-- Whose events a client is sent.
use mathlib.Core.List.{append-nil, append_assoc}
use z8run.Base.{
  not, ◌&&◌, String, Bool, true, false, Option, none, some, List, [], ◌∷◌, ◌++◌, filter,
  if◌then◌else◌, ◌==◌, ◌≡◌, refl, sym, ap, ◌∙◌, arith, Bool-cases, inl, inr, some_inv, ==→≡,
  ==-refl,
}
use z8run.Error.{Uuid}
use z8run.Engine.{EngineEvent, event_flow_id}
use z8run.Storage.Flows.{FlowTables, get_flow_owner}
use z8run.Api.Socket.{
  Socket, new_socket, is_owner, remember, forward, resolved, on_event, Seen, Turn, received, lagged,
  idle, ended, known_as, is_owned, unsent, on_events,
}

-- The lookups for the events work, and a flow has the same owner in all of them.
abbrev pub IsStable : (user : Uuid) → (owns : Uuid → Bool) → List Turn → Type 0
IsStable user owns [] = Unit
IsStable user owns (received x ∷ turns) =
    (is_owner user (get_flow_owner x.fails (event_flow_id x.e) x.tables) ≡ owns (event_flow_id x.e))
    × IsStable user owns turns
IsStable user owns (t ∷ turns) = IsStable user owns turns

-- The events that the connection receives for the flows of a client, until it ends or a send fails.
abbrev pub events_of : (owns : Uuid → Bool) → List Turn → List EngineEvent
events_of owns [] = []
events_of owns (received x ∷ turns) =
    let rest = events_of owns turns in
    if owns (event_flow_id x.e) then (if x.sends then x.e ∷ rest else []) else rest
events_of owns (lagged n ∷ turns) = events_of owns turns
events_of owns (idle ∷ turns) = events_of owns turns
events_of owns (ended ∷ turns) = []

module _ (user : Uuid) (owns : Uuid → Bool) where
  abbrev IsRight : Socket → Type 0
  IsRight s = (f : Uuid) (b : Bool) → s.ownership f ≡ some b → b ≡ owns f

  step-IsRight :
      (x : Seen) (s : Socket)
      → is_owner user (get_flow_owner x.fails (event_flow_id x.e) x.tables)
        ≡ owns (event_flow_id x.e)
      → IsRight s
      → (s' : Socket) × (on_event user x.fails x.e x.tables s
          ≡ forward x.e (owns (event_flow_id x.e)) s')
        × IsRight s'
        × (s'.sent ≡ s.sent)
        × (is_owned (event_flow_id x.e) s' ≡ owns (event_flow_id x.e))
  unfolding on_event
  step-IsRight x s stable right = go (s.ownership f) refl
    where
      f : Uuid
      f = event_flow_id x.e

      go :
          (o : Option Bool)
          → s.ownership f ≡ o
          → (s' : Socket) × (resolved user x.fails x.e x.tables s o ≡ forward x.e (owns f) s')
            × IsRight s'
            × (s'.sent ≡ s.sent)
            × (is_owned f s' ≡ owns f)
      go (some b) e = (s, ap (λ b. forward x.e b s) (right f b e), right, refl, rw e (right f b e))
      go none e =
          let b = is_owner user (get_flow_owner x.fails f x.tables) in
          let s' = record s { ownership = remember f b s.ownership } in
          (
            s',
            ap (λ b. forward x.e b s') stable,
            (λ g c h. elim (Bool-cases (g == f)) [
              | inl i ↦ sym (some_inv (sym (rw i refl) ∙ h)) ∙ stable ∙ ap owns (sym (==→≡ g f i))
              | inr i ↦ right g c (sym (rw i refl) ∙ h)
            ]),
            refl,
            ap (λ i. known_as (if i then some b else s.ownership f)) (==-refl f) ∙ stable,
          )

  forward-IsRight : (x : EngineEvent) (b : Bool) (s : Socket) → IsRight s → IsRight (forward x b s)
  forward-IsRight x false s right = right
  forward-IsRight x true s right = right

  -- What a step leaves: the cache has the owner of the flow.
  forward_owned :
      (e : EngineEvent) (b : Bool) (s : Socket)
      → is_owned (event_flow_id e) (forward e b s) ≡ is_owned (event_flow_id e) s
  forward_owned e false s = refl
  forward_owned e true s = refl

  sent-turn :
      (e : EngineEvent) (b sends : Bool) (s s' s'' rest : Socket) (es : List EngineEvent)
      → s'.sent ≡ s.sent
      → rest.sent ≡ (forward e b s').sent ++ es
      → (if b && not sends then unsent s s'' else rest).sent
        ≡ s.sent ++ (if b then (if sends then e ∷ es else []) else es)
  sent-turn e false sends s s' s'' rest es same next = next ∙ ap (λ sent. sent ++ es) same
  sent-turn e true false s s' s'' rest es same next = sym (append-nil s.sent)
  sent-turn e true true s s' s'' rest es same next =
      next ∙ append_assoc s'.sent (e ∷ []) es ∙ ap (λ sent. sent ++ e ∷ es) same

  events_sent :
      (turns : List Turn) (s : Socket)
      → IsStable user owns turns
      → IsRight s
      → (on_events user turns s).sent ≡ s.sent ++ events_of owns turns
  unfolding on_events
  events_sent [] s stable right = sym (append-nil s.sent)
  events_sent (lagged n ∷ turns) s stable right = events_sent turns s stable right
  events_sent (idle ∷ turns) s stable right = events_sent turns s stable right
  events_sent (ended ∷ turns) s stable right = sym (append-nil s.sent)
  events_sent (received x ∷ turns) s (first, stable) right =
      let (s', step, right', same, known) = step-IsRight x s first right in
      let f = event_flow_id x.e in
      let b = owns f in
      let next = events_sent turns (forward x.e b s') stable (forward-IsRight x.e b s' right') in
      rw (step, forward_owned x.e b s', known)
        (sent-turn x.e b x.sends s s' (forward x.e b s') (on_events user turns (forward x.e b s'))
          (events_of owns turns) same next)

-- Of the events that a connection receives, until it ends or a send fails, the client is sent those
-- of its own flows, all of them and in their order, and no event of any other flow, if the lookups
-- of the owners work and a flow has the same owner in all of them. Events that the channel drops
-- because the connection lags are not received.
pub on_events_lem :
    (user : Uuid) (owns : Uuid → Bool) (turns : List Turn)
    → IsStable user owns turns
    → (on_events user turns new_socket).sent ≡ events_of owns turns
on_events_lem user owns turns stable = events_sent user owns turns new_socket stable (λ f b e. cc)

abbrev pub about : Uuid → List EngineEvent → List EngineEvent
about f es = filter (λ e. event_flow_id e == f) es

about_snoc :
    (f : Uuid) (es : List EngineEvent) (e : EngineEvent)
    → (event_flow_id e == f) ≡ false
    → about f (es ++ e ∷ []) ≡ about f es
unfolding filter
about_snoc f [] e apart = rw apart refl
about_snoc f (x ∷ es) e apart =
    ap (λ r. if event_flow_id x == f then x ∷ r else r) (about_snoc f es e apart)

about-forward :
    (f : Uuid) (e : EngineEvent) (b : Bool) (s : Socket)
    → (event_flow_id e == f) ≡ false
    → about f (forward e b s).sent ≡ about f s.sent
about-forward f e false s apart = refl
about-forward f e true s apart = about_snoc f s.sent e apart

module _ (user f : Uuid) where
  forward_ownership :
      (e : EngineEvent) (b : Bool) (s : Socket) → (forward e b s).ownership f ≡ s.ownership f
  forward_ownership e false s = refl
  forward_ownership e true s = refl

  hidden_step :
      (x : Seen) (s : Socket)
      → s.ownership f ≡ some false
      → ((on_event user x.fails x.e x.tables s).ownership f ≡ some false)
        × (about f (on_event user x.fails x.e x.tables s).sent ≡ about f s.sent)
  unfolding on_event
  hidden_step x s h = elim (Bool-cases (event_flow_id x.e == f)) [
    | inl i ↦ let cached = ap s.ownership (==→≡ (event_flow_id x.e) f i) ∙ h in rw cached (h, refl)
    | inr i ↦ go (s.ownership (event_flow_id x.e)) i
  ]
    where
      go :
          (o : Option Bool)
          → (event_flow_id x.e == f) ≡ false
          → ((resolved user x.fails x.e x.tables s o).ownership f ≡ some false)
            × (about f (resolved user x.fails x.e x.tables s o).sent ≡ about f s.sent)
      go (some b) apart = (forward_ownership x.e b s ∙ h, about-forward f x.e b s apart)
      go none apart =
          let b = is_owner user (get_flow_owner x.fails (event_flow_id x.e) x.tables) in
          let s' = record s { ownership = remember (event_flow_id x.e) b s.ownership } in
          let other : (f == event_flow_id x.e) ≡ false = ground (arith, apart) in
          (forward_ownership x.e b s' ∙ rw other h, about-forward f x.e b s' apart)

  hidden_all :
      (turns : List Turn) (s : Socket)
      → s.ownership f ≡ some false
      → about f (on_events user turns s).sent ≡ about f s.sent
  unfolding on_events
  hidden_all [] s h = refl
  hidden_all (lagged n ∷ turns) s h = hidden_all turns s h
  hidden_all (idle ∷ turns) s h = hidden_all turns s h
  hidden_all (ended ∷ turns) s h = refl
  hidden_all (received x ∷ turns) s h =
      let (h', same) = hidden_step x s h in
      let s' = on_event user x.fails x.e x.tables s in
      let next = hidden_all turns s' h' ∙ same in
      elim (Bool-cases (is_owned (event_flow_id x.e) s' && not x.sends)) [
        | inl i ↦ rw i refl
        | inr i ↦ rw i next
      ]

-- If the lookup for the first event of a flow that a connection meets fails, no event of the flow
-- is sent over it from then on, though the client owns the flow and every later lookup would work.
pub on_events_misses :
    (user : Uuid) (e : EngineEvent) (text : String) (t : FlowTables) (turns : List Turn)
    (s : Socket)
    → s.ownership (event_flow_id e) ≡ none
    → about (event_flow_id e) (on_events user turns (on_event user (some text) e t s)).sent
      ≡ about (event_flow_id e) s.sent
unfolding on_event get_flow_owner
on_events_misses user e text t turns s new = rw new (
    hidden_all user (event_flow_id e) turns
      (record s { ownership = remember (event_flow_id e) false s.ownership })
      (rw (==-refl (event_flow_id e)) refl))
