-- ===== src/Direct/Ends.antt =====
-- The calls of the callbacks nest no deeper than the bound.
use libgossip.Base.{ℕ, zero, suc, ◌≡◌, refl, sym, ap, subst, ◌∙◌, inl, List, [], ◌∷◌, arith}
use libgossip.Core.Handle.{handle_message}
use libgossip.Core.Handle.Answers.{handle_message-Answers, Answers}
use libgossip.Core.Handle.Reply.{handle_message_silent}
use libgossip.Core.State.{Effect, Core, Env}
use libgossip.Core.State.Frame.{OnlyEvents, raised}
use libgossip.Direct.{◌then◌, Nested, Performer, play, depth, Course}
use libgossip.Node.{NodeStatus, MessageType, NodeView, GossipMessage}

-- The bound is not reached.
abbrev pub Ends : {C : Type 0} → Course C → Type 0
Ends Course.exhausts = ⊥
Ends _ = Unit

-- What handle_message calls for a message in some state.
abbrev pub Reached : GossipMessage → List Effect → Type 0
Reached msg es =
    (env : Env) × (recv : ℕ) × (s : Core) × (s.trace ≡ [])
    × (es ≡ (handle_message env msg recv s).trace)

-- What the two callbacks of an example do: an event changes nothing but what `Same` leaves open, and
-- a message makes a node handle it, or nothing.
pub record IsDirect {C : Type 0} (callbacks : Performer C) (Same : C → C → Type 0) : Type 0 where
  pub same_refl : (c : C) → Same c c
  pub same_trans : (c d e : C) → Same c d → Same d e → Same c e
  pub event :
      (nested : Nested C) (held : List ℕ) (n : NodeView) (st : NodeStatus) (c : C)
      → (d : C) × Same c d × (callbacks nested held (Effect.event n st) c ≡ Course.returns d)
  pub send :
      (nested : Nested C) (held : List ℕ) (msg : GossipMessage) (target : NodeView) (c : C)
      → ((es : List Effect) (h : List ℕ) (d : C) → Reached msg es → Ends (nested h es d))
      → Ends (callbacks nested held (Effect.sent msg target) c)

Ends-then :
    {C : Type 0} (m : Course C) (f : C → Course C)
    → Ends m
    → ((c : C) → Ends (f c))
    → Ends (m then f)
Ends-then (Course.returns c) f h k = k c
Ends-then Course.blocks f h k = tt
Ends-then Course.crashes f h k = tt
Ends-then Course.exhausts f h k = h

Reached-Answers : (msg : GossipMessage) (es : List Effect) → Reached msg es → Answers [] es
Reached-Answers msg es (env, recv, s, empty, e) = subst (Answers []) (sym e) (
    subst (λ t. Answers t (handle_message env msg recv s).trace) empty
      (handle_message-Answers env msg recv s))

Reached-OnlyEvents :
    (msg : GossipMessage) (es : List Effect)
    → Reached msg es
    → msg.type ≡ MessageType.pong
    → OnlyEvents [] es
Reached-OnlyEvents msg es (env, recv, s, empty, e) is_pong = subst (OnlyEvents []) (sym e) (
    subst (λ t. OnlyEvents t (handle_message env msg recv s).trace) empty
      (handle_message_silent env msg recv s (inl (ground (arith, is_pong)))).events)

-- The calls that a list holds after its first ones.
abbrev pub inner : {C : Type 0} → Performer C → ℕ → Nested C
inner callbacks zero = λ h es d. Course.exhausts
inner callbacks (suc fuel) = play callbacks fuel

module _ {C : Type 0} (callbacks : Performer C) where
  pub play-cons :
      (fuel : ℕ) (held : List ℕ) (e : Effect) (es : List Effect) (c : C)
      → play callbacks fuel held (e ∷ es) c
        ≡ (play callbacks fuel held es c then callbacks (inner callbacks fuel) held e)
  unfolding play
  play-cons zero held e es c = refl
  play-cons (suc fuel) held e es c = refl

module _ {C : Type 0} (callbacks : Performer C) (Same : C → C → Type 0)
    (direct : IsDirect callbacks Same) where
  -- Calls of the event callback alone return.
  pub play_events :
      (fuel : ℕ) (held : List ℕ) (es : List Effect) (c : C)
      → OnlyEvents [] es
      → (d : C) × Same c d × (play callbacks fuel held es c ≡ Course.returns d)
  unfolding play
  play_events fuel held [] c h = (c, direct.same_refl c, refl)
  play_events fuel held (e ∷ es) c (raised n st h) =
      let (d, same, course) = play_events fuel held es c h in
      let (d', same', event) = direct.event (inner callbacks fuel) held n st d in
      (
        d',
        direct.same_trans c d d' same same',
        play-cons callbacks fuel held (Effect.event n st) es c
            ∙ ap (λ m. m then callbacks (inner callbacks fuel) held (Effect.event n st)) course
            ∙ event,
      )

  play_events-Ends :
      (fuel : ℕ) (held : List ℕ) (es : List Effect) (c : C)
      → OnlyEvents [] es
      → Ends (play callbacks fuel held es c)
  play_events-Ends fuel held es c h = subst Ends (sym (play_events fuel held es c h).2) tt

  -- The calls of a node that handles a message.
  play_more-Ends :
      (held : List ℕ) (es : List Effect) (c : C) → Answers [] es → Ends (play callbacks 1 held es c)
  play_more-Ends held es c (Answers.silent h) = play_events-Ends 1 held es c h
  play_more-Ends held (e ∷ es) c (Answers.ponged pong target is_pong h) =
      subst Ends (sym (play-cons callbacks 1 held (Effect.sent pong target) es c)) (
        Ends-then _ _ (play_events-Ends 1 held es c h) (λ d.
          direct.send (play callbacks 0) held pong target d (λ fs k b reached.
            play_events-Ends 0 k fs b (Reached-OnlyEvents pong fs reached is_pong))))

  -- After events a message is sent as from the same state.
  pub play_sent :
      (fuel : ℕ) (held : List ℕ) (msg : GossipMessage) (target : NodeView) (es : List Effect)
      (c : C)
      → OnlyEvents [] es
      → (d : C) × Same c d
        × (play callbacks fuel held (Effect.sent msg target ∷ es) c
            ≡ callbacks (inner callbacks fuel) held (Effect.sent msg target) d)
  play_sent fuel held msg target es c h =
      let (d, same, course) = play_events fuel held es c h in
      (
        d,
        same,
        play-cons callbacks fuel held (Effect.sent msg target) es c
            ∙ ap (λ m. m then callbacks (inner callbacks fuel) held (Effect.sent msg target))
                course,
      )

  -- The calls of any list of sends and events nest no deeper than two handled messages, for callbacks
  -- that make a node handle a message at once.
  pub play-Ends : (held : List ℕ) (es : List Effect) (c : C) → Ends (play callbacks depth held es c)
  unfolding play
  play-Ends held [] c = tt
  play-Ends held (Effect.event n st ∷ es) c =
      subst Ends (sym (play-cons callbacks depth held (Effect.event n st) es c)) (
        Ends-then _ _ (play-Ends held es c)
          (λ d. subst Ends (sym (direct.event (play callbacks 1) held n st d).2) tt))
  play-Ends held (Effect.sent msg target ∷ es) c =
      subst Ends (sym (play-cons callbacks depth held (Effect.sent msg target) es c)) (
        Ends-then _ _ (play-Ends held es c) (λ d.
          direct.send (play callbacks 1) held msg target d
            (λ fs k b reached. play_more-Ends k fs b (Reached-Answers msg fs reached))))
