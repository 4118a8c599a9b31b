-- ===== src/Core/Handle/Answers.antt =====
-- What handle_message sends: one pong at most.
use libgossip.Base.{ℕ, ◌≡◌, refl, inl, inr, Option, none, some, List, ◌∷◌, get_elem?, Bool-cases}
use libgossip.Core.Handle.{
  is_greeting, wants_pong, pong_to, reply, process, unless_unknown, handle_message,
}
use libgossip.Core.Handle.Reply.{counted, absorbed, Listened-absorbed}
use libgossip.Core.Handle.Sender.{Listened-find_sender}
use libgossip.Core.State.{Effect, Core, Env}
use libgossip.Core.State.Frame.{OnlyEvents-trans, OnlyEvents, none_raised}
use libgossip.Node.{MessageType, NodeView, GossipMessage}

-- From the trace `before` to the trace `after`: events, and then one pong at most.
pub data Answers (before : List Effect) : List Effect → Type 0 where
  silent : {after : List Effect} → OnlyEvents before after → Answers before after
  ponged :
      {after : List Effect} (pong : GossipMessage) (target : NodeView)
      → pong.type ≡ MessageType.pong
      → OnlyEvents before after
      → Answers before (Effect.sent pong target ∷ after)

Answers-after : {a b c : List Effect} → OnlyEvents a b → Answers b c → Answers a c
Answers-after p (silent q) = silent (OnlyEvents-trans p q)
Answers-after p (ponged pong target e q) = ponged pong target e (OnlyEvents-trans p q)

pong_to-Answers :
    (env : Env) (target : Option NodeView) (msg : GossipMessage) (s : Core)
    → Answers s.trace (pong_to env target msg s).trace
unfolding pong_to
pong_to-Answers env none msg s = silent none_raised
pong_to-Answers env (some target) msg s = ponged _ target refl none_raised

reply-Answers :
    (env : Env) (i : Option ℕ) (msg : GossipMessage) (s : Core)
    → Answers s.trace (reply env i msg s).trace
unfolding reply
reply-Answers env none msg s = silent none_raised
reply-Answers env (some i) msg s = elim (Bool-cases (wants_pong msg)) [
  | inl w ↦ rw w (pong_to-Answers env (get_elem? s.nodes i) msg s)
  | inr w ↦ rw w (silent none_raised)
]

process-Answers :
    (env : Env) (msg : GossipMessage) (recv : ℕ) (i : Option ℕ) (s : Core)
    → Answers s.trace (process env msg recv i s).trace
unfolding process
process-Answers env msg recv i s =
    Answers-after (Listened-absorbed msg recv i s).events
      (reply-Answers env i msg (absorbed msg recv i s))

unless_unknown-Answers :
    (env : Env) (msg : GossipMessage) (recv : ℕ) (i : Option ℕ) (s : Core)
    → Answers s.trace (unless_unknown env msg recv i s).trace
unfolding unless_unknown
unless_unknown-Answers env msg recv none s = elim (Bool-cases (is_greeting msg)) [
  | inl g ↦ rw g (process-Answers env msg recv none s)
  | inr g ↦ rw g (silent none_raised)
]
unless_unknown-Answers env msg recv (some i) s = process-Answers env msg recv (some i) s

-- A message raises events, and then is answered by one pong at most.
pub handle_message-Answers :
    (env : Env) (msg : GossipMessage) (recv : ℕ) (s : Core)
    → Answers s.trace (handle_message env msg recv s).trace
unfolding handle_message
handle_message-Answers env msg recv s =
    Answers-after (Listened-find_sender msg recv (counted s)).events
      (unless_unknown-Answers env msg recv _ _)
