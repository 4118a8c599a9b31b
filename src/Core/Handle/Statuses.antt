-- ===== src/Core/Handle/Statuses.antt =====
-- Properties of single nodes that a message keeps for the whole list.
use libgossip.Base.{
  ℕ, ◌≡◌, refl, ◌≢◌, inl, inr, Option, none, some, List, [], ◌∷◌, arith, get_elem?, find_index, All,
  All-modify, All-get_elem?, Bool-cases, Option-cases,
}
use libgossip.Core.Handle.{
  pong_to, is_greeting, introduce, find_sender, touch, touch_at, wants_pong, process,
  unless_unknown, handle_message,
}
use libgossip.Core.Handle.Learn.{All-learn_all, IsStable}
use libgossip.Core.Handle.Reply.{counted, absorbed}
use libgossip.Core.Handle.Sender.{recognise-learn_all}
use libgossip.Core.State.{same_id, Core, Env}
use libgossip.Core.Update.{has_id, merge}
use libgossip.Core.Update.Laws.{All-update_node}
use libgossip.Node.{NodeId, NodeStatus, NodeView, GossipMessage}

-- Stable, and kept by a direct message too.
pub record IsKept (P : NodeView → Type 0) : Type 0 where
  pub stable : IsStable P
  pub touched :
      (msg : GossipMessage) (recv : ℕ) (n : NodeView) (s : Core) → P n → P (touch msg recv n s).0

module _ (P : NodeView → Type 0) (kept : IsKept P) where
  All-introduce :
      (sender : NodeId) (entries : List NodeView) (recv : ℕ) (s : Core)
      → All P s.nodes
      → All P (introduce sender entries recv s).1.nodes
  unfolding introduce
  All-introduce sender [] recv s h = h
  All-introduce sender (e ∷ es) recv s h = elim (Bool-cases (same_id e.id sender)) [
    | inl t ↦
        rw t
          (All-update_node P e recv s (kept.stable.admitted e recv) (kept.stable.merged e recv) h)
    | inr f ↦ rw f (All-introduce sender es recv s h)
  ]

  All-find_sender :
      (msg : GossipMessage) (recv : ℕ) (s : Core)
      → All P s.nodes
      → All P (find_sender msg recv s).1.nodes
  unfolding find_sender
  All-find_sender msg recv s h = elim (Option-cases (find_index (has_id msg.sender) s.nodes)) [
    | inr (i, e) ↦ rw (e, find_sender) h
    | inl e ↦ elim (Bool-cases (is_greeting msg)) [
      | inl g ↦ rw (e, find_sender) (rw g (All-introduce msg.sender msg.entries recv s h))
      | inr g ↦
          rw (e, find_sender)
            (rw g (
              rw (recognise-learn_all msg.sender msg.entries recv none s)
                (All-learn_all P kept.stable msg.entries recv s h)))
    ]
  ]

  All-touch_at :
      (i : Option ℕ) (msg : GossipMessage) (recv : ℕ) (s : Core)
      → All P s.nodes
      → All P (touch_at i msg recv s).nodes
  unfolding touch_at
  All-touch_at none msg recv s h = h
  All-touch_at (some i) msg recv s h = elim (Option-cases (get_elem? s.nodes i)) [
    | inl e ↦ rw (e, touch_at) h
    | inr (n, e) ↦
        rw (e, touch_at)
          (All-modify P i _ s.nodes
            (λ x _ _. kept.touched msg recv n s (All-get_elem? P i s.nodes e h)) h)
  ]

  All-absorbed :
      (msg : GossipMessage) (recv : ℕ) (i : Option ℕ) (s : Core)
      → All P s.nodes
      → All P (absorbed msg recv i s).nodes
  All-absorbed msg recv i s h =
      All-learn_all P kept.stable msg.entries recv _ (All-touch_at i msg recv s h)

  nodes-pong_to :
      (env : Env) (t : Option NodeView) (msg : GossipMessage) (s : Core)
      → (pong_to env t msg s).nodes ≡ s.nodes
  unfolding pong_to
  nodes-pong_to env none msg s = refl
  nodes-pong_to env (some t) msg s = refl

  All-process :
      (env : Env) (msg : GossipMessage) (recv : ℕ) (i : Option ℕ) (s : Core)
      → All P s.nodes
      → All P (process env msg recv i s).nodes
  unfolding process
  All-process env msg recv none s h = All-absorbed msg recv none s h
  All-process env msg recv (some i) s h = elim (Bool-cases (wants_pong msg)) [
    | inl w ↦ rw w (
        rw (nodes-pong_to env _ msg (absorbed msg recv (some i) s))
          (All-absorbed msg recv (some i) s h))
    | inr w ↦ rw w (All-absorbed msg recv (some i) s h)
  ]

  unless :
      (env : Env) (msg : GossipMessage) (recv : ℕ) (i : Option ℕ) (s : Core)
      → All P s.nodes
      → All P (unless_unknown env msg recv i s).nodes
  unfolding unless_unknown
  unless env msg recv none s h = elim (Bool-cases (is_greeting msg)) [
    | inl g ↦ rw g (All-process env msg recv none s h)
    | inr g ↦ rw g h
  ]
  unless env msg recv (some i) s h = All-process env msg recv (some i) s h

  pub All-handle_message :
      (env : Env) (msg : GossipMessage) (recv : ℕ) (s : Core)
      → All P s.nodes
      → All P (handle_message env msg recv s).nodes
  unfolding handle_message
  All-handle_message env msg recv s h =
      unless env msg recv _ _ (All-find_sender msg recv (counted s) h)

-- A node is recorded with a status that says something.
abbrev pub IsRecorded : NodeView → Type 0
IsRecorded n = n.status ≢ NodeStatus.unknown

pub IsRecorded-IsKept : IsKept IsRecorded
unfolding merge touch
IsRecorded-IsKept = record {
  stable = record {
    admitted = λ remote seen. ground arith;
    merged = λ remote seen it h. ground arith;
    renamed = λ id it h. h;
  };
  touched = λ msg recv n s h. ground arith;
}
