-- ===== src/Core/Handle/Sender.antt =====
-- The search for the sender of a message, and what the message does to its node.
use libgossip.Base.{
  ℕ, ◌≤◌, ◌≡◌, refl, ◌≢◌, ◌⊎◌, inl, inr, not, ◌&&◌, Option, none, some, List, [], ◌∷◌, arith,
  get_elem?, modify, find_index, holds, Bool-cases, Option-cases, pos,
}
use libgossip.Core.Handle.{
  is_type, is_greeting, learn_all, introduce, recognise, find_sender, awaken, retire, touch,
  touch_at,
}
use libgossip.Core.Handle.Learn.{Listened-update_node, Listened-learn_all}
use libgossip.Core.State.{inc64, same_id, Core}
use libgossip.Core.State.Frame.{
  Listened-refl, Listened-trans, Listened-nodes, Listened-notify, Listened,
}
use libgossip.Core.Update.{has_id}
use libgossip.Node.{NodeId, status_discrete, NodeStatus, MessageType, NodeView, GossipMessage}

-- The search by entries of a message that is no greeting learns from every entry, whatever it finds.
pub recognise-learn_all :
    (sender : NodeId) (entries : List NodeView) (recv : ℕ) (known : Option ℕ) (s : Core)
    → (recognise sender entries recv known s).1 ≡ learn_all entries recv s
unfolding recognise learn_all
recognise-learn_all sender [] recv known s = refl
recognise-learn_all sender (r ∷ rs) recv known s = recognise-learn_all sender rs recv _ _

-- The sender's node before and after a direct message.
pub record Touched (msg : GossipMessage) (recv : ℕ) (n n' : NodeView) : Type 0 where
  pub seen : n'.seen_time ≡ recv
  pub not_older : n.heartbeat ≤ n'.heartbeat
  pub caught_up : msg.timestamp ≤ n'.heartbeat
  pub no_invention : (n'.heartbeat ≡ n.heartbeat) ⊎ (n'.heartbeat ≡ msg.timestamp)
  pub version : n'.version ≡ inc64 n.version
  pub fate :
      ((msg.type ≡ MessageType.leave) × (n'.status ≡ NodeStatus.failed))
      ⊎ ((msg.type ≢ MessageType.leave)
          × (n.status ≡ NodeStatus.joining)
          × (n'.status ≡ NodeStatus.online))
      ⊎ ((msg.type ≢ MessageType.leave) × (n.status ≢ NodeStatus.joining) × (n'.status ≡ n.status))
  pub suspicion :
      ((n.status ≡ NodeStatus.suspect) × (n'.suspicion_count ≡ pos 0))
      ⊎ ((n.status ≢ NodeStatus.suspect) × (n'.suspicion_count ≡ n.suspicion_count))
  pub same_node :
      (n'.id ≡ n.id)
      × (n'.ip ≡ n.ip)
      × (n'.port ≡ n.port)
      × (n'.metadata ≡ n.metadata)
      × (n'.config_epoch ≡ n.config_epoch)

-- A direct message makes this of its sender's node, on every branch: it is seen at the time of the
-- message; its heartbeat does not fall, reaches the timestamp, and is one of the two; its version
-- counts one more; a leave marks it failed, otherwise a joining node comes online and any other
-- keeps its status; the suspicion of a suspect is cleared, though its status may stay, and any
-- other suspicion is kept; id, address, metadata and epoch stay.
pub touch-Touched :
    (msg : GossipMessage) (recv : ℕ) (n : NodeView) (s : Core)
    → Touched msg recv n (touch msg recv n s).0
unfolding touch
touch-Touched msg recv n s = record {
  seen = ground arith;
  not_older = ground arith;
  caught_up = ground arith;
  no_invention = ground arith;
  version = ground arith;
  fate = ground arith;
  suspicion = ground arith;
  same_node = ground arith;
}

awaken_frame : (n : NodeView) (s : Core) → Listened s (awaken n s).1
unfolding awaken
awaken_frame n s = elim (Bool-cases (holds (status_discrete n.status NodeStatus.joining))) [
  | inl j ↦ rw j (Listened-notify _ _ s)
  | inr j ↦ rw j (Listened-refl s)
]

retire_frame :
    (msg : GossipMessage) (st : NodeStatus) (n : NodeView) (s : Core)
    → Listened s (retire msg st n s).1
unfolding retire
retire_frame msg st n s =
    elim (Bool-cases
      (is_type MessageType.leave msg && not (holds (status_discrete n.status NodeStatus.failed)))) [
        | inl j ↦ rw j (Listened-notify _ _ s)
        | inr j ↦ rw j (Listened-refl s)
      ]

pub Listened-touch :
    (msg : GossipMessage) (recv : ℕ) (n : NodeView) (s : Core) → Listened s (touch msg recv n s).1
unfolding touch
Listened-touch msg recv n s = Listened-trans (awaken_frame _ s) (retire_frame msg _ _ _)

Listened-introduce :
    (sender : NodeId) (entries : List NodeView) (recv : ℕ) (s : Core)
    → Listened s (introduce sender entries recv s).1
unfolding introduce
Listened-introduce sender [] recv s = Listened-refl s
Listened-introduce sender (e ∷ es) recv s = elim (Bool-cases (same_id e.id sender)) [
  | inl t ↦ rw t (Listened-update_node e recv s)
  | inr f ↦ rw f (Listened-introduce sender es recv s)
]

pub Listened-find_sender :
    (msg : GossipMessage) (recv : ℕ) (s : Core) → Listened s (find_sender msg recv s).1
unfolding find_sender
Listened-find_sender msg recv s = elim (Option-cases (find_index (has_id msg.sender) s.nodes)) [
  | inr (i, e) ↦ rw (e, find_sender) (Listened-refl s)
  | inl e ↦ elim (Bool-cases (is_greeting msg)) [
    | inl g ↦ rw (e, find_sender) (rw g (Listened-introduce msg.sender msg.entries recv s))
    | inr g ↦
        rw (e, find_sender)
          (rw g (
            rw (recognise-learn_all msg.sender msg.entries recv none s)
              (Listened-learn_all msg.entries recv s)))
  ]
]

pub Listened-touch_at :
    (i : Option ℕ) (msg : GossipMessage) (recv : ℕ) (s : Core) → Listened s (touch_at i msg recv s)
unfolding touch_at
Listened-touch_at none msg recv s = Listened-refl s
Listened-touch_at (some i) msg recv s = elim (Option-cases (get_elem? s.nodes i)) [
  | inl e ↦ rw (e, touch_at) (Listened-refl s)
  | inr (n, e) ↦
      rw (e, touch_at) (Listened-trans (Listened-touch msg recv n s) (Listened-nodes _ _))
]

pub nodes-touch_at :
    (i : ℕ) (msg : GossipMessage) (recv : ℕ) (s : Core) {n : NodeView}
    → get_elem? s.nodes i ≡ some n
    → (touch_at (some i) msg recv s).nodes ≡ modify i (λ _. (touch msg recv n s).0) s.nodes
unfolding touch_at
nodes-touch_at i msg recv s e = rw (e, touch_at) refl
