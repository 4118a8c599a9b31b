-- ===== src/Core/State/Frame.antt =====
-- What a notification and a sent message leave as it was.
use libgossip.Base.{◌≡◌, refl, ◌∙◌, ◌≢◌, Bool, true, false, List, ◌∷◌, arith, if◌then◌else◌}
use libgossip.Core.State.{same_id, notify, send, Effect, Core}
use libgossip.Node.{NodeId, NodeStatus, NodeView, GossipMessage}

pub nodes-notify : (n : NodeView) (st : NodeStatus) (s : Core) → (notify n st s).nodes ≡ s.nodes
unfolding notify
nodes-notify n st s = ground arith

pub self-notify : (n : NodeView) (st : NodeStatus) (s : Core) → (notify n st s).self ≡ s.self
unfolding notify
self-notify n st s = ground arith

pub nodes-send : (m : GossipMessage) (n : NodeView) (s : Core) → (send m n s).nodes ≡ s.nodes
unfolding send
nodes-send m n s = refl

pub self-send : (m : GossipMessage) (n : NodeView) (s : Core) → (send m n s).self ≡ s.self
unfolding send
self-send m n s = refl

-- From the trace `before` to the trace `after`, events only.
pub data OnlyEvents (before : List Effect) : List Effect → Type 0 where
  none_raised : OnlyEvents before before
  raised :
      {after : List Effect} (n : NodeView) (st : NodeStatus)
      → OnlyEvents before after
      → OnlyEvents before (Effect.event n st ∷ after)

pub OnlyEvents-trans : {a b c : List Effect} → OnlyEvents a b → OnlyEvents b c → OnlyEvents a c
OnlyEvents-trans p none_raised = p
OnlyEvents-trans p (raised n st q) = raised n st (OnlyEvents-trans p q)

-- Only the node list and the events may differ.
pub record Listened (s s' : Core) : Type 0 where
  pub self : s'.self ≡ s.self
  pub event_fn : s'.event_fn ≡ s.event_fn
  pub failure_timeout : s'.failure_timeout ≡ s.failure_timeout
  pub gossip_nodes : s'.gossip_nodes ≡ s.gossip_nodes
  pub sync_nodes : s'.sync_nodes ≡ s.sync_nodes
  pub sent_messages : s'.sent_messages ≡ s.sent_messages
  pub received_messages : s'.received_messages ≡ s.received_messages
  pub reads : s'.reads ≡ s.reads
  pub draws : s'.draws ≡ s.draws
  pub events : OnlyEvents s.trace s'.trace

pub Listened-refl : (s : Core) → Listened s s
Listened-refl s = record {
  self = refl;
  event_fn = refl;
  failure_timeout = refl;
  gossip_nodes = refl;
  sync_nodes = refl;
  sent_messages = refl;
  received_messages = refl;
  reads = refl;
  draws = refl;
  events = none_raised;
}

pub Listened-trans : {s t u : Core} → Listened s t → Listened t u → Listened s u
Listened-trans p q = record {
  self = q.self ∙ p.self;
  event_fn = q.event_fn ∙ p.event_fn;
  failure_timeout = q.failure_timeout ∙ p.failure_timeout;
  gossip_nodes = q.gossip_nodes ∙ p.gossip_nodes;
  sync_nodes = q.sync_nodes ∙ p.sync_nodes;
  sent_messages = q.sent_messages ∙ p.sent_messages;
  received_messages = q.received_messages ∙ p.received_messages;
  reads = q.reads ∙ p.reads;
  draws = q.draws ∙ p.draws;
  events = OnlyEvents-trans p.events q.events;
}

pub Listened-nodes : (s : Core) (ns : List NodeView) → Listened s (record s { nodes = ns })
Listened-nodes s ns = record {
  self = refl;
  event_fn = refl;
  failure_timeout = refl;
  gossip_nodes = refl;
  sync_nodes = refl;
  sent_messages = refl;
  received_messages = refl;
  reads = refl;
  draws = refl;
  events = none_raised;
}

notified :
    (b : Bool) (n : NodeView) (st : NodeStatus) (s : Core)
    → Listened s (if b then record s { trace = Effect.event n st ∷ s.trace } else s)
notified true n st s = record {
  self = refl;
  event_fn = refl;
  failure_timeout = refl;
  gossip_nodes = refl;
  sync_nodes = refl;
  sent_messages = refl;
  received_messages = refl;
  reads = refl;
  draws = refl;
  events = raised n st none_raised;
}
notified false n st s = Listened-refl s

pub Listened-notify : (n : NodeView) (st : NodeStatus) (s : Core) → Listened s (notify n st s)
unfolding notify
Listened-notify n st s = notified s.event_fn n st s

pub same_id-eq : (a b : NodeId) → a ≡ b → same_id a b ≡ true
same_id-eq a b e = ground arith

pub same_id-ne : (a b : NodeId) → a ≢ b → same_id a b ≡ false
same_id-ne a b h = ground arith
