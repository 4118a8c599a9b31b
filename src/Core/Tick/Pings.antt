-- ===== src/Core/Tick/Pings.antt =====
-- The messages of a tick.
use libgossip.Base.{
  ℕ, ◌≡◌, refl, sym, subst, ◌⊎◌, inl, inr, some, List, [], ◌∷◌, arith, keep_if, Bool-cases,
}
use libgossip.Core.State.{select_random_peers, draw, Effect, Core, Env, IsStd}
use libgossip.Core.State.Frame.{OnlyEvents-trans, OnlyEvents, none_raised, raised}
use libgossip.Core.State.Peers.{IsSample, select_random_peers-IsSample}
use libgossip.Core.Tick.{
  own_message, ping, ping_all, beat, detect_as, detect, detect_all, stamp_self, tick, is_online,
  ping_online, tick_full_broadcast,
}
use libgossip.Core.Tick.Rounds.{nodes-ping_all}
use libgossip.Manager.Phases.{after}
use libgossip.Node.{NodeStatus, MessageType, NodeView, GossipMessage}

-- A ping of `self` to `target`: it carries `self` first, and then a sample of the nodes with another
-- id than the target's.
abbrev pub IsPing : NodeView → List NodeView → ℕ → GossipMessage → NodeView → Type 0
IsPing self nodes k m target =
    (m.sender ≡ self.id)
    × (m.type ≡ MessageType.ping)
    × (m.timestamp ≡ self.heartbeat)
    × ((extras : List NodeView) × (m.entries ≡ self ∷ extras) × IsSample k target.id nodes extras)

-- From the trace `before` to the trace `after`, one ping to each target in turn and nothing else.
abbrev pub Pings : NodeView → List NodeView → ℕ → List NodeView → List Effect → List Effect → Type 0
Pings self nodes k [] before after = after ≡ before
Pings self nodes k (t ∷ ts) before after =
    (m : GossipMessage) × IsPing self nodes k m t
    × Pings self nodes k ts (Effect.sent m t ∷ before) after

pub ping_all-Pings :
    (env : Env) (ts : List NodeView) (s : Core)
    → IsStd env
    → Pings s.self s.nodes s.sync_nodes ts s.trace (ping_all env ts s).trace
unfolding ping_all
ping_all-Pings env [] s std = refl
ping_all-Pings env (t ∷ ts) s std =
    let extras = select_random_peers env s.sync_nodes (some t.id) s in
    (
      own_message MessageType.ping extras s,
      (refl, refl, refl, (extras, refl, select_random_peers-IsSample env s.sync_nodes t.id s std)),
      ping_all-Pings env ts (ping env t s) std,
    )

trace-detect :
    (st : NodeStatus) (env : Env) (n : NodeView) (s : Core)
    → let r = detect_as st env n s in
      (r.1.trace ≡ s.trace) ⊎ (r.1.trace ≡ Effect.event r.0 n.status ∷ s.trace)
unfolding detect
trace-detect NodeStatus.online env n s = ground arith
trace-detect NodeStatus.suspect env n s = ground arith
trace-detect _ env n s = inl refl

detect-OnlyEvents :
    (env : Env) (n : NodeView) (s : Core) → OnlyEvents s.trace (detect env n s).1.trace
unfolding detect
detect-OnlyEvents env n s = elim (trace-detect n.status env n s) [
  | inl e ↦ subst (OnlyEvents s.trace) (sym e) none_raised
  | inr e ↦ subst (OnlyEvents s.trace) (sym e) (raised _ _ none_raised)
]

detect_all-OnlyEvents :
    (env : Env) (ns : List NodeView) (s : Core) → OnlyEvents s.trace (detect_all env ns s).1.trace
unfolding detect_all
detect_all-OnlyEvents env [] s = none_raised
detect_all-OnlyEvents env (n ∷ ns) s =
    OnlyEvents-trans (detect-OnlyEvents env n s) (detect_all-OnlyEvents env ns (detect env n s).1)

-- With a standard library as documented: a tick pings nodes of the list with other ids than this
-- node: as many as gossip_nodes allows, or all of them if they are fewer, and none more often than
-- the list has it. Each ping carries this node as it was with the new time, its heartbeat of
-- before, and further nodes of the list with other ids than the target, as many as sync_nodes
-- allows in the same way. After the pings the tick only raises events.
pub tick-Pings :
    (env : Env) (s : Core)
    → IsStd env
    → (targets : List NodeView) × (middle : List Effect) × IsSample s.gossip_nodes s.self.id s.nodes
        targets
      × Pings
          (record s.self { seen_time = env.now s.reads })
          s.nodes
          s.sync_nodes
          targets
          s.trace
          middle
      × OnlyEvents middle (tick env s).trace
unfolding tick
tick-Pings env s std =
    let s1 = stamp_self env s in
    let targets = select_random_peers env s.gossip_nodes (some s.self.id) s1 in
    let pinged = ping_all env targets (draw s1) in
    (
      targets,
      pinged.trace,
      select_random_peers-IsSample env s.gossip_nodes s.self.id s1 std,
      ping_all-Pings env targets (draw s1) std,
      detect_all-OnlyEvents env pinged.nodes (beat pinged),
    )

-- The broadcast's loop is the tick's over the nodes that are online.
pub ping_online-ping_all :
    (env : Env) (ns : List NodeView) (s : Core)
    → ping_online env ns s ≡ ping_all env (keep_if is_online ns) s
unfolding ping_online ping_all keep_if
ping_online-ping_all env [] s = refl
ping_online-ping_all env (n ∷ ns) s = elim (Bool-cases (is_online n)) [
  | inl t ↦ rw t (ping_online-ping_all env ns (ping env n s))
  | inr f ↦ rw f (ping_online-ping_all env ns s)
]

pub nodes-ping_online :
    (env : Env) (ns : List NodeView) (s : Core) → (ping_online env ns s).nodes ≡ s.nodes
nodes-ping_online env ns s =
    rw (ping_online-ping_all env ns s) (nodes-ping_all env (keep_if is_online ns) s)

-- With a standard library as documented: a full broadcast pings every node of the list that is
-- online, once each and in the order of the list, and no other, and does nothing else to the
-- outside; the node list stays as it is.
pub tick_full_broadcast-Pings :
    (env : Env) (s : Core)
    → IsStd env
    → Pings
        (record s.self { seen_time = env.now s.reads })
        s.nodes
        s.sync_nodes
        (keep_if is_online s.nodes)
        s.trace
        (tick_full_broadcast env s).trace
      × ((tick_full_broadcast env s).nodes ≡ s.nodes)
unfolding tick_full_broadcast
tick_full_broadcast-Pings env s std =
    let s1 = stamp_self env s in
    (
      rw (ping_online-ping_all env s.nodes s1)
          (ping_all-Pings env (keep_if is_online s.nodes) s1 std),
      nodes-ping_online env s.nodes s1,
    )
