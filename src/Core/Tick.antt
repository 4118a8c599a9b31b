-- ===== src/Core/Tick.antt =====
-- gossip_core::tick and tick_full_broadcast (src/core/gossip_core.cpp).
pub mod Detect
pub mod Rounds
pub mod Silence
pub mod Pings
use libgossip.Base.{ℕ, Bool, some, List, [], ◌∷◌, ◌+ℤ◌, ltb_ℤ, leb, if◌then◌else◌, holds, pos}
use libgossip.Core.State.{
  inc64, elapsed_ms, tick_clock, notify, send, select_random_peers, draw, Core, Env,
}
use libgossip.Node.{status_discrete, NodeStatus, MessageType, NodeView, GossipMessage}

-- A message that carries this node and the entries `extras`.
abbrev pub own_message : MessageType → List NodeView → Core → GossipMessage
own_message type extras s = record {
  sender = s.self.id;
  type = type;
  timestamp = s.self.heartbeat;
  entries = s.self ∷ extras;
}

-- One round of the sending loops: a ping with fresh random entries.
unfoldable pub ping : Env → NodeView → Core → Core
unfolding select_random_peers send
ping env target s =
    let extras = select_random_peers env s.sync_nodes (some target.id) s in
    send (own_message MessageType.ping extras s) target (draw s)

unfoldable pub ping_all : Env → List NodeView → Core → Core
unfolding ping
ping_all env [] s = s
ping_all env (target ∷ rest) s = ping_all env rest (ping env target s)

-- `self_.heartbeat++; self_.version++;`
abbrev pub beat : Core → Core
beat s = record s {
  self = record s.self { heartbeat = inc64 s.self.heartbeat; version = inc64 s.self.version };
}

abbrev pub suspect_once : ℕ → NodeView → NodeView
suspect_once now node = record node {
  suspicion_count = node.suspicion_count +ℤ pos 1;
  last_suspected = now;
}

-- The clock is read for the test, and once more for `last_suspected`.
unfoldable pub detect_online : Env → NodeView → Core → NodeView × Core
unfolding notify
detect_online env node s =
    if leb s.failure_timeout (elapsed_ms (env.now s.reads) node.seen_time)
    then (let late = tick_clock s in
        let node' = record (suspect_once (env.now late.reads) node) {
          status = NodeStatus.suspect;
        } in
        (node', notify node' node.status (tick_clock late)))
    else (node, tick_clock s)

unfoldable pub detect_suspect : Env → NodeView → Core → NodeView × Core
unfolding notify
detect_suspect env node s =
    if leb s.failure_timeout (elapsed_ms (env.now s.reads) node.last_suspected)
    then (let late = tick_clock s in
        let node' = suspect_once (env.now late.reads) node in
        let gone = record node' { status = NodeStatus.failed } in
        if ltb_ℤ (pos 3) node'.suspicion_count
        then (gone, notify gone node.status (tick_clock late))
        else (node', tick_clock late))
    else (node, tick_clock s)

unfoldable pub detect_as : NodeStatus → Env → NodeView → Core → NodeView × Core
detect_as NodeStatus.online env node s = detect_online env node s
detect_as NodeStatus.suspect env node s = detect_suspect env node s
detect_as _ env node s = (node, s)

-- The body of the failure detection loop: the node that is left, and the state.
unfoldable pub detect : Env → NodeView → Core → NodeView × Core
unfolding detect_as detect_online detect_suspect
detect env node s = detect_as node.status env node s

unfoldable pub detect_all : Env → List NodeView → Core → List NodeView × Core
unfolding detect
detect_all env [] s = ([], s)
detect_all env (node ∷ rest) s =
    let (node', s') = detect env node s in
    let (rest', s'') = detect_all env rest s' in (node' ∷ rest', s'')

-- `self_.seen_time = clock::now();`
abbrev pub stamp_self : Env → Core → Core
stamp_self env s = record (tick_clock s) { self = record s.self { seen_time = env.now s.reads } }

unfoldable pub tick : Env → Core → Core
unfolding ping_all detect_all select_random_peers
tick env s =
    let s1 = stamp_self env s in
    let targets = select_random_peers env s1.gossip_nodes (some s1.self.id) s1 in
    let s2 = beat (ping_all env targets (draw s1)) in
    let (nodes', s3) = detect_all env s2.nodes s2 in
    record (tick_clock s3) {
      nodes = nodes';
      last_tick_duration = elapsed_ms (env.now s3.reads) (env.now s.reads);
    }

abbrev pub is_online : NodeView → Bool
is_online node = holds (status_discrete node.status NodeStatus.online)

unfoldable pub ping_if_online : Env → NodeView → Core → Core
unfolding ping
ping_if_online env node s = if is_online node then ping env node s else s

unfoldable pub ping_online : Env → List NodeView → Core → Core
unfolding ping_if_online
ping_online env [] s = s
ping_online env (node ∷ rest) s = ping_online env rest (ping_if_online env node s)

unfoldable pub tick_full_broadcast : Env → Core → Core
unfolding ping_online
tick_full_broadcast env s = let s1 = stamp_self env s in beat (ping_online env s1.nodes s1)
