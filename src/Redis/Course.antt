-- ===== src/Redis/Course.antt =====
-- The callbacks of a node's core, and an operation of the core with the calls that it makes.
pub mod Ends
pub mod Blocks
use libgossip.Base.{ℕ, suc, none, some, List, [], ◌∷◌, get_elem?, modify, if◌then◌else◌}
use libgossip.Core.Handle.{handle_message}
use libgossip.Core.State.{inc64, Effect, Core}
use libgossip.Direct.{
  ◌then◌, is_held, find_port, Nested, Performer, play, depth, unheld_trace, Course,
}
use libgossip.Node.{NodeView, GossipMessage}
use libgossip.Redis.{redis_node_event_callback, RedisEnv, RedisCluster}

abbrev pub set_core : ℕ → Core → RedisCluster → RedisCluster
set_core i s c = record c { nodes = modify i (λ node. record node { core = s }) c.nodes }

abbrev pub count_sent : RedisCluster → RedisCluster
count_sent c = record c {
  stats = record c.stats { total_messages_sent = inc64 c.stats.total_messages_sent };
}

abbrev pub count_received : RedisCluster → RedisCluster
count_received c = record c {
  stats = record c.stats { total_messages_received = inc64 c.stats.total_messages_received };
  reads = suc c.reads;
}

-- receive_message of node `j`, while the mutexes of the nodes in `held` are held by this thread.
unfoldable pub receive_message :
    RedisEnv → Nested RedisCluster → List ℕ → ℕ → GossipMessage → RedisCluster → Course RedisCluster
unfolding is_held handle_message unheld_trace
receive_message env nested held j msg c =
    if is_held j held then Course.blocks else elim (get_elem? c.nodes j) [
      | none ↦ Course.crashes
      | some node ↦
          let s = handle_message (env.core_env j) msg (env.now c.reads) (unheld_trace node.core) in
          nested (j ∷ held) s.trace (set_core j s (count_received c))
    ]

unfoldable pub send_callback :
    RedisEnv
    → Nested RedisCluster
    → List ℕ
    → GossipMessage
    → NodeView
    → RedisCluster
    → Course RedisCluster
unfolding find_port receive_message
send_callback env nested held msg target c = elim (find_port target.port c.registry) [
  | none ↦ Course.returns (count_sent c)
  | some j ↦ receive_message env nested held j msg (count_sent c)
]

unfoldable pub perform : RedisEnv → Performer RedisCluster
unfolding send_callback redis_node_event_callback
perform env nested held (Effect.sent msg target) c = send_callback env nested held msg target c
perform env nested held (Effect.event node old_status) c =
    Course.returns (record c { stats = redis_node_event_callback node.status old_status c.stats })

-- An operation of the core of node `i`, which holds the mutex of the core until it returns.
unfoldable pub locked : RedisEnv → ℕ → (Core → Core) → RedisCluster → Course RedisCluster
unfolding play perform unheld_trace
locked env i operation c = elim (get_elem? c.nodes i) [
  | none ↦ Course.crashes
  | some node ↦
      let s = operation (unheld_trace node.core) in
      play (perform env) depth (i ∷ []) s.trace (set_core i s c)
]
