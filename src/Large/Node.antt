-- ===== src/Large/Node.antt =====
-- The operations of cluster_node. The drawn numbers are arguments: of a drawn probability the outcome
-- of the test that it is put to.
use libgossip.Base.{
  ℕ, suc, ◌*◌, Bool, true, false, ◌&&◌, Option, none, some, List, [], ◌∷◌, ◌++◌, map, get_elem?,
  modify, ◌==◌, if◌then◌else◌, holds,
}
use libgossip.Base.Map.{insert}
use libgossip.Core.Handle.{handle_message}
use libgossip.Core.Members.{make_core}
use libgossip.Core.State.{inc64, Effect, Core}
use libgossip.Core.Tick.{tick}
use libgossip.Direct.{
  ◌then◌, is_held, find_port, Nested, Performer, play, depth, unheld_trace, Course,
}
use libgossip.Large.{create_test_node, node_event_callback, LargeEnv, LargeNode, LargeCluster}
use libgossip.Net.{ErrorCode}
use libgossip.Node.{NodeId, status_discrete, NodeStatus, MessageType, NodeView, GossipMessage}
use libgossip.Redis.Words.{last_update_key, operation_key, periodic_update}

abbrev pub put_core : ℕ → Core → LargeCluster → LargeCluster
put_core i s c = record c { nodes = modify i (λ node. record node { core = s }) c.nodes }

abbrev pub one_sent : LargeCluster → LargeCluster
one_sent c = record c {
  stats = record c.stats { total_messages_sent = inc64 c.stats.total_messages_sent };
}

abbrev pub one_received : LargeCluster → LargeCluster
one_received c = record c {
  stats = record c.stats { total_messages_received = inc64 c.stats.total_messages_received };
}

-- `handle_message(msg, recv)` on the core of node `j`, while the mutexes of the nodes in `held` are
-- held by this thread.
unfoldable pub handle_at :
    LargeEnv
    → Nested LargeCluster
    → List ℕ
    → ℕ
    → GossipMessage
    → ℕ
    → LargeCluster
    → Course LargeCluster
unfolding is_held handle_message unheld_trace
handle_at env nested held j msg recv c =
    if is_held j held then Course.blocks else elim (get_elem? c.nodes j) [
      | none ↦ Course.crashes
      | some node ↦
          let s = handle_message (env.core_env j) msg recv (unheld_trace node.core) in
          nested (j ∷ held) s.trace (put_core j s c)
    ]

-- `send_callback`
unfoldable pub large_send_callback :
    LargeEnv
    → Nested LargeCluster
    → List ℕ
    → GossipMessage
    → NodeView
    → LargeCluster
    → Course LargeCluster
unfolding find_port handle_at
large_send_callback env nested held msg target c = elim (find_port target.port c.registry) [
  | none ↦ Course.returns (one_sent c)
  | some j ↦
      handle_at env nested held j msg (env.now c.reads)
        (record (one_sent c) { reads = suc c.reads })
]

unfoldable pub large_perform : LargeEnv → Performer LargeCluster
unfolding large_send_callback node_event_callback
large_perform env nested held (Effect.sent msg target) c =
    large_send_callback env nested held msg target c
large_perform env nested held (Effect.event node old_status) c =
    Course.returns (record c { stats = node_event_callback node.status old_status c.stats })

-- An operation of the core of node `i`, which holds the mutex of the core until it returns.
unfoldable pub operate : LargeEnv → ℕ → (Core → Core) → LargeCluster → Course LargeCluster
unfolding play large_perform unheld_trace
operate env i operation c = elim (get_elem? c.nodes i) [
  | none ↦ Course.crashes
  | some node ↦
      let s = operation (unheld_trace node.core) in
      play (large_perform env) depth (i ∷ []) s.trace (put_core i s c)
]

-- The constructor; the transport is left out.
unfoldable pub create_large_node : LargeEnv → NodeId → ℕ → ℕ → LargeCluster → LargeCluster
unfolding create_test_node make_core
create_large_node env id created index c =
    let info = create_test_node env id created index in
    elim (make_core (env.core_env index) info true true) [
      | none ↦ c
      | some core ↦ record c {
        nodes =
            c.nodes
            ++ record { index = index; node_info = info; core = core; manager_nodes = [] } ∷ [];
        registry = (info.port, index) ∷ c.registry;
      }
    ]

-- `time_point(milliseconds(msg.timestamp))`, in nanoseconds
abbrev pub at_ms : GossipMessage → ℕ
at_ms msg = msg.timestamp * 1000000

abbrev pub read_system : LargeCluster → LargeCluster
read_system c = record c { system_reads = suc c.system_reads }

-- A message of this node with the system clock's time.
abbrev pub stamped_message :
    LargeEnv → MessageType → NodeView → NodeView → LargeCluster → GossipMessage
stamped_message env type info entry c = record {
  sender = info.id;
  type = type;
  timestamp = env.system_ms c.system_reads;
  entries = entry ∷ [];
}

-- "we just process it locally": this node's own core is given the message.
unfoldable pub process_locally : LargeEnv → ℕ → GossipMessage → LargeCluster → Course LargeCluster
unfolding operate handle_message
process_locally env i msg c =
    operate env i (handle_message (env.core_env i) msg (at_ms msg)) c
    then (λ d. Course.returns (one_sent d))

unfoldable pub large_broadcast_join : LargeEnv → ℕ → LargeCluster → Course LargeCluster
unfolding process_locally
large_broadcast_join env i c = elim (get_elem? c.nodes i) [
  | none ↦ Course.crashes
  | some node ↦
      process_locally env i (stamped_message env MessageType.join node.node_info node.node_info c)
        (read_system c)
]

-- start, with what the transport's start reports.
unfoldable pub large_start :
    LargeEnv → ErrorCode → ℕ → LargeCluster → ErrorCode × Course LargeCluster
unfolding large_broadcast_join
large_start env ErrorCode.success i c = (ErrorCode.success, large_broadcast_join env i c)
large_start env ec i c = (ec, Course.returns c)

-- stop, with what the transport's stop reports.
unfoldable pub large_stop : ErrorCode → LargeCluster → ErrorCode × LargeCluster
large_stop ec c = (ec, record c { running = false })

unfoldable pub link_nodes : List LargeNode → ℕ → LargeCluster → LargeCluster
link_nodes all i c = record c {
  nodes =
      modify i
        (λ node. record node { manager_nodes = node.manager_nodes ++ map (λ n. n.index) all })
        c.nodes;
}

-- receive_message by a thread that holds no mutex.
unfoldable pub large_receive_message :
    LargeEnv → ℕ → GossipMessage → LargeCluster → Course LargeCluster
unfolding handle_at play large_perform
large_receive_message env j msg c =
    handle_at env (play (large_perform env) depth) [] j msg (at_ms msg) (one_received c)

-- The loop over `m_manager_nodes` of broadcast_message.
unfoldable pub receive_others :
    LargeEnv → ℕ → GossipMessage → List ℕ → LargeCluster → Course LargeCluster
unfolding large_receive_message
receive_others env i msg [] c = Course.returns c
receive_others env i msg (j ∷ js) c =
    (if j == i
      then Course.returns c
      else large_receive_message env j msg c then (λ d. Course.returns (one_sent d)))
    then receive_others env i msg js

unfoldable pub large_broadcast_message : LargeEnv → ℕ → LargeCluster → Course LargeCluster
unfolding receive_others process_locally
large_broadcast_message env i c = elim (get_elem? c.nodes i) [
  | none ↦ Course.crashes
  | some node ↦
      let msg = stamped_message env MessageType.join node.node_info node.node_info c in
      elim node.manager_nodes [
        | [] ↦ process_locally env i msg (read_system c)
        | k ∷ ks ↦ receive_others env i msg (k ∷ ks) (read_system c)
      ]
]

one_receives : LargeEnv → ℕ → GossipMessage → Option ℕ → LargeCluster → Course LargeCluster
unfolding large_receive_message
one_receives env i msg none c = Course.crashes
one_receives env i msg (some j) c =
    if j == i
    then Course.returns c
    else large_receive_message env j msg c then (λ d. Course.returns (one_sent d))

-- `target_idx` is drawn below the number of nodes.
unfoldable pub large_send_update : LargeEnv → ℕ → ℕ → LargeCluster → Course LargeCluster
unfolding one_receives process_locally
large_send_update env i target_idx c = elim (get_elem? c.nodes i) [
  | none ↦ Course.crashes
  | some node ↦
      let entry = record node.node_info {
        metadata = insert operation_key periodic_update (
            insert last_update_key (env.to_string (env.system_ms c.system_reads))
              node.node_info.metadata);
      } in
      let msg = stamped_message env MessageType.update node.node_info entry c in
      elim node.manager_nodes [
        | [] ↦ process_locally env i msg (read_system c)
        | k ∷ ks ↦ one_receives env i msg (get_elem? (k ∷ ks) target_idx) (read_system c)
      ]
]

abbrev pub set_info : ℕ → NodeView → LargeCluster → LargeCluster
set_info i info c = record c { nodes = modify i (λ node. record node { node_info = info }) c.nodes }

-- The status of `m_node_info` becomes `st`, and the event callback is called by hand.
abbrev pub turn_to : ℕ → NodeStatus → NodeView → LargeCluster → LargeCluster
turn_to i st info c = record (set_info i (record info { status = st }) c) {
  stats = node_event_callback st info.status c.stats;
}

-- `fails` and `recovers`: the drawn number is below NODE_FAILURE_PROBABILITY, or below
-- NODE_RECOVERY_PROBABILITY.
unfoldable pub large_node_issues : ℕ → Bool → Bool → LargeCluster → LargeCluster
unfolding node_event_callback
large_node_issues i fails recovers c = elim (get_elem? c.nodes i) [
  | none ↦ c
  | some node ↦
      let status = node.node_info.status in
      if holds (status_discrete status NodeStatus.online) && fails
      then turn_to i NodeStatus.failed node.node_info c
      else if holds (status_discrete status NodeStatus.failed) && recovers
      then turn_to i NodeStatus.online node.node_info c
      else c
]

-- What the first drawn number makes a node do besides its tick.
pub data LargeChance : Type 0 where
  updates : ℕ → LargeChance
  broadcasts idle : LargeChance

unfoldable pub take_large_chance : LargeEnv → ℕ → LargeChance → LargeCluster → Course LargeCluster
unfolding large_send_update large_broadcast_message
take_large_chance env i (LargeChance.updates target_idx) c = large_send_update env i target_idx c
take_large_chance env i LargeChance.broadcasts c = large_broadcast_message env i c
take_large_chance env i LargeChance.idle c = Course.returns c

abbrev pub one_round_more : LargeCluster → LargeCluster
one_round_more c = record c {
  stats = record c.stats { total_gossip_rounds = inc64 c.stats.total_gossip_rounds };
}

-- `m_node_info.heartbeat++;`
abbrev pub beat_info : ℕ → LargeCluster → LargeCluster
beat_info i c = record c {
  nodes =
      modify i
        (λ node. record node {
          node_info = record node.node_info { heartbeat = inc64 node.node_info.heartbeat };
        })
        c.nodes;
}

unfoldable pub large_periodic :
    LargeEnv → ℕ → LargeChance → Bool → Bool → LargeCluster → Course LargeCluster
unfolding operate tick take_large_chance large_node_issues
large_periodic env i chance fails recovers c =
    operate env i (tick (env.core_env i)) (beat_info i c)
    then (λ d. take_large_chance env i chance (one_round_more d))
    then (λ d. Course.returns (large_node_issues i fails recovers d))
