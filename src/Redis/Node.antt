-- ===== src/Redis/Node.antt =====
-- The operations of redis_cluster_node. The drawn numbers are arguments: of a drawn probability the
-- outcome of the test that it is put to.
use libgossip.Base.{
  ℕ, suc, ◌/◌, Bool, true, false, not, ◌&&◌, Option, none, some, List, [], ◌∷◌, ◌++◌, map,
  get_elem?, modify, ◌==◌, if◌then◌else◌, holds, bytes_discrete,
}
use libgossip.Base.Map.{insert}
use libgossip.Core.Handle.{handle_message}
use libgossip.Core.Members.{make_core}
use libgossip.Core.State.{inc64}
use libgossip.Core.Tick.{tick}
use libgossip.Direct.{◌then◌, find_port, play, depth, Course}
use libgossip.Net.{ErrorCode}
use libgossip.Node.{NodeId, status_discrete, NodeStatus, MessageType, NodeView, GossipMessage}
use libgossip.Redis.{create_redis_node, RedisEnv, RedisNode, RedisCluster}
use libgossip.Redis.Course.{count_sent, receive_message, perform, locked}
use libgossip.Redis.Slots.{assign_hash_slots}
use libgossip.Redis.Words.{
  last_update_key, operation_key, periodic_update, last_migration_key, master,
}

-- std::chrono::milliseconds of the steady clock's reading.
abbrev pub to_ms : ℕ → ℕ
to_ms now = now / 1000000

abbrev pub read_clock : RedisCluster → RedisCluster
read_clock c = record c { reads = suc c.reads }

-- The constructor.
unfoldable pub create_node : RedisEnv → NodeId → ℕ → ℕ → RedisCluster → RedisCluster
unfolding create_redis_node assign_hash_slots make_core
create_node env id created index c =
    let info = create_redis_node env id created index in
    elim (make_core (env.core_env index) info true true) [
      | none ↦ c
      | some core ↦ record c {
        nodes =
            c.nodes
            ++ record {
              index = index;
              node_info = assign_hash_slots env index info;
              core = core;
              manager_nodes = [];
            }
              ∷ [];
        registry = (info.port, index) ∷ c.registry;
      }
    ]

-- stop, with what the transport's stop reports.
unfoldable pub stop_node : ErrorCode → RedisCluster → ErrorCode × RedisCluster
stop_node ec c = (ec, record c { running = false })

unfoldable pub set_manager_nodes : List RedisNode → ℕ → RedisCluster → RedisCluster
set_manager_nodes all i c = record c {
  nodes =
      modify i
        (λ node. record node { manager_nodes = node.manager_nodes ++ map (λ n. n.index) all })
        c.nodes;
}

-- receive_message of a node by a thread that holds no mutex.
unfoldable pub hand_on : RedisEnv → ℕ → GossipMessage → RedisCluster → Course RedisCluster
unfolding receive_message play perform
hand_on env j msg c = receive_message env (play (perform env) depth) [] j msg c

-- The loop over `m_manager_nodes` that leaves out this node.
unfoldable pub deliver_others :
    RedisEnv → ℕ → GossipMessage → List ℕ → RedisCluster → Course RedisCluster
unfolding hand_on
deliver_others env i msg [] c = Course.returns c
deliver_others env i msg (j ∷ js) c =
    (if j == i
      then Course.returns c
      else hand_on env j msg c then (λ d. Course.returns (count_sent d)))
    then deliver_others env i msg js

abbrev pub example_message : NodeId → MessageType → ℕ → NodeView → GossipMessage
example_message sender type timestamp entry = record {
  sender = sender;
  type = type;
  timestamp = timestamp;
  entries = entry ∷ [];
}

-- The loop of broadcast_join_message: every other node by the port that it has in the registry,
-- where `operator[]` gives a null pointer for a port that is not there.
unfoldable pub join_others :
    RedisEnv → ℕ → GossipMessage → List ℕ → RedisCluster → Course RedisCluster
unfolding hand_on find_port
join_others env i msg [] c = Course.returns c
join_others env i msg (j ∷ js) c =
    (if j == i then Course.returns c else elim (get_elem? c.nodes j) [
      | none ↦ Course.crashes
      | some node ↦ elim (find_port node.node_info.port c.registry) [
        | none ↦ Course.crashes
        | some k ↦ hand_on env k msg c then (λ d. Course.returns (count_sent d))
      ]
    ])
    then join_others env i msg js

-- The message is timed by the clock's milliseconds, and so are those below.
unfoldable pub broadcast_join_message : RedisEnv → ℕ → RedisCluster → Course RedisCluster
unfolding join_others
broadcast_join_message env i c = elim (get_elem? c.nodes i) [
  | none ↦ Course.crashes
  | some node ↦
      let self = node.core.self in
      join_others env i (example_message self.id MessageType.join (to_ms (env.now c.reads)) self)
        node.manager_nodes (read_clock c)
]

-- "Fallback to original behavior": this node's own core is given the message.
unfoldable pub fall_back : RedisEnv → ℕ → GossipMessage → ℕ → RedisCluster → Course RedisCluster
unfolding locked handle_message
fall_back env i msg now c =
    locked env i (handle_message (env.core_env i) msg now) c
    then (λ d. Course.returns (count_sent d))

unfoldable pub update_message : RedisEnv → NodeView → ℕ → GossipMessage
update_message env info timestamp =
    example_message info.id MessageType.update timestamp (record info {
      metadata =
          insert operation_key periodic_update
            (insert last_update_key (env.to_string timestamp) info.metadata);
    })

send_to : RedisEnv → ℕ → GossipMessage → Option ℕ → RedisCluster → Course RedisCluster
unfolding hand_on
send_to env i msg none c = Course.crashes
send_to env i msg (some j) c =
    if j == i
    then Course.returns c
    else hand_on env j msg c then (λ d. Course.returns (count_sent d))

-- `target_idx` is drawn below the number of nodes.
unfoldable pub send_update_message : RedisEnv → ℕ → ℕ → RedisCluster → Course RedisCluster
unfolding send_to fall_back update_message
send_update_message env i target_idx c = elim (get_elem? c.nodes i) [
  | none ↦ Course.crashes
  | some node ↦
      let now = env.now c.reads in
      let msg = update_message env node.node_info (to_ms now) in
      elim node.manager_nodes [
        | [] ↦ fall_back env i msg now (read_clock c)
        | k ∷ ks ↦ send_to env i msg (get_elem? (k ∷ ks) target_idx) (read_clock c)
      ]
]

unfoldable pub broadcast_message : RedisEnv → ℕ → RedisCluster → Course RedisCluster
unfolding deliver_others fall_back
broadcast_message env i c = elim (get_elem? c.nodes i) [
  | none ↦ Course.crashes
  | some node ↦
      let now = env.now c.reads in
      let msg = example_message node.node_info.id MessageType.join (to_ms now) node.node_info in
      elim node.manager_nodes [
        | [] ↦ fall_back env i msg now (read_clock c)
        | k ∷ ks ↦ deliver_others env i msg (k ∷ ks) (read_clock c)
      ]
]

-- This node with one heartbeat and one epoch more.
abbrev pub ahead : NodeStatus → NodeView → NodeView
ahead st self = record self {
  status = st;
  heartbeat = inc64 self.heartbeat;
  config_epoch = inc64 self.config_epoch;
}

unfoldable pub broadcast_failure : RedisEnv → ℕ → RedisCluster → Course RedisCluster
unfolding deliver_others
broadcast_failure env i c = elim (get_elem? c.nodes i) [
  | none ↦ Course.crashes
  | some node ↦
      let self = node.core.self in
      deliver_others env i
        (example_message self.id MessageType.leave (to_ms (env.now c.reads))
          (ahead NodeStatus.failed self))
        node.manager_nodes (read_clock c)
]

unfoldable pub broadcast_recovery : RedisEnv → ℕ → RedisCluster → Course RedisCluster
unfolding deliver_others
broadcast_recovery env i c = elim (get_elem? c.nodes i) [
  | none ↦ Course.crashes
  | some node ↦
      let self = node.core.self in
      deliver_others env i
        (example_message self.id MessageType.join (to_ms (env.now c.reads))
          (ahead NodeStatus.online self))
        node.manager_nodes (read_clock c)
]

-- `now` is the system clock's time in milliseconds.
unfoldable pub simulate_slot_migration : RedisEnv → ℕ → ℕ → RedisCluster → RedisCluster
simulate_slot_migration env i now c = elim (get_elem? c.nodes i) [
  | none ↦ c
  | some node ↦ if not (holds (bytes_discrete node.node_info.role master)) then c else record c {
    nodes =
        modify i
          (λ n. record n {
            node_info = record n.node_info {
              metadata = insert last_migration_key (env.to_string now) n.node_info.metadata;
            };
          })
          c.nodes;
    stats = record c.stats { slot_migrations = inc64 c.stats.slot_migrations };
  }
]

-- `fails` and `recovers`: the drawn number is below NODE_FAILURE_PROBABILITY, or below
-- NODE_RECOVERY_PROBABILITY.
unfoldable pub simulate_node_issues :
    RedisEnv → ℕ → Bool → Bool → RedisCluster → Course RedisCluster
unfolding broadcast_failure broadcast_recovery
simulate_node_issues env i fails recovers c = elim (get_elem? c.nodes i) [
  | none ↦ Course.crashes
  | some node ↦
      let status = node.core.self.status in
      if holds (status_discrete status NodeStatus.online) && fails
      then broadcast_failure env i c
      else if holds (status_discrete status NodeStatus.failed) && recovers
      then broadcast_recovery env i c
      else Course.returns c
]

-- What the first drawn number makes a node do besides its tick.
pub data Chance : Type 0 where
  update : ℕ → Chance
  broadcast : Chance
  migrate : ℕ → Chance
  nothing : Chance

abbrev pub count_cycle : RedisCluster → RedisCluster
count_cycle c = record c {
  stats = record c.stats { total_gossip_cycles = inc64 c.stats.total_gossip_cycles };
}

unfoldable pub take_chance : RedisEnv → ℕ → Chance → RedisCluster → Course RedisCluster
unfolding send_update_message broadcast_message simulate_slot_migration
take_chance env i (Chance.update target_idx) c = send_update_message env i target_idx c
take_chance env i Chance.broadcast c = broadcast_message env i c
take_chance env i (Chance.migrate now) c = Course.returns (simulate_slot_migration env i now c)
take_chance env i Chance.nothing c = Course.returns c

unfoldable pub perform_periodic_operations :
    RedisEnv → ℕ → Chance → Bool → Bool → RedisCluster → Course RedisCluster
unfolding locked tick take_chance simulate_node_issues
perform_periodic_operations env i chance fails recovers c =
    locked env i (tick (env.core_env i)) c
    then (λ d. take_chance env i chance (count_cycle d))
    then simulate_node_issues env i fails recovers
