-- ===== src/Redis.antt =====
-- examples/redis_cluster_gossip_example.cpp: a cluster of nodes in one process whose send callbacks
-- call handle_message of the target directly. This module has its data and the functions that
-- concern no other node.
pub mod Words
pub mod Slots
use libgossip.Base.{ℕ, ◌+◌, ◌/◌, ◌%◌, ◌^◌, Bool, List, [], ◌∷◌, ℤ, ◌==◌, if◌then◌else◌, Bytes, pos}
use libgossip.Base.Map.{insert}
use libgossip.Core.State.{inc64, Core, Env}
use libgossip.Ids.{hex_char}
use libgossip.Node.{NodeId, blank_node, NodeStatus, NodeView}
use libgossip.Redis.Words.{
  redis_version_key, redis_version, role_key, created_at_key, node_index_key, master, slave,
  datacenter, loopback,
}
pub mod Course
pub mod Node
pub mod Manager
pub mod Outrun

abbrev pub cluster_size : ℕ
cluster_size = 6

abbrev pub base_port : ℕ
base_port = 7000

abbrev pub hash_slots : ℕ
hash_slots = 16384

pub record ClusterStatistics : Type 0 where
  pub total_messages_sent : ℕ
  pub total_messages_received : ℕ
  pub total_gossip_cycles : ℕ
  pub node_join_events : ℕ
  pub node_leave_events : ℕ
  pub node_failures : ℕ
  pub node_recoveries : ℕ
  pub slot_migrations : ℕ

-- `reset`, and the initial values.
abbrev pub no_statistics : ClusterStatistics
no_statistics = record {
  total_messages_sent = 0;
  total_messages_received = 0;
  total_gossip_cycles = 0;
  node_join_events = 0;
  node_leave_events = 0;
  node_failures = 0;
  node_recoveries = 0;
  slot_migrations = 0;
}

-- What the functions of the example take from outside: the environments of the nodes' cores, the
-- steady clock in nanoseconds by its readings, and std::to_string.
pub record RedisEnv : Type 0 where
  pub core_env : ℕ → Env
  pub now : ℕ → ℕ
  pub to_string : ℕ → Bytes

-- The class redis_cluster_node. A pointer to a node is its index. The trace of `core` has the calls
-- of the callbacks during the latest operation of the core.
pub record RedisNode : Type 0 where
  pub index : ℕ
  pub node_info : NodeView
  pub core : Core
  pub manager_nodes : List ℕ

-- All the nodes, and the global variables; `reads` counts the readings of the clock.
pub record RedisCluster : Type 0 where
  pub nodes : List RedisNode
  pub registry : List (ℤ × ℕ)
  pub stats : ClusterStatistics
  pub running : Bool
  pub reads : ℕ

-- node_id_to_string, from the second byte on.
more_bytes : Bytes → Bytes
unfolding hex_char
more_bytes [] = []
more_bytes (byte ∷ id) = b':' ∷ hex_char (byte / 16) ∷ hex_char (byte % 16) ∷ more_bytes id

unfoldable pub node_id_to_text : NodeId → Bytes
unfolding hex_char more_bytes
node_id_to_text [] = []
node_id_to_text (byte ∷ id) = hex_char (byte / 16) ∷ hex_char (byte % 16) ∷ more_bytes id

abbrev pub role_of : ℕ → Bytes
role_of node_index = if node_index % 2 == 0 then master else slave

-- The id is what generate_random_node_id draws, `created` what std::time returns.
unfoldable pub create_redis_node : RedisEnv → NodeId → ℕ → ℕ → NodeView
create_redis_node env id created node_index = record blank_node {
  id = id;
  ip = loopback;
  port = pos ((base_port + node_index) % 2 ^ 16);
  config_epoch = 1;
  heartbeat = 0;
  version = 1;
  status = NodeStatus.joining;
  role = role_of node_index;
  region = datacenter;
  metadata = insert node_index_key (env.to_string node_index) (
      insert created_at_key (env.to_string created)
        (insert role_key (role_of node_index) (insert redis_version_key redis_version [])));
}

-- `case online`
count_online : NodeStatus → ClusterStatistics → ClusterStatistics
count_online NodeStatus.joining g = record g { node_join_events = inc64 g.node_join_events }
count_online NodeStatus.unknown g = record g { node_join_events = inc64 g.node_join_events }
count_online NodeStatus.failed g = record g { node_recoveries = inc64 g.node_recoveries }
count_online _ g = g

-- `case unknown`
count_unknown : NodeStatus → ClusterStatistics → ClusterStatistics
count_unknown NodeStatus.online g = record g { node_leave_events = inc64 g.node_leave_events }
count_unknown _ g = g

-- redis_node_event_callback, without what it prints.
unfoldable pub redis_node_event_callback :
    NodeStatus → NodeStatus → ClusterStatistics → ClusterStatistics
unfolding count_online count_unknown
redis_node_event_callback NodeStatus.online old_status g = count_online old_status g
redis_node_event_callback NodeStatus.failed old_status g = record g {
  node_failures = inc64 g.node_failures;
}
redis_node_event_callback NodeStatus.unknown old_status g = count_unknown old_status g
redis_node_event_callback _ old_status g = g
