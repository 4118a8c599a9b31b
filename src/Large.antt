-- ===== src/Large.antt =====
-- examples/large_scale_cluster_example.cpp: a cluster of nodes in one process, whose send callbacks
-- call handle_message of the target's core directly.
pub mod Node
use libgossip.Base.{ℕ, ◌+◌, ◌%◌, ◌^◌, Bool, List, [], ◌∷◌, ℤ, Bytes, pos}
use libgossip.Base.Map.{insert}
use libgossip.Core.State.{inc64, Core, Env}
use libgossip.Node.{NodeId, blank_node, NodeStatus, NodeView}
use libgossip.Redis.Words.{created_at_key, node_index_key, datacenter, loopback}
pub mod Manager
pub mod Starts

pub record LargeStatistics : Type 0 where
  pub total_messages_sent : ℕ
  pub total_messages_received : ℕ
  pub total_gossip_rounds : ℕ
  pub node_join_events : ℕ
  pub node_leave_events : ℕ
  pub node_failures : ℕ
  pub node_recoveries : ℕ

-- `reset`, and the initial values.
abbrev pub large_reset : LargeStatistics
large_reset = record {
  total_messages_sent = 0;
  total_messages_received = 0;
  total_gossip_rounds = 0;
  node_join_events = 0;
  node_leave_events = 0;
  node_failures = 0;
  node_recoveries = 0;
}

-- What the functions of the example take from outside: the environments of the nodes' cores, the
-- steady clock in nanoseconds and the system clock in milliseconds by their readings, and
-- std::to_string.
pub record LargeEnv : Type 0 where
  pub core_env : ℕ → Env
  pub now : ℕ → ℕ
  pub system_ms : ℕ → ℕ
  pub to_string : ℕ → Bytes

-- The class cluster_node. A pointer to a node is its index. The trace of `core` has the calls of the
-- callbacks during the latest operation of the core.
pub record LargeNode : Type 0 where
  pub index : ℕ
  pub node_info : NodeView
  pub core : Core
  pub manager_nodes : List ℕ

-- All the nodes, and the global variables; `reads` and `system_reads` count the readings of the
-- clocks.
pub record LargeCluster : Type 0 where
  pub nodes : List LargeNode
  pub registry : List (ℤ × ℕ)
  pub stats : LargeStatistics
  pub running : Bool
  pub reads : ℕ
  pub system_reads : ℕ

abbrev pub large_base_port : ℕ
large_base_port = 8000

-- "worker"
abbrev pub worker : Bytes
worker = b'w' ∷ b'o' ∷ b'r' ∷ b'k' ∷ b'e' ∷ b'r' ∷ []

-- The id is what generate_random_node_id draws, `created` what std::time returns.
unfoldable pub create_test_node : LargeEnv → NodeId → ℕ → ℕ → NodeView
create_test_node env id created node_index = record blank_node {
  id = id;
  ip = loopback;
  port = pos ((large_base_port + node_index) % 2 ^ 16);
  config_epoch = 1;
  heartbeat = 0;
  version = 1;
  status = NodeStatus.joining;
  role = worker;
  region = datacenter;
  metadata =
      insert node_index_key (env.to_string node_index)
        (insert created_at_key (env.to_string created) []);
}

-- `case online`
event_online : NodeStatus → LargeStatistics → LargeStatistics
event_online NodeStatus.joining g = record g { node_join_events = inc64 g.node_join_events }
event_online NodeStatus.unknown g = record g { node_join_events = inc64 g.node_join_events }
event_online NodeStatus.failed g = record g { node_recoveries = inc64 g.node_recoveries }
event_online _ g = g

-- `case unknown`
event_unknown : NodeStatus → LargeStatistics → LargeStatistics
event_unknown NodeStatus.online g = record g { node_leave_events = inc64 g.node_leave_events }
event_unknown _ g = g

-- node_event_callback, without what it prints.
unfoldable pub node_event_callback : NodeStatus → NodeStatus → LargeStatistics → LargeStatistics
unfolding event_online event_unknown
node_event_callback NodeStatus.online old_status g = event_online old_status g
node_event_callback NodeStatus.failed old_status g = record g {
  node_failures = inc64 g.node_failures;
}
node_event_callback NodeStatus.unknown old_status g = event_unknown old_status g
node_event_callback _ old_status g = g
