-- ===== src/Checks/Examples.antt =====
-- Two nodes of the Redis example.
use libgossip.Base.{
  ℕ, ◌≤◌, ◌<◌, ◌≡◌, refl, ◌⊎◌, true, [], ◌∷◌, int_discrete, Bytes, bytes_discrete, pos,
}
use libgossip.Base.Map.{dictionary_discrete, insert}
use libgossip.Checks.Samples.{id_of, sample_node, clock_3s, sample_env, sample_core}
use libgossip.Core.Members.{meet}
use libgossip.Core.Tick.{tick}
use libgossip.Direct.{find_port, Course}
use libgossip.Direct.Ends.{Ends}
use libgossip.Large.{create_test_node, LargeEnv, LargeNode, LargeCluster}
use libgossip.Large.Manager.{no_large_nodes, create_large_nodes}
use libgossip.Large.Node.{large_start}
use libgossip.Large.Starts.{start_blocks}
use libgossip.Net.{ErrorCode}
use libgossip.Node.{status_discrete, type_discrete, can_replace, NodeStatus}
use libgossip.Redis.{role_of, RedisEnv, RedisNode, RedisCluster}
use libgossip.Redis.Course.{locked}
use libgossip.Redis.Course.Blocks.{meet_blocks}
use libgossip.Redis.Course.Ends.{operation_ends}
use libgossip.Redis.Manager.{empty_cluster, create_nodes, initialize}
use libgossip.Redis.Slots.{start_slot, end_slot, slots_partition}
use libgossip.Redis.Words.{master}

abbrev plain_text : ℕ → Bytes
plain_text n = n ∷ []

abbrev two_env : RedisEnv
two_env = record { core_env = λ i. sample_env; now = clock_3s; to_string = plain_text }

abbrev two_nodes : RedisCluster
two_nodes = create_nodes two_env ((id_of 1, 0) ∷ (id_of 2, 0) ∷ []) 0 empty_cluster

abbrev node_of : ℕ → RedisNode
node_of k = record {
  index = k;
  node_info = sample_node k NodeStatus.joining;
  core = record sample_core { self = sample_node k NodeStatus.online; nodes = []; trace = [] };
  manager_nodes = [];
}

abbrev pair : RedisCluster
pair = record empty_cluster {
  nodes = node_of 0 ∷ node_of 1 ∷ [];
  registry = (pos 7000, 0) ∷ (pos 7001, 1) ∷ [];
}

meet_blocks_example :
    locked two_env 0 (meet sample_env (sample_node 1 NodeStatus.online)) pair ≡ Course.blocks
unfolding find_port int_discrete
meet_blocks_example =
    meet_blocks two_env 0 1 (sample_node 1 NodeStatus.online) pair {a = node_of 0} {b = node_of 1}
      (λ e. cc) refl refl (λ e. cc) refl refl tt

slots_partition_example :
    ((16383 < 16383)
      × ((index : ℕ) × (index < 6)
          × (role_of index ≡ master)
          × (start_slot index ≤ 16383)
          × (16383 < end_slot index)
          × ((other : ℕ)
              → other < 6
              → role_of other ≡ master
              → start_slot other ≤ 16383
              → 16383 < end_slot other
              → other ≡ index)))
    ⊎ ((16383 ≤ 16383) × ((index : ℕ) → index < 6 → end_slot index ≤ 16383))
slots_partition_example = slots_partition 16383

operation_ends_example : Ends (locked two_env 0 (tick sample_env) pair)
operation_ends_example = operation_ends two_env 0 (tick sample_env) pair

-- The joins are broadcast and answered; then the first meeting of initialize never returns.
initialize_blocks :
    initialize two_env (ErrorCode.success ∷ ErrorCode.success ∷ []) (λ i. []) two_nodes
    ≡ (true, Course.blocks)
unfolding initialize create_nodes bytes_discrete int_discrete type_discrete status_discrete
    can_replace dictionary_discrete insert
initialize_blocks = refl

abbrev large_env : LargeEnv
large_env = record {
  core_env = λ i. sample_env;
  now = clock_3s;
  system_ms = clock_3s;
  to_string = plain_text;
}

abbrev large_pair : LargeCluster
large_pair = create_large_nodes large_env ((id_of 1, 0) ∷ (id_of 2, 0) ∷ []) 0 no_large_nodes

abbrev large_first : LargeNode
large_first = record {
  index = 0;
  node_info = create_test_node large_env (id_of 1) 0 0;
  core = record sample_core {
    self = record (create_test_node large_env (id_of 1) 0 0) {
      status = NodeStatus.online;
      seen_time = 0;
    };
    nodes = [];
    trace = [];
    reads = 1;
    draws = 0;
    sent_messages = 0;
    received_messages = 0;
    last_tick_duration = 0;
    event_fn = true;
  };
  manager_nodes = [];
}

start_blocks_example : (large_start large_env ErrorCode.success 0 large_pair).1 ≡ Course.blocks
unfolding create_large_nodes find_port int_discrete insert bytes_discrete
start_blocks_example = start_blocks large_env 0 large_pair {a = large_first} refl refl tt
