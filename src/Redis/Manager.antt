-- ===== src/Redis/Manager.antt =====
-- redis_cluster_manager.
use libgossip.Base.{
  ℕ, suc, ◌+◌, ◌%◌, Bool, true, false, none, some, List, [], ◌∷◌, map, get_elem?, take, ◌==◌,
  if◌then◌else◌,
}
use libgossip.Core.Members.{meet}
use libgossip.Direct.{◌then◌, Course}
use libgossip.Net.{ErrorCode}
use libgossip.Node.{NodeId}
use libgossip.Redis.{no_statistics, RedisEnv, RedisNode, RedisCluster}
use libgossip.Redis.Course.{locked}
use libgossip.Redis.Node.{
  create_node, stop_node, set_manager_nodes, broadcast_join_message, perform_periodic_operations,
  Chance,
}

abbrev pub empty_cluster : RedisCluster
empty_cluster = record {
  nodes = [];
  registry = [];
  stats = no_statistics;
  running = true;
  reads = 0;
}

-- The constructor: one node for each of the drawn ids, with the time of its creation.
unfoldable pub create_nodes : RedisEnv → List (NodeId × ℕ) → ℕ → RedisCluster → RedisCluster
unfolding create_node
create_nodes env [] index c = c
create_nodes env ((id, created) ∷ rest) index c =
    create_nodes env rest (suc index) (create_node env id created index c)

-- The first loop of initialize: all transports start, by what each start reports.
unfoldable pub all_started : List ErrorCode → Bool
all_started [] = true
all_started (ErrorCode.success ∷ rest) = all_started rest
all_started (_ ∷ rest) = false

unfoldable pub set_all_manager_nodes : List RedisNode → List RedisNode → RedisCluster → RedisCluster
unfolding set_manager_nodes
set_all_manager_nodes all [] c = c
set_all_manager_nodes all (node ∷ rest) c =
    set_all_manager_nodes all rest (set_manager_nodes all node.index c)

unfoldable pub join_all : RedisEnv → List ℕ → RedisCluster → Course RedisCluster
unfolding broadcast_join_message
join_all env [] c = Course.returns c
join_all env (i ∷ rest) c = broadcast_join_message env i c then join_all env rest

-- `m_nodes[i]->meet(m_nodes[j]->get_node_info())`
unfoldable pub node_meet : RedisEnv → ℕ → ℕ → RedisCluster → Course RedisCluster
unfolding locked meet
node_meet env i j c = elim (get_elem? c.nodes j) [
  | none ↦ Course.crashes
  | some other ↦ locked env i (meet (env.core_env i) other.node_info) c
]

unfoldable pub meet_each_other : RedisEnv → ℕ → ℕ → RedisCluster → Course RedisCluster
unfolding node_meet
meet_each_other env i j c = node_meet env i j c then node_meet env j i

-- The meetings of node `i` with the nodes that are drawn for it.
unfoldable pub meet_drawn : RedisEnv → ℕ → List ℕ → RedisCluster → Course RedisCluster
unfolding meet_each_other
meet_drawn env i [] c = Course.returns c
meet_drawn env i (target_idx ∷ rest) c =
    (if target_idx == i then Course.returns c else meet_each_other env i target_idx c)
    then meet_drawn env i rest

-- "Connect each node to a few random nodes": `drawn i` are the first of the numbers drawn for node
-- `i`, of which it takes two or three.
unfoldable pub meet_random : RedisEnv → (ℕ → List ℕ) → List ℕ → RedisCluster → Course RedisCluster
unfolding meet_drawn
meet_random env drawn [] c = Course.returns c
meet_random env drawn (i ∷ rest) c =
    meet_drawn env i (take (2 + i % 2) (drawn i)) c then meet_random env drawn rest

unfoldable pub meet_later : RedisEnv → ℕ → List ℕ → RedisCluster → Course RedisCluster
unfolding meet_each_other
meet_later env i [] c = Course.returns c
meet_later env i (j ∷ js) c = meet_each_other env i j c then meet_later env i js

-- "Additionally, create a fully connected topology".
unfoldable pub meet_everyone : RedisEnv → List ℕ → RedisCluster → Course RedisCluster
unfolding meet_later
meet_everyone env [] c = Course.returns c
meet_everyone env (i ∷ rest) c = meet_later env i rest c then meet_everyone env rest

-- initialize returns false with the cluster as it was if a transport does not start.
unfoldable pub initialize :
    RedisEnv → List ErrorCode → (ℕ → List ℕ) → RedisCluster → Bool × Course RedisCluster
unfolding all_started set_all_manager_nodes join_all meet_random meet_everyone
initialize env starts drawn c =
    let all = map (λ n. n.index) c.nodes in
    if all_started starts
    then (
      true,
      join_all env all (set_all_manager_nodes c.nodes c.nodes c)
          then meet_random env drawn all
          then meet_everyone env all,
    )
    else (false, Course.returns c)

-- What is drawn for a node in one round of run_simulation.
pub record Chances : Type 0 where
  pub chance : Chance
  pub fails : Bool
  pub recovers : Bool

unfoldable pub run_round : RedisEnv → (ℕ → Chances) → List ℕ → RedisCluster → Course RedisCluster
unfolding perform_periodic_operations
run_round env turns [] c = Course.returns c
run_round env turns (i ∷ rest) c =
    let turn = turns i in
    perform_periodic_operations env i turn.chance turn.fails turn.recovers c
    then run_round env turns rest

-- One round after another for as long as the time is not over and no node was stopped.
unfoldable pub run_simulation : RedisEnv → List (ℕ → Chances) → RedisCluster → Course RedisCluster
unfolding run_round
run_simulation env [] c = Course.returns c
run_simulation env (turns ∷ rest) c =
    if c.running
    then run_round env turns (map (λ n. n.index) c.nodes) c
    then run_simulation env rest
    else Course.returns c

-- shutdown, with what stopping each transport reports.
unfoldable pub stop_all : List ErrorCode → RedisCluster → RedisCluster
unfolding stop_node
stop_all [] c = c
stop_all (ec ∷ rest) c = stop_all rest (stop_node ec c).1

unfoldable pub shutdown : List ErrorCode → RedisCluster → RedisCluster
unfolding stop_all
shutdown stops c = stop_all stops (record c { running = false })
