-- ===== src/Large/Manager.antt =====
-- cluster_manager.
use libgossip.Base.{
  ℕ, suc, Bool, true, false, none, some, List, [], ◌∷◌, map, get_elem?, drop, if◌then◌else◌,
}
use libgossip.Core.Members.{meet}
use libgossip.Direct.{◌then◌, Course}
use libgossip.Large.{large_reset, LargeEnv, LargeNode, LargeCluster}
use libgossip.Large.Node.{
  operate, create_large_node, large_broadcast_join, large_stop, link_nodes, large_periodic,
  LargeChance,
}
use libgossip.Manager.{started}
use libgossip.Net.{ErrorCode}
use libgossip.Node.{NodeId}

abbrev pub no_large_nodes : LargeCluster
no_large_nodes = record {
  nodes = [];
  registry = [];
  stats = large_reset;
  running = true;
  reads = 0;
  system_reads = 0;
}

-- The constructor: one node for each of the drawn ids, with the time of its creation.
unfoldable pub create_large_nodes : LargeEnv → List (NodeId × ℕ) → ℕ → LargeCluster → LargeCluster
unfolding create_large_node
create_large_nodes env [] index c = c
create_large_nodes env ((id, created) ∷ rest) index c =
    create_large_nodes env rest (suc index) (create_large_node env id created index c)

-- The first loop of initialize, by what each transport's start reports: false at the first that does
-- not start.
unfoldable pub start_all : LargeEnv → List ErrorCode → ℕ → LargeCluster → Bool × Course LargeCluster
unfolding large_broadcast_join
start_all env [] i c = (true, Course.returns c)
start_all env (ErrorCode.success ∷ rest) i c = elim (large_broadcast_join env i c) [
  | Course.returns d ↦ start_all env rest (suc i) d
  | Course.blocks ↦ (true, Course.blocks)
  | Course.crashes ↦ (true, Course.crashes)
  | Course.exhausts ↦ (true, Course.exhausts)
]
start_all env (ec ∷ rest) i c = (false, Course.returns c)

unfoldable pub link_all : List LargeNode → List LargeNode → LargeCluster → LargeCluster
unfolding link_nodes
link_all all [] c = c
link_all all (node ∷ rest) c = link_all all rest (link_nodes all node.index c)

-- `m_nodes[i]->meet(m_nodes[j]->get_node_info())`
unfoldable pub large_meet : LargeEnv → ℕ → ℕ → LargeCluster → Course LargeCluster
unfolding operate meet
large_meet env i j c = elim (get_elem? c.nodes j) [
  | none ↦ Course.crashes
  | some other ↦ operate env i (meet (env.core_env i) other.node_info) c
]

-- "just make all nodes meet the first node"
unfoldable pub meet_first : LargeEnv → List ℕ → LargeCluster → Course LargeCluster
unfolding large_meet
meet_first env [] c = Course.returns c
meet_first env (i ∷ rest) c = large_meet env 0 i c then large_meet env i 0 then meet_first env rest

unfoldable pub large_initialize :
    LargeEnv → List ErrorCode → LargeCluster → Bool × Course LargeCluster
unfolding start_all link_all meet_first
large_initialize env starts c =
    let (started, course) = start_all env starts 0 c in
    if started
    then (
      true,
      course then (λ d.
          meet_first env (drop 1 (map (λ n. n.index) d.nodes)) (link_all d.nodes d.nodes d)),
    )
    else (false, course)

-- What is drawn for a node in one round of run_simulation.
pub record LargeTurn : Type 0 where
  pub chance : LargeChance
  pub fails : Bool
  pub recovers : Bool

unfoldable pub large_round :
    LargeEnv → (ℕ → LargeTurn) → List ℕ → LargeCluster → Course LargeCluster
unfolding large_periodic
large_round env turns [] c = Course.returns c
large_round env turns (i ∷ rest) c =
    let turn = turns i in
    large_periodic env i turn.chance turn.fails turn.recovers c then large_round env turns rest

-- One round after another for as long as the time is not over and no node was stopped.
unfoldable pub large_simulation :
    LargeEnv → List (ℕ → LargeTurn) → LargeCluster → Course LargeCluster
unfolding large_round
large_simulation env [] c = Course.returns c
large_simulation env (turns ∷ rest) c =
    if c.running
    then large_round env turns (map (λ n. n.index) c.nodes) c
    then large_simulation env rest
    else Course.returns c

-- shutdown, with what stopping each transport reports.
unfoldable pub large_shutdown : List ErrorCode → LargeCluster → LargeCluster
unfolding large_stop
large_shutdown [] c = record c { running = false }
large_shutdown (ec ∷ rest) c = large_shutdown rest (large_stop ec c).1
