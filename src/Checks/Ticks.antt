-- ===== src/Checks/Ticks.antt =====
-- Runs of gossip_core::tick and tick_full_broadcast.
use libgossip.Base.{
  ◌≡◌, refl, some, List, arith, ℕ_discrete, get_elem?, keep_if, All2, bytes_discrete, pos,
}
use libgossip.Checks.Samples.{sample_node, sample_env, sample_env-IsStd, sample_core}
use libgossip.Core.State.{notify, send, select_random_peers, Effect, Core}
use libgossip.Core.State.Frame.{OnlyEvents}
use libgossip.Core.State.Peers.{IsSample}
use libgossip.Core.Tick.{
  ping, ping_all, detect_online, detect_suspect, detect_as, detect, detect_all, tick,
}
use libgossip.Core.Tick.Detect.{Judged}
use libgossip.Core.Tick.Pings.{Pings, tick-Pings}
use libgossip.Core.Tick.Rounds.{tick-Judged}
use libgossip.Core.Tick.Silence.{silent_node_fails, IsDoubted}
use libgossip.Node.{NodeStatus, NodeView}

tick-Judged_example : All2 Judged sample_core.nodes (tick sample_env sample_core).nodes
tick-Judged_example = tick-Judged sample_env sample_core

tick-Pings_example :
    (targets : List NodeView) × (middle : List Effect) × IsSample sample_core.gossip_nodes
      sample_core.self.id sample_core.nodes targets
    × Pings
        (record sample_core.self { seen_time = sample_env.now sample_core.reads })
        sample_core.nodes
        sample_core.sync_nodes
        targets
        sample_core.trace
        middle
    × OnlyEvents middle (tick sample_env sample_core).trace
tick-Pings_example = tick-Pings sample_env sample_core sample_env-IsStd

abbrev second : Core
second = tick sample_env sample_core

abbrev third : Core
third = tick sample_env second

abbrev fourth : Core
fourth = tick sample_env third

silent_node_fails_example :
    IsDoubted sample_env second 0 1
    × IsDoubted sample_env third 0 2
    × IsDoubted sample_env fourth 0 3
    × ((n' : NodeView) × (get_elem? (tick sample_env fourth).nodes 0 ≡ some n')
        × (n'.status ≡ NodeStatus.failed)
        × (n'.suspicion_count ≡ pos 4))
unfolding tick ping_all ping detect_all detect detect_as detect_online detect_suspect notify send
    select_random_peers bytes_discrete ℕ_discrete keep_if
silent_node_fails_example =
    silent_node_fails sample_env sample_env-IsStd sample_core 0
      {n = sample_node 1 NodeStatus.online} refl refl refl (ground arith) (ground arith)
      (ground arith) (ground arith)
