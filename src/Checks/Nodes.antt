-- ===== src/Checks/Nodes.antt =====
-- Runs of src/core/gossip_core.cpp: the two comparisons and update_node.
use libgossip.Base.{
  ◌≡◌, refl, false, some, [], ◌∷◌, arith, ℕ_discrete, get_elem?, find_index, bytes_discrete,
}
use libgossip.Base.Map.{dictionary_discrete}
use libgossip.Checks.Samples.{sample_node, sample_core}
use libgossip.Core.State.{notify, Effect}
use libgossip.Core.Update.{merge, changed, merge_at, update_node}
use libgossip.Core.Update.Laws.{get_elem?-update_node}
use libgossip.Core.Update.Refinement.{table_of, learn_in, update_node-learn_in, update_node_comm}
use libgossip.Node.{status_discrete, can_replace, NodeStatus, NodeView}

abbrev fresh : NodeView
fresh = record (sample_node 1 NodeStatus.suspect) { heartbeat = 6 }

get_elem?-update_node_example :
    (n : NodeView) × (get_elem?
        (update_node fresh 7 sample_core).0.nodes
        (update_node fresh 7 sample_core).1
      ≡ some n)
    × (n.id ≡ fresh.id)
    × (can_replace fresh n ≡ false)
    × (merge fresh 7 n ≡ n)
get_elem?-update_node_example = get_elem?-update_node fresh 7 sample_core

-- The fresher entry is taken over, with one event for the status.
update_test :
    (update_node fresh 7 sample_core).0.trace
    ≡ Effect.event (record fresh { seen_time = 7 }) NodeStatus.online ∷ []
unfolding update_node find_index merge_at merge changed can_replace notify bytes_discrete
    status_discrete dictionary_discrete ℕ_discrete
update_test = refl

update_node-learn_in_example :
    table_of (update_node (sample_node 2 NodeStatus.online) 7 sample_core).0.nodes
    ≡ learn_in (sample_node 2 NodeStatus.online) 7 (table_of sample_core.nodes)
update_node-learn_in_example = update_node-learn_in (sample_node 2 NodeStatus.online) 7 sample_core

update_node_comm_example :
    let first = sample_node 2 NodeStatus.online in
    let second = sample_node 4 NodeStatus.failed in
    table_of (update_node first 7 (update_node second 8 sample_core).0).0.nodes
    ≡ table_of (update_node second 8 (update_node first 7 sample_core).0).0.nodes
update_node_comm_example =
    update_node_comm (sample_node 2 NodeStatus.online) (sample_node 4 NodeStatus.failed) 7 8
      sample_core (λ e. ground (arith, e))
