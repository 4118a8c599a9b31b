-- ===== src/Checks/Clusters.antt =====
-- Two nodes: node 0 meets node 1, and node 1 handles the message and answers.
use libgossip.Base.{
  ℕ, ◌<◌, ◌≡◌, refl, subst, inl, inr, some, [], arith, get_elem?, All, bytes_discrete,
}
use libgossip.Checks.Samples.{sample_node, sample_env, sample_env-IsStd, sample_core}
use libgossip.Cluster.{Cluster, replace, Names, NotNewer, Fits, Turn, Reach}
use libgossip.Cluster.Current.{HasCurrent}
use libgossip.Cluster.Handles.{Honest}
use libgossip.Cluster.Owners.{Reach-NotNewer, hears_owner}
use libgossip.Cluster.Records.{NotAhead}
use libgossip.Cluster.Stays.{current_stays}
use libgossip.Core.Handle.{handle_message}
use libgossip.Core.Members.{meet}
use libgossip.Core.Run.{step, Call}
use libgossip.Core.State.{Core, Env}
use libgossip.Core.Tick.{own_message}
use libgossip.Core.Update.{update_node}
use libgossip.Node.{NodeStatus, MessageType, NodeView, GossipMessage}

abbrev lone : ℕ → Core
lone k = record sample_core { self = sample_node k NodeStatus.online; nodes = []; trace = [] }

abbrev same_env : ℕ → Env
same_env i = sample_env

abbrev met_pair : Cluster
met_pair = replace lone 0 (step sample_env (Call.meets (sample_node 1 NodeStatus.online)) (lone 0))

abbrev meet_sent : GossipMessage
meet_sent = own_message MessageType.meet [] (lone 0)

abbrev heard_pair : Cluster
heard_pair = replace met_pair 1 (step sample_env (Call.handles meet_sent 7) (met_pair 1))

lone_apart : (i j : ℕ) → i < 2 → j < 2 → Names (lone i).self (lone j) → i ≡ j
lone_apart i j a b (inl e) = ground arith
lone_apart i j a b (inr (e, f)) = ground arith

lone-Reach : Reach 2 same_env lone
lone-Reach =
    Reach.begins (record { nodes = λ i lt. refl; trace = λ i lt. refl; apart = lone_apart })

contact_fair : NotNewer 2 lone (sample_node 1 NodeStatus.online)
contact_fair j lt names =
    subst (λ k. Fits (lone 1).self (lone k)) (lone_apart 1 j (omega arith) lt names)
      (record {
        id = refl;
        ip = refl;
        port = refl;
        heartbeat = omega arith;
        config_epoch = omega arith;
      })

met_pair-Reach : Reach 2 same_env met_pair
met_pair-Reach =
    Reach.goes_on lone-Reach
      (Turn.takes 0 (Call.meets (sample_node 1 NodeStatus.online)) (omega arith) contact_fair)

heard_pair-Reach : Reach 2 same_env heard_pair
unfolding step meet bytes_discrete
heard_pair-Reach =
    Reach.goes_on met_pair-Reach
      (Turn.takes 1 (Call.handles meet_sent 7) (omega arith) (0, 0, _, omega arith, refl))

Reach-NotNewer_example :
    All (NotNewer 2 heard_pair) (heard_pair 1).nodes
    × All (Honest (NotNewer 2 heard_pair) (NotAhead 2 heard_pair)) (heard_pair 1).trace
Reach-NotNewer_example =
    Reach-NotNewer 2 same_env (λ i. sample_env-IsStd) heard_pair-Reach 1 (omega arith)

hears_owner_example :
    let r = update_node (heard_pair 1).self 9 (heard_pair 0) in
    (n : NodeView) × (get_elem? r.0.nodes r.1 ≡ some n)
    × (n.id ≡ (heard_pair 1).self.id)
    × (n.heartbeat ≡ (heard_pair 1).self.heartbeat)
    × (n.config_epoch ≡ (heard_pair 1).self.config_epoch)
hears_owner_example =
    hears_owner 2 same_env (λ i. sample_env-IsStd) heard_pair-Reach 0 1 9 (omega arith)
      (omega arith)

abbrev recorded_contact : NodeView
recorded_contact = record (sample_node 1 NodeStatus.joining) { seen_time = 3000000000 }

current_stays_example :
    HasCurrent (met_pair 1) 0 (handle_message sample_env meet_sent 7 (met_pair 0)).nodes
unfolding step meet bytes_discrete
current_stays_example =
    current_stays 2 same_env (λ i. sample_env-IsStd) met_pair-Reach 0 1 0 7 meet_sent
      {n = recorded_contact} (omega arith) (omega arith) (0, 0, _, omega arith, refl) refl
      (refl, refl, refl)
