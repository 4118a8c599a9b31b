-- ===== src/Checks/Members.antt =====
-- Runs of the other operations of gossip_core.
use mathlib.Core.List.{Mem}
use libgossip.Base.{
  ◌+◌, ◌≤◌, ◌≡◌, refl, ◌↔◌, ◌⊎◌, false, some, List, [], ◌∷◌, arith, ℕ_discrete, All, Bytes,
  bytes_discrete,
}
use libgossip.Base.Map.{Dictionary, lookup}
use libgossip.Checks.Samples.{id_of, sample_node, sample_env, sample_core, sample_message}
use libgossip.Core.Handle.Statuses.{IsRecorded}
use libgossip.Core.Members.{cleanup_expired, config_epoch_key, update_self_metadata}
use libgossip.Core.Members.Cleanup.{mem-cleanup_expired}
use libgossip.Core.Members.Metadata.{IsMap, first_of_two, asked_epoch, update_self_metadata_stuck}
use libgossip.Core.Members.Spreading.{update_self_metadata_reaches}
use libgossip.Core.Run.{run, Call}
use libgossip.Core.Run.Invariant.{run-IsRecorded}
use libgossip.Core.State.{elapsed_ms, Core}
use libgossip.Core.Update.{merge, update_node}
use libgossip.Core.Update.Refinement.{table_of}
use libgossip.Node.{can_replace, NodeStatus, MessageType, NodeView}

abbrev guest : NodeView
guest = sample_node 6 NodeStatus.unknown

mem-cleanup_expired_example :
    Mem (sample_node 1 NodeStatus.online) (cleanup_expired sample_env 2000 sample_core).nodes ↔ (
      Mem (sample_node 1 NodeStatus.online) sample_core.nodes
      × ((NodeStatus.online ≡ NodeStatus.online) ⊎ (elapsed_ms (sample_env.now 1) 0 ≤ 2000)))
mem-cleanup_expired_example = mem-cleanup_expired sample_env 2000 sample_core

-- The epoch is raised to 7 together with a key of the program's user.
abbrev raised_epoch : Dictionary
raised_epoch = (config_epoch_key, b'7' ∷ []) ∷ (b'k' ∷ [], b'v' ∷ []) ∷ []

raised_epoch-IsMap : IsMap raised_epoch
unfolding lookup bytes_discrete ℕ_discrete
raised_epoch-IsMap = (refl, (refl, tt))

abbrev epoch_9 : Core
epoch_9 = record sample_core { self = record sample_core.self { config_epoch = 9 } }

update_self_metadata_stuck_example :
    (can_replace (update_self_metadata sample_env raised_epoch epoch_9).self epoch_9.self ≡ false)
    × (merge (update_self_metadata sample_env raised_epoch epoch_9).self 50 epoch_9.self
        ≡ epoch_9.self)
unfolding asked_epoch lookup bytes_discrete ℕ_discrete
update_self_metadata_stuck_example =
    update_self_metadata_stuck sample_env raised_epoch epoch_9 50 raised_epoch-IsMap (ground arith)

-- A history with a greeting, a tick, a message and a departure.
abbrev history : List Call
history =
    Call.meets guest
    ∷ Call.ticks
    ∷ Call.handles (sample_message MessageType.ping 2 (sample_node 4 NodeStatus.unknown ∷ [])) 50
    ∷ Call.leaves (id_of 2)
    ∷ Call.cleans 2000
    ∷ []

run-IsRecorded_example : All IsRecorded (run sample_env history sample_core).nodes
run-IsRecorded_example =
    run-IsRecorded sample_env history sample_core ((λ e. cc), ((λ e. cc), ((λ e. cc), tt)))

-- Node 4 has recorded node 9 as it was.
abbrev neighbour : Core
neighbour = record sample_core {
  self = sample_node 4 NodeStatus.online;
  nodes = sample_node 1 NodeStatus.online ∷ sample_core.self ∷ [];
}

update_self_metadata_reaches_example :
    let new = (update_self_metadata sample_env raised_epoch sample_core).self in
    (n : NodeView) × (table_of (update_node new 50 neighbour).0.nodes sample_core.self.id ≡ some n)
    × ((j : Bytes)
        → lookup j n.metadata
          ≡ first_of_two (lookup j raised_epoch) (lookup j sample_core.self.metadata))
    × (n.heartbeat ≡ sample_core.self.heartbeat + 1)
    × (n.seen_time ≡ 50)
unfolding asked_epoch lookup bytes_discrete ℕ_discrete can_replace
update_self_metadata_reaches_example =
    update_self_metadata_reaches sample_env raised_epoch sample_core neighbour 50 raised_epoch-IsMap
      (omega arith) (omega arith) refl refl
