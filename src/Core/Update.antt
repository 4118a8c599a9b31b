-- ===== src/Core/Update.antt =====
-- gossip_core::update_node (src/core/gossip_core.cpp): what is learnt of a node from an entry.
pub mod Merge
pub mod Laws
pub mod Refinement
use libgossip.Base.{
  ℕ, Bool, not, ◌&&◌, ◌||◌, Option, none, some, [], ◌∷◌, ◌++◌, length, get_elem?, modify,
  find_index, ◌==◌, if◌then◌else◌, holds,
}
use libgossip.Base.Map.{dictionary_discrete}
use libgossip.Core.State.{same_id, notify, Core}
use libgossip.Node.{NodeId, status_discrete, can_replace, NodeStatus, NodeView}

abbrev pub has_id : NodeId → NodeView → Bool
has_id id n = same_id n.id id

-- "Avoid UNKNOWN": a node is never recorded as unknown.
abbrev pub known_status : NodeStatus → NodeStatus
known_status NodeStatus.unknown = NodeStatus.joining
known_status st = st

-- The node that is recorded for an entry of an id not seen before.
abbrev pub admit : NodeView → ℕ → NodeView
admit remote seen = record remote { seen_time = seen; status = known_status remote.status }

-- What the assignments to `*it` leave there.
unfoldable pub merge : NodeView → ℕ → NodeView → NodeView
merge remote seen it =
    if can_replace remote it
    then admit remote seen
    else if remote.heartbeat == it.heartbeat && remote.config_epoch == it.config_epoch
    then record it { metadata = remote.metadata }
    else it

-- `status_changed || metadata_changed`
unfoldable pub changed : NodeView → NodeView → Bool
changed before after =
    not (holds (status_discrete before.status after.status))
    || not (holds (dictionary_discrete before.metadata after.metadata))

unfoldable pub merge_at : ℕ → NodeView → ℕ → NodeView → Core → Core
unfolding merge changed notify
merge_at i remote seen it s =
    let after = merge remote seen it in
    let written = record s { nodes = modify i (merge remote seen) s.nodes } in
    if changed it after then notify after it.status written else written

update_at : Option ℕ → NodeView → ℕ → Core → Core × ℕ
unfolding merge_at notify
update_at none remote seen s =
    let nv = admit remote seen in
    (notify nv NodeStatus.unknown (record s { nodes = s.nodes ++ nv ∷ [] }), length s.nodes)
update_at (some i) remote seen s = elim (get_elem? s.nodes i) [
  | none ↦ (s, i)
  | some it ↦ (merge_at i remote seen it s, i)
]

-- The new state, and the index of the node that the returned reference names.
unfoldable pub update_node : NodeView → ℕ → Core → Core × ℕ
unfolding update_at find_index
update_node remote seen s = update_at (find_index (has_id remote.id) s.nodes) remote seen s
