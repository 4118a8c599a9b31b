-- ===== src/Manager/Setup.antt =====
-- What gossip_manager::init sets up.
use libgossip.Base.{
  ℕ, ◌≡◌, ◌≢◌, ◌⊎◌, Bool, Option, none, some, List, [], get_elem?, take, All, Bytes, pos,
}
use libgossip.Core.Members.{default_failure_timeout_ms, default_gossip_nodes, default_sync_nodes}
use libgossip.Core.State.{Core}
use libgossip.Manager.{choose_id, GossipConfig, Outcome, Transport, Created, Manager}
use libgossip.Net.{Serializer}
use libgossip.Net.Factory.{Creator, Factory}
use libgossip.Node.{NodeId, NodeStatus}

result : Bool × Manager → Outcome (Bool × Manager) → Bool × Manager
result r (Outcome.returns x) = x
result r Outcome.crashes = r

made_of : Created → Option Transport
made_of (Created.made t) = some t
made_of _ = none

-- The core of a new manager: this node by the id and the address of the configuration, no other
-- nodes, and the default parameters.
pub record IsFresh (config : GossipConfig) (fresh : NodeId) (c : Core) : Type 0 where
  pub id : c.self.id ≡ choose_id config.node_id fresh
  pub ip : c.self.ip ≡ config.bind_ip
  pub port : c.self.port ≡ pos config.gossip_port
  pub status : c.self.status ≡ NodeStatus.online
  pub nodes : c.nodes ≡ []
  pub failure_timeout : c.failure_timeout ≡ default_failure_timeout_ms
  pub gossip_nodes : c.gossip_nodes ≡ default_gossip_nodes
  pub sync_nodes : c.sync_nodes ≡ default_sync_nodes

-- The serializer is the one that the registry has for the name, or null if it has none.
abbrev pub IsOffered : Bytes → List (Bytes × Creator) → Option Serializer → Type 0
IsOffered name registry ser =
    (All (λ e. e.0 ≢ name) registry × (ser ≡ none))
    ⊎ ((k : ℕ) × (get_elem? registry k ≡ some (name, ser))
        × All (λ e. e.0 ≢ name) (take k registry))
