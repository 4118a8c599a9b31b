-- ===== src/Node.antt =====
-- include/core/gossip_core.hpp: the data that nodes exchange, and the two comparisons of
-- src/core/gossip_core.cpp.
pub mod Order
pub mod Equality
pub mod Codes
use libgossip.Base.{
  ℕ, ℤ, pos, Bytes, Bool, true, false, List, [], ◌∷◌, ltb, if◌then◌else◌, ℕ_discrete,
}
use libgossip.Base.Map.{Dictionary}

-- 16 bytes.
abbrev pub NodeId : Type 0
NodeId = List ℕ

-- `other n` is an integer outside the enumeration, which a cast of foreign data can give.
pub data NodeStatus : Type 0 where
  unknown joining online suspect failed : NodeStatus
  other : ℕ → NodeStatus

pub data MessageType : Type 0 where
  ping pong meet join leave update : MessageType
  other : ℕ → MessageType

-- Times are counts of the steady clock, in nanoseconds.
pub record NodeView : Type 0 where
  pub id : NodeId
  pub ip : Bytes
  pub port : ℤ
  pub config_epoch : ℕ
  pub heartbeat : ℕ
  pub version : ℕ
  pub seen_time : ℕ
  pub status : NodeStatus
  pub role : Bytes
  pub region : Bytes
  pub metadata : Dictionary
  pub suspicion_count : ℤ
  pub last_suspected : ℕ

-- `node_view{}`
abbrev pub blank_node : NodeView
blank_node = record {
  id = 0 ∷ 0 ∷ 0 ∷ 0 ∷ 0 ∷ 0 ∷ 0 ∷ 0 ∷ 0 ∷ 0 ∷ 0 ∷ 0 ∷ 0 ∷ 0 ∷ 0 ∷ 0 ∷ [];
  ip = [];
  port = pos 0;
  config_epoch = 0;
  heartbeat = 0;
  version = 0;
  seen_time = 0;
  status = NodeStatus.unknown;
  role = [];
  region = [];
  metadata = [];
  suspicion_count = pos 0;
  last_suspected = 0;
}

pub record GossipMessage : Type 0 where
  pub sender : NodeId
  pub type : MessageType
  pub timestamp : ℕ
  pub entries : List NodeView

unfoldable pub status_discrete : Discrete NodeStatus
unfolding ℕ_discrete
status_discrete = hlevel ℕ_discrete

unfoldable pub type_discrete : Discrete MessageType
unfolding ℕ_discrete
type_discrete = hlevel ℕ_discrete

unfoldable pub newer_than : NodeView → NodeView → Bool
newer_than a b =
    if ltb b.heartbeat a.heartbeat
    then true
    else if ltb a.heartbeat b.heartbeat
    then false
    else ltb b.config_epoch a.config_epoch

unfoldable pub can_replace : NodeView → NodeView → Bool
can_replace a b =
    if ltb b.config_epoch a.config_epoch
    then true
    else if ltb a.config_epoch b.config_epoch
    then false
    else ltb b.heartbeat a.heartbeat
