-- ===== src/Checks/Samples.antt =====
-- Small data for the runs: three nodes that node 9 knows, and a clock that moves three seconds
-- between any two readings.
use mathlib.Core.List.Perm
use libgossip.Base.{
  ℕ, ◌+◌, ◌*◌, ◌%◌, ◌^◌, ◌<◌, ◌≡◌, true, Option, none, some, List, [], ◌∷◌, arith, Bytes, pos,
}
use libgossip.Core.Members.{
  default_heartbeat_interval_ms, default_failure_timeout_ms, default_gossip_nodes,
  default_sync_nodes,
}
use libgossip.Core.State.{Core, Env, IsStd}
use libgossip.Node.{NodeId, blank_node, NodeStatus, MessageType, NodeView, GossipMessage}

abbrev pub id_of : ℕ → NodeId
id_of k = k ∷ 0 ∷ 0 ∷ 0 ∷ 0 ∷ 0 ∷ 0 ∷ 0 ∷ 0 ∷ 0 ∷ 0 ∷ 0 ∷ 0 ∷ 0 ∷ 0 ∷ 0 ∷ []

abbrev pub sample_node : ℕ → NodeStatus → NodeView
sample_node k st = record blank_node {
  id = id_of k;
  ip = b'h' ∷ [];
  port = pos (7000 + k);
  heartbeat = 5;
  status = st;
}

abbrev pub clock_3s : ℕ → ℕ
clock_3s k = k * 3000000000

-- A reader of one-digit numbers.
abbrev pub read_digit : Bytes → Option ℕ
read_digit (c ∷ []) = some (c % 10)
read_digit _ = none

abbrev pub sample_env : Env
sample_env = record { now = clock_3s; shuffle = λ k xs. xs; stoull = read_digit }

read_digit_bounded : (text : Bytes) (n : ℕ) → read_digit text ≡ some n → n < 2 ^ 64
read_digit_bounded [] n h = ground (arith, h)
read_digit_bounded (c ∷ []) n h = ground (arith, h)
read_digit_bounded (c ∷ d ∷ rest) n h = ground (arith, h)

pub sample_env-IsStd : IsStd sample_env
sample_env-IsStd = record {
  steady = λ j k h. omega (arith, h);
  shuffled = λ k xs. Perm.refl xs;
  bounded = read_digit_bounded;
}

abbrev pub sample_core : Core
sample_core = record {
  self = sample_node 9 NodeStatus.online;
  nodes =
      sample_node 1 NodeStatus.online
      ∷ sample_node 2 NodeStatus.joining
      ∷ sample_node 3 NodeStatus.online
      ∷ [];
  event_fn = true;
  heartbeat_interval = default_heartbeat_interval_ms;
  failure_timeout = default_failure_timeout_ms;
  gossip_nodes = default_gossip_nodes;
  sync_nodes = default_sync_nodes;
  sent_messages = 0;
  received_messages = 0;
  last_tick_duration = 0;
  reads = 1;
  draws = 0;
  trace = [];
}

abbrev pub sample_message : MessageType → ℕ → List NodeView → GossipMessage
sample_message type k entries = record {
  sender = id_of k;
  type = type;
  timestamp = 8;
  entries = entries;
}
