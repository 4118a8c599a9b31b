-- ===== src/Checks/Managers.antt =====
-- Runs of gossip_manager, and of the comparison of messages.
use libgossip.Base.{◌≡◌, refl, true, false, none, some, [], ◌∷◌, holds, bytes_discrete}
use libgossip.Checks.Samples.{id_of, clock_3s, sample_env, sample_message}
use libgossip.Core.Members.{
  default_heartbeat_interval_ms, default_failure_timeout_ms, default_gossip_nodes,
  default_sync_nodes, meet,
}
use libgossip.Core.State.{Core}
use libgossip.Manager.{
  self_view, start, stop, on_send_message, sends_end, performed, on_core, meet_node, GossipConfig,
  Outcome, Transport, Network, Manager,
}
use libgossip.Manager.Phases.{answer, IsAnswered, answer-IsAnswered, start_stopped, Phase, Request}
use libgossip.Net.{SerializationError, ErrorCode, Serializer}
use libgossip.Node.{NodeStatus, MessageType}
use libgossip.Redis.Words.{loopback}

abbrev sample_config : GossipConfig
sample_config = record {
  node_id = [];
  bind_ip = b'h' ∷ [];
  gossip_port = 7946;
  heartbeat_interval_ms = 50;
  failure_timeout_ms = 9000;
  gossip_nodes = 5;
  sync_nodes = 5;
  use_tcp = false;
  serializer = b'j' ∷ [];
  role = b'm' ∷ [];
  region = [];
}

abbrev sample_network : Network
sample_network = record {
  construct = λ type host port. some 1;
  start_transport = λ t. ErrorCode.success;
  is_address = λ text. holds (bytes_discrete text loopback);
  registry = record { registry = []; defaults_initialized = true };
  json = none;
}

abbrev wire : Transport
wire = record { socket = 1; serializer = none }

abbrev unused : Manager
unused = record {
  config = sample_config;
  self_id = id_of 0;
  gossip_core = none;
  transport = none;
  initialized = false;
  running = false;
  event_callback = false;
  event_callback_set = false;
}

abbrev first_core : Core
first_core = record {
  self = record (self_view (id_of 9) sample_config) {
    status = NodeStatus.online;
    seen_time = clock_3s 0;
  };
  nodes = [];
  event_fn = true;
  heartbeat_interval = default_heartbeat_interval_ms;
  failure_timeout = default_failure_timeout_ms;
  gossip_nodes = default_gossip_nodes;
  sync_nodes = default_sync_nodes;
  sent_messages = 0;
  received_messages = 0;
  last_tick_duration = 0;
  reads = 1;
  draws = 0;
  trace = [];
}

abbrev set_up : Manager
set_up = record unused {
  self_id = id_of 9;
  gossip_core = some first_core;
  transport = some wire;
  initialized = true;
}

abbrev at_work : Manager
at_work = record set_up { running = true }

-- A serializer that writes every message as no bytes.
abbrev mute_serializer : Serializer
mute_serializer = record {
  serialize = λ msg. (SerializationError.success, []);
  deserialize =
      λ bytes. (SerializationError.deserialization_failed, sample_message MessageType.ping 0 []);
}

abbrev speaking : Manager
speaking = record at_work {
  transport = some (record { socket = 1; serializer = some mute_serializer });
}

-- Meeting a node by a name and not by an address ends the program.
meets_name : meet_node sample_env sample_network (b'h' ∷ []) 7000 speaking ≡ Outcome.crashes
unfolding meet_node on_core performed sends_end on_send_message meet bytes_discrete
meets_name = refl

answer-IsAnswered_example :
    IsAnswered sample_env sample_network
      (Request.meets (b'h' ∷ []) 7000)
      Phase.active
      speaking
      (answer sample_env sample_network (Request.meets (b'h' ∷ []) 7000) speaking)
answer-IsAnswered_example =
    answer-IsAnswered sample_env sample_network (Request.meets (b'h' ∷ []) 7000) Phase.active
      speaking (refl, refl, (first_core, refl), (_, refl))

start_stopped_example : start sample_network (stop at_work) ≡ Outcome.crashes
start_stopped_example =
    start_stopped sample_network at_work (refl, refl, (first_core, refl), (wire, refl))
