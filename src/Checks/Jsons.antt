-- ===== src/Checks/Jsons.antt =====
-- Runs of the JSON serializer over a small library.
use libgossip.Base.{
  ℕ, ◌≡◌, refl, none, some, [], ◌∷◌, arith, get_elem?, find_index, All, bytes_discrete,
}
use libgossip.Checks.Samples.{id_of, sample_node, sample_env, sample_core, sample_message}
use libgossip.Checks.SmallJson.{
  small_json, small_json-IsDocumented, read_hex, read_hex-ReadsHex, Json,
}
use libgossip.Core.Handle.{handle_message}
use libgossip.Core.State.{tick_clock, Core}
use libgossip.Ids.RoundTrip.{IsByte}
use libgossip.Net.{SerializationError}
use libgossip.Net.Frame.{make_packet, receive_bytes}
use libgossip.Net.Json.{message_to_json, serialize, deserialize, json_serializer}
use libgossip.Net.Json.Empty.{empty_ping, empty_packet_wakes}
use libgossip.Net.Json.RoundTrip.{untimed_message, deserialize-serialize, IsSent}
use libgossip.Node.{blank_node, NodeStatus, MessageType, NodeView, GossipMessage}

abbrev pub told : GossipMessage
told = sample_message MessageType.ping 2 (sample_node 3 NodeStatus.suspect ∷ [])

abbrev pub told_value : Json
told_value = message_to_json (small_json none) read_hex told

pub bytes_of_id : (k : ℕ) → IsByte k → All IsByte (id_of k)
bytes_of_id k h = ground (arith, h)

pub told-IsSent : IsSent told
told-IsSent = record {
  sized = refl;
  bytes = bytes_of_id 2 (omega arith);
  type = tt;
  timestamp = omega arith;
  nodes = (
    record {
      sized = refl;
      bytes = bytes_of_id 3 (omega arith);
      port = omega arith;
      config_epoch = omega arith;
      heartbeat = omega arith;
      version = omega arith;
      status = tt;
      suspicion_count = omega arith;
    },
    tt,
  );
}

deserialize-serialize_example :
    let lib = small_json (some told_value) in
    (serialize lib read_hex told ≡ (SerializationError.success, b'{' ∷ b'}' ∷ []))
    × (deserialize lib read_hex (b'{' ∷ b'}' ∷ [])
        ≡ (SerializationError.success, untimed_message told))
unfolding message_to_json small_json
deserialize-serialize_example =
    deserialize-serialize (small_json (some told_value)) read_hex
      (small_json-IsDocumented (some told_value)) read_hex-ReadsHex told told-IsSent refl refl

-- A contact that meet_node has recorded: it has no id yet.
abbrev zero_contact : NodeView
zero_contact = record blank_node { ip = b'h' ∷ []; status = NodeStatus.joining }

abbrev waiting_core : Core
waiting_core = record sample_core { nodes = sample_node 1 NodeStatus.online ∷ zero_contact ∷ [] }

empty_packet_wakes_example :
    (receive_bytes sample_env
        (json_serializer (small_json none) read_hex)
        (make_packet [])
        waiting_core
      ≡ handle_message sample_env empty_ping (sample_env.now 1) (tick_clock waiting_core))
    × (n : NodeView) × (get_elem?
          (receive_bytes sample_env
            (json_serializer (small_json none) read_hex)
            (make_packet [])
            waiting_core).nodes
          1
        ≡ some n)
    × (n.status ≡ NodeStatus.online)
    × (n.id ≡ zero_contact.id)
unfolding find_index bytes_discrete
empty_packet_wakes_example =
    empty_packet_wakes (small_json none) read_hex sample_env waiting_core refl refl refl
