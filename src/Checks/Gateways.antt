-- ===== src/Checks/Gateways.antt =====
-- Runs of the C interface of serializers and transports.
use libgossip.Base.{◌≡◌, refl, true, false, none, some, [], ◌∷◌, map, arith}
use libgossip.CInterface.{to_cpp_node_id, to_c_node_id, to_c_node_view, CNodeView, CMessage}
use libgossip.CInterface.Memory.{c_message, Memory}
use libgossip.CInterface.Memory.Callbacks.{Shows}
use libgossip.CInterface.Net.{
  guarded_entries, gossip_serializer_serialize, gossip_serializer_deserialize,
  gossip_transport_send_message, gossip_transport_set_serializer, CTransport,
}
use libgossip.CInterface.Net.RoundTrip.{gossip_serializer_deserialize-serialize}
use libgossip.CInterface.Net.Serializers.{gossip_transport_send_message-receive_bytes}
use libgossip.Checks.Interfaces.{empty_memory, always}
use libgossip.Checks.Jsons.{told, told_value, bytes_of_id, told-IsSent}
use libgossip.Checks.Samples.{sample_node, sample_env, sample_core}
use libgossip.Checks.SmallJson.{
  small_json, small_json-IsDocumented, read_hex, read_hex-ReadsHex, Json,
}
use libgossip.Core.Handle.{handle_message}
use libgossip.Core.State.{tick_clock}
use libgossip.Manager.{TransportType}
use libgossip.Net.{ErrorCode}
use libgossip.Net.Frame.{make_packet, receive_bytes}
use libgossip.Net.Json.{message_to_json, json_serializer}
use libgossip.Net.Json.Library.{JsonLibrary}
use libgossip.Net.Json.RoundTrip.{untimed_message, IsSent}
use libgossip.Net.Send.{Answer}
use libgossip.Node.{NodeStatus, GossipMessage}
use libgossip.Node.Codes.{type_of_code}

abbrev known_json : JsonLibrary Json
known_json = small_json (some told_value)

-- The C message of `told`.
abbrev told_c : CMessage
told_c = c_message told (some (map to_c_node_view told.entries)) 1

abbrev blank_c : CMessage
blank_c = record { sender = []; type = 0; timestamp = 0; entries = none; entries_count = 0 }

gossip_serializer_deserialize-serialize_example :
    let json = json_serializer known_json read_hex in
    (mem1 mem2 : Memory) × (c' : CMessage) × (gossip_serializer_serialize always
        (some json)
        (some told_c)
        true
        true
        empty_memory
      ≡ some (
        ErrorCode.success,
        some (record { block = some (b'{' ∷ b'}' ∷ []); data_size = 2 }),
        mem1,
      ))
    × (gossip_serializer_deserialize always
          (some json)
          (some (b'{' ∷ b'}' ∷ []))
          2
          (some blank_c)
          mem1
        ≡ some (ErrorCode.success, some c', mem2))
    × Shows (untimed_message told) c'
unfolding message_to_json small_json guarded_entries to_c_node_id type_of_code to_c_node_view
gossip_serializer_deserialize-serialize_example =
    gossip_serializer_deserialize-serialize known_json read_hex
      (small_json-IsDocumented (some told_value)) read_hex-ReadsHex always told_c blank_c
      empty_memory (λ k. refl) refl told-IsSent refl refl

abbrev sample_target : CNodeView
sample_target = to_c_node_view (sample_node 1 NodeStatus.online)

abbrev bare_transport : CTransport
bare_transport = record { type = TransportType.tcp; socket = 1; serializer = none; core = false }

-- `told` without its entries.
abbrev bare : GossipMessage
bare = record told { entries = [] }

abbrev bare_json : JsonLibrary Json
bare_json = small_json (some (message_to_json (small_json none) read_hex bare))

bare-IsSent : IsSent bare
bare-IsSent = record {
  sized = refl;
  bytes = bytes_of_id 2 (omega arith);
  type = tt;
  timestamp = omega arith;
  nodes = tt;
}

gossip_transport_send_message-receive_bytes_example :
    let json = json_serializer bare_json read_hex in
    (gossip_transport_send_message Answer.connected
        (some 7)
        (gossip_transport_set_serializer json
          (some bare_transport)
          (some (json_serializer known_json read_hex)))
        (some told_c)
        (some sample_target)
      ≡ (ErrorCode.success, make_packet (b'{' ∷ b'}' ∷ []) ∷ []))
    × (receive_bytes sample_env json (make_packet (b'{' ∷ b'}' ∷ [])) sample_core
        ≡ handle_message sample_env bare (sample_env.now 1) (tick_clock sample_core))
unfolding message_to_json small_json to_c_node_id type_of_code to_c_node_view to_cpp_node_id
    make_packet
gossip_transport_send_message-receive_bytes_example =
    gossip_transport_send_message-receive_bytes bare_json read_hex
      (small_json-IsDocumented (some (message_to_json (small_json none) read_hex bare)))
      read_hex-ReadsHex sample_env sample_core bare_transport (json_serializer known_json read_hex)
      told_c sample_target 7 bare-IsSent refl refl (omega arith) (omega arith)
