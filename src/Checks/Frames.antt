-- ===== src/Checks/Frames.antt =====
-- Runs of the packet loop of the transports.
use libgossip.Base.{zero, suc, ◌≡◌, refl, List, [], ◌∷◌, ◌++◌, arith, take, All, Bytes}
use libgossip.Checks.Samples.{sample_env, sample_core, sample_message}
use libgossip.Net.{SerializationError, Serializer}
use libgossip.Net.Frame.{make_packet, split_packets, split_all, receive_bytes}
use libgossip.Net.Frame.Delivery.{handle_all, receive_bytes-packets}
use libgossip.Net.Frame.Fuel.{split_all_enough_fuel}
use libgossip.Net.Frame.RoundTrip.{packets, IsShort, split_all_cut}
use libgossip.Node.{MessageType, GossipMessage}

abbrev bodies : List Bytes
bodies = (1 ∷ 2 ∷ 3 ∷ []) ∷ [] ∷ (4 ∷ []) ∷ []

bodies-IsShort : All IsShort bodies
bodies-IsShort = (omega arith, (omega arith, (omega arith, tt)))

split_all_cut_example : split_all (packets bodies ++ take 6 (make_packet (5 ∷ 6 ∷ 7 ∷ []))) ≡ bodies
split_all_cut_example =
    split_all_cut bodies (5 ∷ 6 ∷ 7 ∷ []) 6 bodies-IsShort (omega arith) (omega arith)

-- A format with one byte, the type of the message: 0 is a ping of node 2, 1 a leave.
abbrev read_byte : Bytes → SerializationError × GossipMessage
read_byte (zero ∷ []) = (SerializationError.success, sample_message MessageType.ping 2 [])
read_byte (suc zero ∷ []) = (SerializationError.success, sample_message MessageType.leave 2 [])
read_byte _ = (SerializationError.deserialization_failed, sample_message (MessageType.other 9) 0 [])

abbrev byte_serializer : Serializer
byte_serializer = record {
  serialize = λ m. (SerializationError.serialization_failed, []);
  deserialize = read_byte;
}

receive_bytes-packets_example :
    receive_bytes sample_env byte_serializer (packets ((0 ∷ []) ∷ (1 ∷ []) ∷ [])) sample_core
    ≡ handle_all sample_env
        (sample_message MessageType.ping 2 [] ∷ sample_message MessageType.leave 2 [] ∷ [])
        sample_core
receive_bytes-packets_example =
    receive_bytes-packets sample_env byte_serializer
      (sample_message MessageType.ping 2 [] ∷ sample_message MessageType.leave 2 [] ∷ [])
      ((0 ∷ []) ∷ (1 ∷ []) ∷ []) sample_core (omega arith, (omega arith, tt)) (refl, (refl, tt))

split_all_enough_fuel_example :
    split_packets 9 (0 ∷ 0 ∷ 0 ∷ 1 ∷ 7 ∷ []) ≡ split_all (0 ∷ 0 ∷ 0 ∷ 1 ∷ 7 ∷ [])
split_all_enough_fuel_example = split_all_enough_fuel (0 ∷ 0 ∷ 0 ∷ 1 ∷ 7 ∷ []) 9 (omega arith)
