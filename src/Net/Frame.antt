-- ===== src/Net/Frame.antt =====
-- The length prefix of the transports, and the loop that takes packets apart: the same text in
-- src/net/udp_transport.cpp and src/net/tcp_transport.cpp.
pub mod RoundTrip
pub mod Fuel
pub mod Delivery
use libgossip.Base.{
  ℕ, suc, ◌+◌, ◌*◌, ◌/◌, ◌%◌, ◌^◌, List, [], ◌∷◌, length, take, drop, ltb, if◌then◌else◌, Bytes,
}
use libgossip.Core.Handle.{handle_message}
use libgossip.Core.Members.{size}
use libgossip.Core.State.{tick_clock, Core, Env}
use libgossip.Net.{SerializationError, Serializer}
use libgossip.Node.{GossipMessage}

-- `static_cast<uint32_t>(data.size())`
abbrev pub u32_mod : ℕ
u32_mod = 2 ^ 32

-- "Prepare message with 4-byte length prefix".
unfoldable pub make_packet : Bytes → Bytes
make_packet body =
    let size = length body % u32_mod in
    size / 2 ^ 24 % 256 ∷ size / 2 ^ 16 % 256 ∷ size / 2 ^ 8 % 256 ∷ size % 256 ∷ body

-- The four bytes of the prefix are disjoint after the shifts, so `|` adds.
unfoldable pub prefix_value : ℕ → ℕ → ℕ → ℕ → ℕ
prefix_value a b c d = a * 2 ^ 24 + b * 2 ^ 16 + c * 2 ^ 8 + d

-- The loop `while (offset + 4 <= data.size())` over what follows `offset`: the messages that it
-- hands on. The fuel bounds the rounds.
unfoldable pub split_packets : ℕ → Bytes → List Bytes
unfolding prefix_value
split_packets (suc fuel) (a ∷ b ∷ c ∷ d ∷ body) =
    let size = prefix_value a b c d in
    let later = take size body ∷ split_packets fuel (drop size body) in
    if ltb (length body) size then [] else later
split_packets _ _ = []

-- Each round takes four bytes at least, so as many rounds as bytes are enough.
unfoldable pub split_all : Bytes → List Bytes
unfolding split_packets
split_all bytes = split_packets (length bytes) bytes

deserialized : Env → SerializationError × GossipMessage → Core → Core
deserialized env (SerializationError.success, msg) s =
    handle_message env msg (env.now s.reads) (tick_clock s)
deserialized env (_, msg) s = s

-- The body of the loop, for one message: what cannot be read is skipped.
unfoldable pub deliver : Env → Serializer → Bytes → Core → Core
unfolding deserialized handle_message
deliver env ser bytes s = deserialized env (ser.deserialize bytes) s

unfoldable pub deliver_all : Env → Serializer → List Bytes → Core → Core
unfolding deliver
deliver_all env ser [] s = s
deliver_all env ser (m ∷ ms) s = deliver_all env ser ms (deliver env ser m s)

-- `handle_socket_receive`, with its serializer and its core set; `handle_receive` but for the call
-- of start_receive at its end.
unfoldable pub receive_bytes : Env → Serializer → Bytes → Core → Core
unfolding split_all deliver_all
receive_bytes env ser bytes s = deliver_all env ser (split_all bytes) s
