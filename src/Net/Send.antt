-- ===== src/Net/Send.antt =====
-- send_message of src/net/udp_transport.cpp and of src/net/tcp_transport.cpp.
pub mod Arrival
pub mod Async
use libgossip.Base.{ℕ, Bool, Option, none, some, List, [], ◌∷◌, take, if◌then◌else◌, Bytes}
use libgossip.Net.{to_error_code, SerializationError, ErrorCode, Serializer}
use libgossip.Net.Frame.{make_packet}
use libgossip.Node.{GossipMessage}

-- The code that a call reports together with what the network took; or the exception of
-- asio::ip::make_address for a target whose ip is no address.
pub data SendResult : Type 0 where
  reported : ErrorCode → List Bytes → SendResult
  thrown : SendResult

-- From "Prepare message" on: whether the ip is an address, and whether the socket sends the packet.
unfoldable pub udp_write : Bool → Bool → Bytes → SendResult
unfolding make_packet
udp_write is_address sent body =
    if is_address
    then (if sent
        then SendResult.reported ErrorCode.success (make_packet body ∷ [])
        else SendResult.reported ErrorCode.network_error [])
    else SendResult.thrown

-- What comes of a connection: make_address throws, connect fails, or it works.
pub data Answer : Type 0 where
  no_address refused connected : Answer

-- The same with a connection, found or made. A stream takes no byte, or the first `k` of the packet,
-- which may be fewer than there are: what is left is not sent, and the call reports success.
unfoldable pub tcp_write : Answer → (taken : Option ℕ) → Bytes → SendResult
unfolding make_packet
tcp_write Answer.no_address taken body = SendResult.thrown
tcp_write Answer.refused taken body = SendResult.reported ErrorCode.network_error []
tcp_write Answer.connected none body = SendResult.reported ErrorCode.network_error []
tcp_write Answer.connected (some k) body =
    SendResult.reported ErrorCode.success (take k (make_packet body) ∷ [])

-- `if (se != serialization_error::success) return to_error_code(se);`
unfoldable pub when_serialized : (Bytes → SendResult) → SerializationError × Bytes → SendResult
unfolding to_error_code
when_serialized write (SerializationError.success, body) = write body
when_serialized write (se, body) = SendResult.reported (to_error_code se) []

unfoldable pub send_serialized :
    (Bytes → SendResult) → Option Serializer → GossipMessage → SendResult
unfolding when_serialized
send_serialized write none msg = SendResult.reported ErrorCode.serialization_error []
send_serialized write (some ser) msg = when_serialized write (ser.serialize msg)

unfoldable pub udp_send_message :
    (is_address sent : Bool) → Option Serializer → GossipMessage → SendResult
unfolding send_serialized udp_write
udp_send_message is_address sent ser msg = send_serialized (udp_write is_address sent) ser msg

unfoldable pub tcp_send_message :
    Answer → (taken : Option ℕ) → Option Serializer → GossipMessage → SendResult
unfolding send_serialized tcp_write
tcp_send_message answer taken ser msg = send_serialized (tcp_write answer taken) ser msg
