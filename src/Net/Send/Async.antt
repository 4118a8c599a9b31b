-- ===== src/Net/Send/Async.antt =====
-- send_message_async of src/net/udp_transport.cpp and of src/net/tcp_transport.cpp.
use libgossip.Base.{
  ◌≡◌, refl, Bool, true, false, Option, none, some, List, [], ◌∷◌, if◌then◌else◌, Bytes,
}
use libgossip.Net.{to_error_code, SerializationError, ErrorCode, Serializer}
use libgossip.Net.Frame.{make_packet}
use libgossip.Net.Frame.RoundTrip.{packets}
use libgossip.Net.Send.{
  udp_write, when_serialized, send_serialized, udp_send_message, SendResult, Answer,
}
use libgossip.Node.{GossipMessage}

-- The calls of the callback, and the packets that the network took; or the exception of
-- asio::ip::make_address.
pub data AsyncResult : Type 0 where
  finished : List ErrorCode → List Bytes → AsyncResult
  thrown : AsyncResult

-- `if (callback) callback(code);`
abbrev pub call_back : Bool → ErrorCode → List ErrorCode
call_back has_callback code = if has_callback then code ∷ [] else []

unfoldable pub udp_write_async : (is_address sent has_callback : Bool) → Bytes → AsyncResult
unfolding make_packet
udp_write_async is_address sent has_callback body =
    if is_address
    then (if sent
        then AsyncResult.finished (call_back has_callback ErrorCode.success) (make_packet body ∷ [])
        else AsyncResult.finished (call_back has_callback ErrorCode.network_error) [])
    else AsyncResult.thrown

-- async_write sends all of the packet or fails.
unfoldable pub tcp_write_async : Answer → (sent has_callback : Bool) → Bytes → AsyncResult
unfolding make_packet
tcp_write_async Answer.no_address sent has_callback body = AsyncResult.thrown
tcp_write_async Answer.refused sent has_callback body =
    AsyncResult.finished (call_back has_callback ErrorCode.network_error) []
tcp_write_async Answer.connected sent has_callback body =
    if sent
    then AsyncResult.finished (call_back has_callback ErrorCode.success) (make_packet body ∷ [])
    else AsyncResult.finished (call_back has_callback ErrorCode.network_error) []

unfoldable pub when_serialized_async :
    (Bytes → AsyncResult) → Bool → SerializationError × Bytes → AsyncResult
unfolding to_error_code
when_serialized_async write has_callback (SerializationError.success, body) = write body
when_serialized_async write has_callback (se, body) =
    AsyncResult.finished (call_back has_callback (to_error_code se)) []

unfoldable pub send_serialized_async :
    (Bytes → AsyncResult) → Bool → Option Serializer → GossipMessage → AsyncResult
unfolding when_serialized_async
send_serialized_async write has_callback none msg =
    AsyncResult.finished (call_back has_callback ErrorCode.serialization_error) []
send_serialized_async write has_callback (some ser) msg =
    when_serialized_async write has_callback (ser.serialize msg)

unfoldable pub udp_send_message_async :
    (is_address sent has_callback : Bool) → Option Serializer → GossipMessage → AsyncResult
unfolding send_serialized_async udp_write_async
udp_send_message_async is_address sent has_callback ser msg =
    send_serialized_async (udp_write_async is_address sent has_callback) has_callback ser msg

unfoldable pub tcp_send_message_async :
    Answer → (sent has_callback : Bool) → Option Serializer → GossipMessage → AsyncResult
unfolding send_serialized_async tcp_write_async
tcp_send_message_async answer sent has_callback ser msg =
    send_serialized_async (tcp_write_async answer sent has_callback) has_callback ser msg

-- The same result, with its code passed to the callback instead of returned.
pub passed_on : Bool → SendResult → AsyncResult
passed_on has_callback (SendResult.reported code packets) =
    AsyncResult.finished (call_back has_callback code) packets
passed_on has_callback SendResult.thrown = AsyncResult.thrown

agrees_after :
    (write : Bytes → SendResult) (write_async : Bytes → AsyncResult) (has_callback : Bool)
    (r : SerializationError × Bytes)
    → ((body : Bytes) → write_async body ≡ passed_on has_callback (write body))
    → when_serialized_async write_async has_callback r
      ≡ passed_on has_callback (when_serialized write r)
unfolding passed_on when_serialized_async when_serialized
agrees_after w a has_callback (SerializationError.success, body) h = h body
agrees_after w a has_callback (SerializationError.serialization_failed, body) h = refl
agrees_after w a has_callback (SerializationError.deserialization_failed, body) h = refl
agrees_after w a has_callback (SerializationError.invalid_input, body) h = refl
agrees_after w a has_callback (SerializationError.unsupported_format, body) h = refl
agrees_after w a has_callback (SerializationError.other n, body) h = refl

agrees :
    (write : Bytes → SendResult) (write_async : Bytes → AsyncResult) (has_callback : Bool)
    (ser : Option Serializer) (msg : GossipMessage)
    → ((body : Bytes) → write_async body ≡ passed_on has_callback (write body))
    → send_serialized_async write_async has_callback ser msg
      ≡ passed_on has_callback (send_serialized write ser msg)
unfolding passed_on send_serialized_async send_serialized
agrees write write_async has_callback none msg h = refl
agrees write write_async has_callback (some ser) msg h =
    agrees_after write write_async has_callback (ser.serialize msg) h

udp_agrees :
    (ok sent has_callback : Bool) (body : Bytes)
    → udp_write_async ok sent has_callback body ≡ passed_on has_callback (udp_write ok sent body)
unfolding udp_write_async passed_on udp_write
udp_agrees true true has_callback body = refl
udp_agrees true false has_callback body = refl
udp_agrees false sent has_callback body = refl

-- In the UDP transport, send_message_async does what send_message does under the same conditions of
-- the network, with its code passed to the callback, once, if there is a callback, and not
-- returned; it throws when send_message does.
udp_send_message_async_lem :
    (ok sent has_callback : Bool) (ser : Option Serializer) (msg : GossipMessage)
    → udp_send_message_async ok sent has_callback ser msg
      ≡ passed_on has_callback (udp_send_message ok sent ser msg)
unfolding udp_send_message_async udp_send_message
udp_send_message_async_lem ok sent has_callback ser msg =
    agrees (udp_write ok sent) (udp_write_async ok sent has_callback) has_callback ser msg
      (udp_agrees ok sent has_callback)
