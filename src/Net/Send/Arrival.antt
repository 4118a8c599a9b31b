-- ===== src/Net/Send/Arrival.antt =====
-- A message that is sent arrives.
use mathlib.Core.List.{append-nil}
use libgossip.Base.{
  ℕ, zero, suc, ◌≤◌, ◌≡◌, refl, sym, ap, ◌∙◌, true, some, [], ◌∷◌, arith, length, take, Bytes,
}
use libgossip.Core.Handle.{handle_message}
use libgossip.Core.State.{tick_clock, Core, Env}
use libgossip.Net.{SerializationError, ErrorCode, Serializer}
use libgossip.Net.Frame.{make_packet, receive_bytes}
use libgossip.Net.Frame.Delivery.{handle_all, receive_bytes-packets}
use libgossip.Net.Frame.RoundTrip.{packets, IsShort}
use libgossip.Net.Send.{
  udp_write, tcp_write, when_serialized, udp_send_message, tcp_send_message, SendResult, Answer,
}
use libgossip.Node.{GossipMessage}

pub written :
    (write : Bytes → SendResult) (r : SerializationError × Bytes) {body : Bytes}
    → r ≡ (SerializationError.success, body)
    → when_serialized write r ≡ write body
unfolding when_serialized
written write r e = ap (when_serialized write) e

pub arrives :
    (env : Env) (ser : Serializer) (msg : GossipMessage) (s : Core) (body : Bytes)
    → ser.deserialize body ≡ (SerializationError.success, msg)
    → IsShort body
    → receive_bytes env ser (make_packet body) s
      ≡ handle_message env msg (env.now s.reads) (tick_clock s)
unfolding packets handle_all
arrives env ser msg s body d short =
    ap (λ (q : Bytes). receive_bytes env ser q s) (sym (append-nil (make_packet body)))
    ∙ receive_bytes-packets env ser (msg ∷ []) (body ∷ []) s (short, tt) (d, tt)

pub take_all : (xs : Bytes) (k : ℕ) → length xs ≤ k → take k xs ≡ xs
take_all [] zero h = refl
take_all [] (suc k) h = refl
take_all (x ∷ xs) zero h = absurd (omega (arith, h))
take_all (x ∷ xs) (suc k) h = ap (◌∷◌ x) (take_all xs k (omega (arith, h)))

-- When a serializer writes a message as a body shorter than 2^32 bytes and reads the body as the
-- message, and the address is one, the connection works and the socket takes the whole packet, then
-- send_message of both transports reports success after one packet, the same for both, and a read of
-- exactly that packet comes to one call of handle_message with the message.
udp_send_message-receive_bytes :
    (env : Env) (ser : Serializer) (msg : GossipMessage) (s : Core) {body : Bytes} (k : ℕ)
    → ser.serialize msg ≡ (SerializationError.success, body)
    → ser.deserialize body ≡ (SerializationError.success, msg)
    → IsShort body
    → length (make_packet body) ≤ k
    → (packet : Bytes) × (udp_send_message true true (some ser) msg
        ≡ SendResult.reported ErrorCode.success (packet ∷ []))
      × (tcp_send_message Answer.connected (some k) (some ser) msg
          ≡ SendResult.reported ErrorCode.success (packet ∷ []))
      × (receive_bytes env ser packet s ≡ handle_message env msg (env.now s.reads) (tick_clock s))
unfolding udp_send_message tcp_send_message tcp_write
udp_send_message-receive_bytes env ser msg s {body} k e d short whole = (
  make_packet body,
  written (udp_write true true) _ e,
  written (tcp_write Answer.connected (some k)) _ e
      ∙ ap (λ p. SendResult.reported ErrorCode.success (p ∷ []))
          (take_all (make_packet body) k whole),
  arrives env ser msg s body d short,
)
