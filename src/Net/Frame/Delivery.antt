-- ===== src/Net/Frame/Delivery.antt =====
-- From the bytes of one read to the calls of gossip_core::handle_message.
use libgossip.Base.{◌≡◌, refl, ap, ◌∙◌, List, [], ◌∷◌, All, All2, Bytes}
use libgossip.Core.Handle.{handle_message}
use libgossip.Core.State.{tick_clock, Core, Env}
use libgossip.Net.{SerializationError, Serializer}
use libgossip.Net.Frame.{deserialized, deliver, deliver_all, receive_bytes}
use libgossip.Net.Frame.RoundTrip.{packets, IsShort, split_all-packets}
use libgossip.Node.{GossipMessage}

-- The calls that the read should make: one for each message, in order, each with its own time.
unfoldable pub handle_all : Env → List GossipMessage → Core → Core
unfolding handle_message
handle_all env [] s = s
handle_all env (m ∷ ms) s =
    handle_all env ms (handle_message env m (env.now s.reads) (tick_clock s))

abbrev pub IsReadAs : Serializer → GossipMessage → Bytes → Type 0
IsReadAs ser m body = ser.deserialize body ≡ (SerializationError.success, m)

deliver_all-handle_all :
    (env : Env) (ser : Serializer) (ms : List GossipMessage) (bodies : List Bytes) (s : Core)
    → All2 (IsReadAs ser) ms bodies
    → deliver_all env ser bodies s ≡ handle_all env ms s
unfolding deliver_all deliver handle_all deserialized
deliver_all-handle_all env ser [] [] s h = refl
deliver_all-handle_all env ser [] (b ∷ bs) s h = absurd h
deliver_all-handle_all env ser (m ∷ ms) [] s h = absurd h
deliver_all-handle_all env ser (m ∷ ms) (b ∷ bs) s h =
    rw h.0 (deliver_all-handle_all env ser ms bs _ h.1)

-- When a serializer reads each body as a message, and each body is shorter than 2^32 bytes, a read
-- that holds the packets of the bodies one after the other makes one call of handle_message for
-- each message, in their order, each with a clock reading of its own, and does nothing else.
pub receive_bytes-packets :
    (env : Env) (ser : Serializer) (ms : List GossipMessage) (bodies : List Bytes) (s : Core)
    → All IsShort bodies
    → All2 (IsReadAs ser) ms bodies
    → receive_bytes env ser (packets bodies) s ≡ handle_all env ms s
unfolding receive_bytes
receive_bytes-packets env ser ms bodies s short h =
    ap (λ (got : List Bytes). deliver_all env ser got s) (split_all-packets bodies short)
    ∙ deliver_all-handle_all env ser ms bodies s h
