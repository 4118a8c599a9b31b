-- ===== src/CInterface/Net/Serializers.antt =====
-- Which serializer a transport of C uses, and what of a message it sends.
use libgossip.Base.{
  ℕ, ◌≤◌, ◌≡◌, refl, sym, ap, ◌∙◌, inl, inr, true, Option, none, some, [], ◌∷◌, ℤ, length, Bytes,
  Option-cases,
}
use libgossip.CInterface.{until_nul, with_entries, CNodeView, CMessage}
use libgossip.CInterface.Memory.{Memory}
use libgossip.CInterface.Net.{
  transport_type_of, wrap_transport, gossip_transport_create, transport_send, code_of,
  gossip_transport_send_message, gossip_transport_set_serializer, CTransport,
}
use libgossip.Core.Handle.{handle_message}
use libgossip.Core.State.{tick_clock, Core, Env}
use libgossip.Manager.{TransportType, Network}
use libgossip.Net.{SerializationError, ErrorCode, Serializer}
use libgossip.Net.Frame.{make_packet, receive_bytes}
use libgossip.Net.Frame.RoundTrip.{IsShort}
use libgossip.Net.Json.{message_to_json, json_serializer}
use libgossip.Net.Json.Hex.{ReadsHex}
use libgossip.Net.Json.Library.{JsonLibrary, IsDocumented}
use libgossip.Net.Json.RoundTrip.{deserialize-serialize, IsSent}
use libgossip.Net.Send.{
  udp_write, tcp_write, send_serialized, udp_send_message, tcp_send_message, Answer,
}
use libgossip.Net.Send.Arrival.{written, take_all, arrives}
use libgossip.Node.{GossipMessage}

abbrev serializer_in : Option CTransport → Option Serializer
serializer_in none = none
serializer_in (some t) = t.serializer

wrapped_unready :
    (type : TransportType) (o : Option ℕ) (mem : Memory)
    → serializer_in (wrap_transport type o mem).0 ≡ none
unfolding wrap_transport
wrapped_unready type none mem = refl
wrapped_unready type (some socket) mem = refl

created_unready :
    (net : Network) (type : ℕ) (host : Bytes) (port : ℕ) (mem : Memory)
    → serializer_in (gossip_transport_create net type host port mem).0 ≡ none
unfolding gossip_transport_create
created_unready net type host port mem = elim (Option-cases (transport_type_of type)) [
  | inl h ↦ rw (h, gossip_transport_create) refl
  | inr (kind, h) ↦
      rw (h, gossip_transport_create)
        (wrapped_unready kind (net.construct kind (until_nul host) port) mem)
]

-- A transport without a serializer.
refused :
    (type : TransportType) (answer : Answer) (taken : Option ℕ) (m : GossipMessage)
    → code_of (transport_send type answer taken none m) ≡ (ErrorCode.serialization_error, [])
unfolding code_of transport_send udp_send_message tcp_send_message send_serialized
refused TransportType.udp answer taken m = refl
refused TransportType.tcp answer taken m = refl

sent_over :
    (type : TransportType) (ser : Serializer) (m : GossipMessage) {body : Bytes} (k : ℕ)
    → ser.serialize m ≡ (SerializationError.success, body)
    → length (make_packet body) ≤ k
    → code_of (transport_send type Answer.connected (some k) (some ser) m)
      ≡ (ErrorCode.success, make_packet body ∷ [])
unfolding code_of transport_send udp_send_message tcp_send_message send_serialized udp_write
    tcp_write
sent_over TransportType.udp ser m k e whole = ap code_of (written (udp_write true true) _ e)
sent_over TransportType.tcp ser m {body} k e whole =
    ap code_of (written (tcp_write Answer.connected (some k)) _ e)
    ∙ ap (λ p. (ErrorCode.success, p ∷ [])) (take_all (make_packet body) k whole)

-- A transport that gossip_transport_create gives refuses every message with a serialization error
-- and sends nothing, as long as no serializer has been set.
gossip_transport_create_unready :
    (net : Network) (type : ℕ) (host : Bytes) (port : ℕ) (mem : Memory) (answer : Answer)
    (taken : Option ℕ) (c : CMessage) (target : CNodeView) {t : CTransport} {mem' : Memory}
    → gossip_transport_create net type host port mem ≡ (some t, mem')
    → gossip_transport_send_message answer taken (some t) (some c) (some target)
      ≡ (ErrorCode.serialization_error, [])
unfolding gossip_transport_send_message
gossip_transport_create_unready net type host port mem answer taken c target {t} e =
    let bare = sym (ap (λ r. serializer_in r.0) e) ∙ created_unready net type host port mem in
    let m = with_entries c.sender c.type c.timestamp [] in
    ap (λ ser. code_of (transport_send t.type answer taken ser m)) bare
    ∙ refused t.type answer taken m

module _ {V : Type 0} (lib : JsonLibrary V) (stoi : Bytes → Option ℤ) (doc : IsDocumented lib)
    (reads : ReadsHex stoi) where
  -- Over a JSON library and a std::stoi that are as documented: after
  -- gossip_transport_set_serializer with any serializer, a message whose id and numbers are in
  -- their ranges, and whose JSON value without entries is dumped as a short text and parsed again,
  -- is sent successfully as one packet of that text when the address and the connection work and
  -- the socket takes the whole packet, whatever its entries are; and a node that reads the packet
  -- handles the message without entries.
  pub gossip_transport_send_message-receive_bytes :
      (env : Env) (s : Core) (t : CTransport) (given : Serializer) (c : CMessage)
      (target : CNodeView) (k : ℕ) {b : ℕ} {bs : Bytes}
      → let m = with_entries c.sender c.type c.timestamp [] in
        let json = json_serializer lib stoi in
        IsSent m
        → lib.dump (message_to_json lib stoi m) ≡ some (b ∷ bs)
        → lib.parse (b ∷ bs) ≡ some (message_to_json lib stoi m)
        → IsShort (b ∷ bs)
        → length (make_packet (b ∷ bs)) ≤ k
        → (gossip_transport_send_message Answer.connected
              (some k)
              (gossip_transport_set_serializer json (some t) (some given))
              (some c)
              (some target)
            ≡ (ErrorCode.success, make_packet (b ∷ bs) ∷ []))
          × (receive_bytes env json (make_packet (b ∷ bs)) s
              ≡ handle_message env m (env.now s.reads) (tick_clock s))
  unfolding gossip_transport_send_message gossip_transport_set_serializer transport_send code_of
      json_serializer
  gossip_transport_send_message-receive_bytes env s t given c target k {b} {bs} h written parsed
        short whole =
      let m = with_entries c.sender c.type c.timestamp [] in
      let (sent, got) = deserialize-serialize lib stoi doc reads m h written parsed in
      (
        sent_over t.type (json_serializer lib stoi) m k sent whole,
        arrives env (json_serializer lib stoi) m s (b ∷ bs) got short,
      )
