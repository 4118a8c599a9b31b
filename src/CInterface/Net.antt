-- ===== src/CInterface/Net.antt =====
-- src/net/gossip_net_c.cpp: serializers and transports behind handles of C. A handle is null
-- (`none`) or points to its wrapper, which never holds a null pointer.
pub mod Errors
pub mod RoundTrip
pub mod Serializers
use mathlib.Core.Option
use libgossip.Base.{
  ℕ, zero, suc, ◌+◌, Bool, true, false, Option, none, some, List, [], ◌∷◌, map, length, ◌==◌,
  if◌then◌else◌, Bytes,
}
use libgossip.CInterface.{
  until_nul, to_cpp_node_id, to_c_node_id, to_c_node_view, read_entries, with_entries, CNodeView,
  CMessage,
}
use libgossip.CInterface.Api.{gossip_core_get_internal}
use libgossip.CInterface.Memory.{malloc, release, c_message, Memory, Wrapper}
use libgossip.Manager.{create_json_transport, TransportType, Created, Network}
use libgossip.Net.{SerializationError, ErrorCode, Serializer}
use libgossip.Net.Frame.RoundTrip.{packets}
use libgossip.Net.Send.{udp_send_message, tcp_send_message, SendResult, Answer}
use libgossip.Node.{NodeView, GossipMessage}
use libgossip.Node.Codes.{type_code, type_of_code}

-- `json` is what json_serializer's constructor gives; `new` gives a block.
unfoldable pub obtain : Memory → Memory
obtain mem = record mem { live = mem.live + 1 }

unfoldable pub gossip_json_serializer_create : Serializer → Memory → Option Serializer × Memory
unfolding obtain
gossip_json_serializer_create json mem = (some json, obtain mem)

-- gossip_serializer_destroy and gossip_transport_destroy: what is left of the blocks.
unfoldable pub destroy : {A : Type 0} → Option A → Memory → Memory
unfolding release
destroy none mem = mem
destroy (some wrapper) mem = release mem

-- What is written to `*data` (block) and to `*data_size`.
pub record Written : Type 0 where
  pub block : Option Bytes
  pub data_size : ℕ

-- "Convert entries array from C to C++". `none`: the array is shorter than the count says.
unfoldable pub guarded_entries : CMessage → Option (List NodeView)
unfolding read_entries
guarded_entries c = elim c.entries [
  | none ↦ some []
  | some cs ↦ read_entries (some cs) c.entries_count
]

unfoldable pub copied : Bytes → Bool × Memory → ErrorCode × Option Written × Memory
copied bytes (true, mem) =
    (ErrorCode.success, some (record { block = some bytes; data_size = length bytes }), mem)
copied bytes (false, mem) =
    (ErrorCode.network_error, some (record { block = none; data_size = length bytes }), mem)

-- From `if (result == serialization_error::success)` on.
unfoldable pub hand_out :
    (ℕ → Bool) → SerializationError × Bytes → Memory → ErrorCode × Option Written × Memory
unfolding copied malloc
hand_out grants (SerializationError.success, bytes) mem = copied bytes (malloc grants mem)
hand_out grants (_, bytes) mem = (ErrorCode.serialization_error, none, mem)

-- `block` and `block_size`: whether the pointers `data` and `data_size` are set. The outer `none` as above.
unfoldable pub gossip_serializer_serialize :
    (ℕ → Bool)
    → Option Serializer
    → Option CMessage
    → (block block_size : Bool) → Memory
    → Option (ErrorCode × Option Written × Memory)
unfolding hand_out guarded_entries to_cpp_node_id type_of_code
gossip_serializer_serialize grants (some ser) (some c) true true mem =
    Option.map
      (λ entries.
        hand_out grants (ser.serialize (with_entries c.sender c.type c.timestamp entries)) mem)
      (guarded_entries c)
gossip_serializer_serialize grants ser c block data_size mem =
    some (ErrorCode.invalid_argument, none, mem)

-- The `data_size` bytes from `data` on, `none` if there are fewer.
unfoldable pub read_data : Bytes → ℕ → Option Bytes
read_data bytes zero = some []
read_data [] (suc n) = none
read_data (b ∷ bs) (suc n) = Option.map (◌∷◌ b) (read_data bs n)

-- The block for the entries, and what `*msg` is then.
unfoldable pub fill_message : GossipMessage → Bool × Memory → ErrorCode × CMessage × Memory
unfolding to_c_node_view to_c_node_id type_code
fill_message m (true, mem) =
    (ErrorCode.success, c_message m (some (map to_c_node_view m.entries)) (length m.entries), mem)
fill_message m (false, mem) = (ErrorCode.network_error, c_message m none 0, mem)

-- From `if (result == serialization_error::success)` on; `old` is what `*msg` was.
unfoldable pub hand_back :
    (ℕ → Bool)
    → SerializationError × GossipMessage
    → CMessage
    → Memory
    → ErrorCode × CMessage × Memory
unfolding fill_message malloc to_c_node_id type_code
hand_back grants (SerializationError.success, m) old mem =
    if length m.entries == 0
    then (ErrorCode.success, c_message m none 0, mem)
    else fill_message m (malloc grants mem)
hand_back grants (_, m) old mem = (ErrorCode.serialization_error, old, mem)

-- The outer `none`: `data` has fewer bytes; the inner: `msg` is null.
unfoldable pub gossip_serializer_deserialize :
    (ℕ → Bool)
    → Option Serializer
    → Option Bytes
    → ℕ
    → Option CMessage
    → Memory
    → Option (ErrorCode × Option CMessage × Memory)
unfolding hand_back read_data
gossip_serializer_deserialize grants (some ser) (some block) data_size (some old) mem =
    Option.map
      (λ bytes. let r = hand_back grants (ser.deserialize bytes) old mem in (r.0, some r.1, r.2))
      (read_data block data_size)
gossip_serializer_deserialize grants ser block data_size old mem =
    some (ErrorCode.invalid_argument, old, mem)

-- What gossip_transport_wrapper owns; `core` says whether set_gossip_core was called.
pub record CTransport : Type 0 where
  pub type : TransportType
  pub socket : ℕ
  pub serializer : Option Serializer
  pub core : Bool

-- GOSSIP_TRANSPORT_UDP and GOSSIP_TRANSPORT_TCP.
unfoldable pub transport_type_of : ℕ → Option TransportType
transport_type_of zero = some TransportType.udp
transport_type_of (suc zero) = some TransportType.tcp
transport_type_of (suc (suc n)) = none

-- The wrapper is allocated first; an exception of the constructor leaves it allocated.
unfoldable pub wrap_transport : TransportType → Option ℕ → Memory → Option CTransport × Memory
unfolding obtain
wrap_transport type none mem = (none, obtain mem)
wrap_transport type (some socket) mem =
    (some (record { type = type; socket = socket; serializer = none; core = false }), obtain mem)

-- `host` is no null pointer.
unfoldable pub gossip_transport_create :
    Network → ℕ → Bytes → ℕ → Memory → Option CTransport × Memory
unfolding transport_type_of wrap_transport until_nul obtain release
gossip_transport_create net type host port mem = elim (transport_type_of type) [
  | none ↦ (none, release (obtain mem))
  | some kind ↦ wrap_transport kind (net.construct kind (until_nul host) port) mem
]

-- What a transport of the factory is put into.
unfoldable pub wrap_created : TransportType → Created → Memory → Option CTransport × Memory
unfolding obtain
wrap_created type (Created.made t) mem = (
  some (record { type = type; socket = t.socket; serializer = t.serializer; core = false }),
  obtain mem,
)
wrap_created type Created.null mem = (none, mem)
wrap_created type Created.thrown mem = (none, mem)

unfoldable pub gossip_transport_factory_create :
    Network → ℕ → Bytes → ℕ → Memory → Option CTransport × Memory
unfolding transport_type_of wrap_created create_json_transport until_nul
gossip_transport_factory_create net type host port mem = elim (transport_type_of type) [
  | none ↦ (none, mem)
  | some kind ↦ wrap_created kind (create_json_transport net kind (until_nul host) port) mem
]

-- `result` is what the transport gives, or `none` for an exception.
guarded : Option CTransport → Option ErrorCode → ErrorCode
guarded none result = ErrorCode.invalid_argument
guarded (some t) none = ErrorCode.network_error
guarded (some t) (some code) = code

unfoldable pub gossip_transport_start : Option CTransport → Option ErrorCode → ErrorCode
unfolding guarded
gossip_transport_start t result = guarded t result

unfoldable pub gossip_transport_stop : Option CTransport → Option ErrorCode → ErrorCode
unfolding guarded
gossip_transport_stop t result = guarded t result

abbrev has_address : Answer → Bool
has_address Answer.no_address = false
has_address _ = true

abbrev is_taken : Option ℕ → Bool
is_taken none = false
is_taken (some k) = true

-- A datagram is taken whole or not at all; for UDP there is nothing to connect.
unfoldable pub transport_send :
    TransportType → Answer → (taken : Option ℕ) → Option Serializer → GossipMessage → SendResult
unfolding udp_send_message tcp_send_message
transport_send TransportType.udp answer taken ser msg =
    udp_send_message (has_address answer) (is_taken taken) ser msg
transport_send TransportType.tcp answer taken ser msg = tcp_send_message answer taken ser msg

-- The code, with what the network took.
unfoldable pub code_of : SendResult → ErrorCode × List Bytes
code_of (SendResult.reported code packets) = (code, packets)
code_of SendResult.thrown = (ErrorCode.network_error, [])

-- The entries of the message are not converted.
unfoldable pub gossip_transport_send_message :
    Answer
    → (taken : Option ℕ) → Option CTransport
    → Option CMessage
    → Option CNodeView
    → ErrorCode × List Bytes
unfolding transport_send code_of to_cpp_node_id type_of_code
gossip_transport_send_message answer taken (some t) (some c) (some target) =
    code_of (
      transport_send t.type answer taken t.serializer (with_entries c.sender c.type c.timestamp []))
gossip_transport_send_message answer taken t c target = (ErrorCode.invalid_argument, [])

-- The core is the one that the wrapper holds.
unfoldable pub gossip_transport_set_core : Option CTransport → Option Wrapper → Option CTransport
unfolding gossip_core_get_internal
gossip_transport_set_core none core = none
gossip_transport_set_core (some t) core = elim (gossip_core_get_internal core) [
  | none ↦ some t
  | some internal ↦ some (record t { core = true })
]

-- A new JSON serializer is set, whatever serializer the handle points to.
unfoldable pub gossip_transport_set_serializer :
    Serializer → Option CTransport → Option Serializer → Option CTransport
gossip_transport_set_serializer json none ser = none
gossip_transport_set_serializer json (some t) none = some t
gossip_transport_set_serializer json (some t) (some ser) =
    some (record t { serializer = some json })
