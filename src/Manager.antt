-- ===== src/Manager.antt =====
-- src/core/gossip_manager.cpp: the class that owns a gossip_core and a transport.
pub mod Sends
pub mod Phases
pub mod Setup
use mathlib.Core.Option
use mathlib.Core.Option.{get_or}
use libgossip.Base.{
  ℕ, Bool, true, false, not, ◌&&◌, ◌||◌, Option, none, some, List, [], ◌∷◌, if◌then◌else◌, Bytes,
  pos,
}
use libgossip.Base.Map.{Dictionary}
use libgossip.Core.Members.{
  make_core, meet, join, leave, get_nodes, size, find_node, get_stats, update_self_metadata,
  GossipStats,
}
use libgossip.Core.State.{Effect, Core, Env}
use libgossip.Core.Tick.{tick, tick_full_broadcast}
use libgossip.Ids.{parse_node_id}
use libgossip.Net.{SerializationError, ErrorCode, Serializer}
use libgossip.Net.Factory.{Creator, json_name, create, Factory}
use libgossip.Node.{NodeId, blank_node, NodeStatus, NodeView, GossipMessage}

-- include/core/gossip_config.hpp
pub record GossipConfig : Type 0 where
  pub node_id : Bytes
  pub bind_ip : Bytes
  pub gossip_port : ℕ
  pub heartbeat_interval_ms : ℕ
  pub failure_timeout_ms : ℕ
  pub gossip_nodes : ℕ
  pub sync_nodes : ℕ
  pub use_tcp : Bool
  pub serializer : Bytes
  pub role : Bytes
  pub region : Bytes

-- What a call comes to: `crashes` is the use of a null pointer, or an exception that would leave a
-- noexcept function and so ends the program.
pub data Outcome (A : Type 0) : Type 0 where
  returns : A → Outcome A
  crashes : Outcome A

pub data TransportType : Type 0 where
  udp tcp : TransportType

-- A transport, by a number that stands for its socket, and its serializer, null if there is none.
pub record Transport : Type 0 where
  pub socket : ℕ
  pub serializer : Option Serializer

-- What create_transport comes to: a transport, or null, or an exception.
pub data Created : Type 0 where
  made : Transport → Created
  null thrown : Created

-- What the sockets do: the constructor of a transport throws (`none`) for a host that is no address;
-- the result of starting it; and whether asio::ip::make_address takes a text. The registry of serializers is taken as it stands, with `json` for
-- what create_json_serializer gives.
pub record Network : Type 0 where
  pub construct : TransportType → Bytes → ℕ → Option ℕ
  pub start_transport : ℕ → ErrorCode
  pub is_address : Bytes → Bool
  pub registry : Factory
  pub json : Creator

-- transport_factory::create_transport, for the two types that there are.
unfoldable pub create_transport : Network → TransportType → Bytes → ℕ → Bytes → Created
unfolding create
create_transport net type host port name = elim (net.construct type host port) [
  | none ↦ Created.thrown
  | some socket ↦
      Created.made (record { socket = socket; serializer = (create net.json name net.registry).0 })
]

-- The same without the name of a serializer, which stands for "json".
unfoldable pub create_json_transport : Network → TransportType → Bytes → ℕ → Created
unfolding create_transport
create_json_transport net type host port = create_transport net type host port json_name

-- The members of gossip_manager. `event_callback` says whether the function is set.
pub record Manager : Type 0 where
  pub config : GossipConfig
  pub self_id : NodeId
  pub gossip_core : Option Core
  pub transport : Option Transport
  pub initialized : Bool
  pub running : Bool
  pub event_callback : Bool
  pub event_callback_set : Bool

-- "Parse or generate node ID"; `fresh` is what generate_node_id gives.
unfoldable pub choose_id : Bytes → NodeId → NodeId
unfolding parse_node_id
choose_id [] fresh = fresh
choose_id (c ∷ text) fresh = get_or (parse_node_id (c ∷ text)) fresh

-- "Create self node view".
abbrev pub self_view : NodeId → GossipConfig → NodeView
self_view id config = record blank_node {
  id = id;
  ip = config.bind_ip;
  port = pos config.gossip_port;
  role = config.role;
  region = config.region;
  config_epoch = 1;
  heartbeat = 1;
  version = 1;
  status = NodeStatus.joining;
}

abbrev pub transport_type : Bool → TransportType
transport_type use_tcp = if use_tcp then TransportType.tcp else TransportType.udp

-- From "Create transport" on.
unfoldable pub connect : Created → Core → Manager → Outcome (Bool × Manager)
connect (Created.made t) core m =
    Outcome.returns
      (true, record m { gossip_core = some core; transport = some t; initialized = true })
connect Created.null core m =
    Outcome.returns (false, record m { gossip_core = none; transport = none })
connect Created.thrown core m = Outcome.crashes

-- From "Create gossip core with callbacks" on; both callbacks are set.
unfoldable pub build : Option Core → Network → GossipConfig → Manager → Outcome (Bool × Manager)
unfolding connect create_transport
build none net config m = Outcome.returns (false, m)
build (some core) net config m =
    connect
      (create_transport net (transport_type config.use_tcp) config.bind_ip config.gossip_port
        config.serializer)
      core m

unfoldable pub init : Env → Network → NodeId → GossipConfig → Manager → Outcome (Bool × Manager)
unfolding build make_core choose_id
init env net fresh config m =
    let id = choose_id config.node_id fresh in
    if m.initialized
    then Outcome.returns (false, m)
    else build (make_core env (self_view id config) true true) net config
        (record m { config = config; self_id = id })

unfoldable pub started : ErrorCode → Manager → Bool × Manager
started ErrorCode.success m = (true, record m { running = true })
started _ m = (false, m)

unfoldable pub start_with : Option Transport → Network → Manager → Outcome (Bool × Manager)
unfolding started
start_with none net m = Outcome.crashes
start_with (some t) net m = Outcome.returns (started (net.start_transport t.socket) m)

unfoldable pub start : Network → Manager → Outcome (Bool × Manager)
unfolding start_with
start net m =
    if not m.initialized
    then Outcome.returns (false, m)
    else if m.running
    then Outcome.returns (false, m)
    else start_with m.transport net m

unfoldable pub stop : Manager → Manager
stop m =
    if m.running
    then record m {
      running = false;
      event_callback_set = false;
      event_callback = false;
      gossip_core = none;
      transport = none;
    }
    else m

abbrev is_success : SerializationError → Bool
is_success SerializationError.success = true
is_success _ = false

is_written : Option Serializer → GossipMessage → Bool
is_written none msg = false
is_written (some ser) msg = is_success (ser.serialize msg).0

-- Whether the call ends the program: on_send_message is noexcept, and once the message is
-- serialized, send_message of either transport gives the ip of the target to make_address, which
-- throws for a text that is no address. (A connection that is there has such an ip.)
unfoldable pub on_send_message : Network → Option Transport → GossipMessage → NodeView → Bool
unfolding is_written
on_send_message net none msg target = false
on_send_message net (some t) msg target =
    is_written t.serializer msg && not (net.is_address target.ip)

unfoldable pub sends_end : Network → Option Transport → List Effect → Bool
unfolding on_send_message
sends_end net t [] = false
sends_end net t (Effect.sent msg target ∷ es) =
    sends_end net t es || on_send_message net t msg target
sends_end net t (Effect.event node old_status ∷ es) = sends_end net t es

-- The core after an operation, whose trace has the calls of this operation.
unfoldable pub performed : Network → Core → Manager → Outcome (Bool × Manager)
unfolding sends_end
performed net core m =
    if sends_end net m.transport core.trace
    then Outcome.crashes
    else Outcome.returns (true, record m { gossip_core = some core })

abbrev pub call : (Core → Core) → Core → Core
call f core = f (record core { trace = [] })

-- `if (gossip_core_) gossip_core_->f();`
unfoldable pub with_core :
    Network → Option Core → (Core → Core) → Manager → Outcome (Bool × Manager)
unfolding performed
with_core net none f m = Outcome.returns (true, m)
with_core net (some core) f m = performed net (call f core) m

-- The same without the test: a null pointer is used.
unfoldable pub on_core : Network → Option Core → (Core → Core) → Manager → Outcome (Bool × Manager)
unfolding performed
on_core net none f m = Outcome.crashes
on_core net (some core) f m = performed net (call f core) m

unfoldable pub manager_tick : Env → Network → Manager → Outcome (Bool × Manager)
unfolding tick with_core
manager_tick env net m =
    if m.running then with_core net m.gossip_core (tick env) m else Outcome.returns (true, m)

unfoldable pub broadcast_config : Env → Network → Manager → Outcome (Bool × Manager)
unfolding tick_full_broadcast with_core
broadcast_config env net m =
    if m.running
    then with_core net m.gossip_core (tick_full_broadcast env) m
    else Outcome.returns (true, m)

-- The node that meet_node and join_cluster make up: its identifier is all zeros.
abbrev pub contact : Bytes → ℕ → NodeView
contact ip port = record blank_node { ip = ip; port = pos port }

unfoldable pub meet_node : Env → Network → Bytes → ℕ → Manager → Outcome (Bool × Manager)
unfolding on_core meet
meet_node env net ip port m =
    if m.running
    then on_core net m.gossip_core (meet env (contact ip port)) m
    else Outcome.returns (false, m)

unfoldable pub join_cluster : Env → Network → Bytes → ℕ → Manager → Outcome (Bool × Manager)
unfolding on_core join
join_cluster env net ip port m =
    if m.running
    then on_core net m.gossip_core (join env (contact ip port)) m
    else Outcome.returns (false, m)

unfoldable pub leave_cluster : Network → Manager → Outcome (Bool × Manager)
unfolding leave with_core
leave_cluster net m = with_core net m.gossip_core (leave m.self_id) m

unfoldable pub manager_nodes : Manager → List NodeView
unfolding get_nodes
manager_nodes m = get_or (Option.map get_nodes m.gossip_core) []

unfoldable pub get_node_count : Manager → ℕ
unfolding size
get_node_count m = get_or (Option.map size m.gossip_core) 0

unfoldable pub manager_find_node : NodeId → Manager → Option NodeView
unfolding find_node
manager_find_node id m = elim m.gossip_core [ none ↦ none | some core ↦ find_node id core ]

unfoldable pub get_self : Manager → NodeView
get_self m = get_or (Option.map (λ c. c.self) m.gossip_core) blank_node

unfoldable pub update_metadata : Env → Network → Dictionary → Manager → Outcome (Bool × Manager)
unfolding update_self_metadata with_core
update_metadata env net metadata m =
    with_core net m.gossip_core (update_self_metadata env metadata) m

-- `has_callback` says whether the given function is not empty.
unfoldable pub set_event_callback : Bool → Manager → Manager
set_event_callback has_callback m = record m {
  event_callback = has_callback;
  event_callback_set = true;
}

abbrev pub no_stats : GossipStats
no_stats = record {
  known_nodes = 0;
  sent_messages = 0;
  received_messages = 0;
  last_tick_duration = 0;
}

unfoldable pub manager_stats : Manager → GossipStats
unfolding get_stats
manager_stats m = get_or (Option.map get_stats m.gossip_core) no_stats

-- Whether on_node_event passes an event on to the callback.
unfoldable pub forwards_event : Manager → Bool
forwards_event m = m.event_callback_set && m.event_callback
