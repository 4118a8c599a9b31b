-- ===== src/Lib.antt =====
-- libgossip: a verification of the gossip protocol library.
--
-- The program keeps, on every node of a cluster, a list of the other nodes that it knows, and spreads
-- and merges these lists by messages. Its class gossip_core holds the state and reacts to a timer and
-- to messages; it sends through a callback, and reports changes of a node's status through another.
-- The transports turn messages into packets with a length prefix, and hand what they receive to
-- gossip_core::handle_message. Identifiers of nodes are sixteen bytes with a textual form.
--
-- Files, and the code that each models:
--   Base        lists over native numbers, Boolean tests, integers, ordered maps, permutations
--   Node        include/core/gossip_core.hpp: node_view, gossip_message, the enumerations, operator==;
--               newer_than and can_replace of src/core/gossip_core.cpp
--   Node.Codes  the numbers that the casts between the enumerations and integers give
--   Core.State  the members of gossip_core, notify and select_random_peers
--   Core.Update update_node: what an entry of a message makes of the list
--   Core.Tick   tick (pings, heartbeat, failure detection) and tick_full_broadcast
--   Core.Handle handle_message: the search for the sender, its status, the entries, the pong
--   Core.Members  the constructor, meet, join, leave, the queries, cleanup_expired, reset, get_stats
--               and update_self_metadata
--   Core.Run    histories: any sequence of calls of the public operations
--   Ids         src/core/node_id_utils.cpp and include/core/node_id_utils.hpp
--   Net         include/core/message_serializer.hpp and to_error_code of the transports
--   Net.Frame   the packets of src/net/udp_transport.cpp and src/net/tcp_transport.cpp, and the loop
--               over the bytes of one read
--   Net.Send    send_message and send_message_async of both transports
--   Net.Factory src/net/serializer_factory.cpp
--   Net.Json    src/net/json_serializer.cpp, over the interface Net.Json.Library of a JSON library
--   Net.Lifecycle, Net.Udp, Net.Tcp  start and stop of the transports, the receives of
--               src/net/udp_transport.cpp and the connections of src/net/tcp_transport.cpp
--   Version     include/core/version_check.hpp
--   Logger      include/core/logger.hpp
--   Manager     src/core/gossip_manager.cpp and include/core/gossip_config.hpp, and create_transport of
--               src/net/transport_factory.cpp
--   CInterface  src/core/gossip_c.cpp and include/core/gossip_core.h: the structures of C and the
--               conversions; CInterface.Memory its allocations and callbacks, CInterface.Api its
--               functions
--   CInterface.Net  src/net/gossip_net_c.cpp
--   Cluster     several gossip_cores that exchange messages: an interleaving of their operations, with
--               a record of what each has sent
--   Direct      what the two following have in common: callbacks that call other nodes at once
--   Redis       examples/redis_cluster_gossip_example.cpp: its nodes and statistics; Redis.Slots the
--               hash slots, Redis.Course what an operation calls while it holds its mutex, Redis.Node
--               and Redis.Manager the operations of the two classes
--   Large       examples/large_scale_cluster_example.cpp, in the same way
--   Checks      small runs of the definitions and of the theorems
-- Each operation is a function from the state to the state, with the same name as in the source. The
-- calls of the two callbacks are recorded in the state, the latest first. A pointer or an iterator into
-- the list of nodes is an index of it.
--
-- Outside the program, and so a parameter (Core.State.Env): the readings of steady_clock, in
-- nanoseconds and in the order of the calls whose value is kept or compared; the outcome of each
-- std::shuffle; std::stoull. Core.State.IsStd says what the standard library documents of them. The
-- serializer of a transport is a parameter too, and so is what the sockets make of a new transport and
-- of its start, and which texts asio::ip::make_address takes (Manager.Network, and the arguments of the
-- operations in Net.Lifecycle, Net.Udp and Net.Tcp, where a handler runs only on a thread inside a
-- context that is not stopped). The JSON
-- library is a record of operations (JsonLibrary) whose documented laws are IsDocumented, and std::stoi
-- for base 16 is a function with the law ReadsHex; the runs have a small library with these laws. malloc
-- is a function that says which requests are granted. A text of C is the characters before its first
-- zero, and a null pointer is none.
--
-- Numbers: counters of 64 bits wrap around (inc64); a length prefix has 32 bits (u32_mod);
-- suspicion_count and ports are integers without bounds, since reaching the bounds of int takes 2^31
-- suspicions. The loop over the packets of a read runs on fuel, one round for each byte of the read,
-- which is enough because each round takes four bytes at least.
--
-- In a cluster (Cluster) a step is a whole operation of one node, which is what the mutex of
-- gossip_core makes of it, and a message may be handled whenever it was sent before; the number of
-- nodes and of steps has no bound. The records that meet and join are given are such as name a node of
-- the cluster by its right id and address, if they name one; the contacts of gossip_manager, which
-- have no id, are not among them (Cluster.IsFair). In the Redis example and in the large one the send
-- callback calls the other node at once: there an operation is played with its calls in their order
-- (Direct.play), on fuel for the depth of the calls, of which two are enough, and with the list of the
-- mutexes that the thread holds.
--
-- A gossip_manager ends the program where an exception would leave one of its noexcept functions
-- (Manager.Outcome): on_send_message, which every operation of the core may call, is one of them.
--
-- Not modelled: threads that run two operations of one gossip_core at once, which its mutex keeps apart;
-- what a callback does when it is called, but in these two examples and in whether on_send_message ends
-- the program; the calls of the logger; the network behind the sockets, and handlers that run while
-- another operation of the same transport is under way; what the examples print; the other examples and
-- the bindings of Python, which only pass calls on.
pub mod Base
pub mod Node
pub mod Core
pub mod Ids
pub mod Net
pub mod Manager
pub mod CInterface
pub mod Version
pub mod Logger
pub mod Cluster
pub mod Direct
pub mod Redis
pub mod Large
pub mod Checks
