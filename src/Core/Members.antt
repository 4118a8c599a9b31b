-- ===== src/Core/Members.antt =====
-- The other public operations of gossip_core (src/core/gossip_core.cpp).
pub mod Contacts
pub mod Queries
pub mod Metadata
pub mod Spreading
pub mod Cleanup
use libgossip.Base.{
  ℕ, Bool, not, ◌&&◌, Option, none, some, List, [], ◌∷◌, ◌++◌, length, get_elem?, modify,
  find_index, keep_if, ltb, if◌then◌else◌, holds, Bytes, bytes_discrete,
}
use libgossip.Base.Map.{Dictionary, insert}
use libgossip.Core.State.{elapsed_ms, same_id, tick_clock, notify, send, Core, Env}
use libgossip.Core.Tick.{own_message, beat}
use libgossip.Core.Update.{has_id}
use libgossip.Node.{NodeId, status_discrete, NodeStatus, MessageType, NodeView, GossipMessage}

-- The defaults of include/core/config.hpp.
abbrev pub default_heartbeat_interval_ms : ℕ
default_heartbeat_interval_ms = 100

abbrev pub default_failure_timeout_ms : ℕ
default_failure_timeout_ms = 2000

abbrev pub default_gossip_nodes : ℕ
default_gossip_nodes = 3

abbrev pub default_sync_nodes : ℕ
default_sync_nodes = 2

-- The constructor; `none` is std::invalid_argument for a null send callback.
unfoldable pub make_core : Env → NodeView → Bool → Bool → Option Core
make_core env self has_send has_event =
    if has_send
    then some (record {
      self = record self { status = NodeStatus.online; seen_time = env.now 0 };
      nodes = [];
      event_fn = has_event;
      heartbeat_interval = default_heartbeat_interval_ms;
      failure_timeout = default_failure_timeout_ms;
      gossip_nodes = default_gossip_nodes;
      sync_nodes = default_sync_nodes;
      sent_messages = 0;
      received_messages = 0;
      last_tick_duration = 0;
      reads = 1;
      draws = 0;
      trace = [];
    })
    else none

unfoldable pub record_at : Env → Option ℕ → NodeView → Core → Core
unfolding notify
record_at env (some i) node s = s
record_at env none node s =
    let nv = record node { status = NodeStatus.joining; seen_time = env.now s.reads } in
    notify nv NodeStatus.unknown (record (tick_clock s) { nodes = s.nodes ++ nv ∷ [] })

-- "Record locally", in meet and in join.
unfoldable pub record_locally : Env → NodeView → Core → Core
unfolding record_at find_index
record_locally env node s = record_at env (find_index (has_id node.id) s.nodes) node s

unfoldable pub meet : Env → NodeView → Core → Core
unfolding record_locally send
meet env node s =
    if same_id node.id s.self.id
    then s
    else (let s' = record_locally env node s in send (own_message MessageType.meet [] s') node s')

unfoldable pub join : Env → NodeView → Core → Core
unfolding record_locally send
join env node s =
    if same_id node.id s.self.id
    then s
    else (let s' = record_locally env node s in send (own_message MessageType.join [] s') node s')

unfoldable pub tell : GossipMessage → NodeId → NodeView → Core → Core
unfolding send
tell msg id node s =
    if holds (status_discrete node.status NodeStatus.online) && not (same_id node.id id)
    then send msg node s
    else s

-- "Send to all online nodes".
unfoldable pub send_online : GossipMessage → NodeId → List NodeView → Core → Core
unfolding tell
send_online msg id [] s = s
send_online msg id (node ∷ rest) s = send_online msg id rest (tell msg id node s)

abbrev pub leave_message : NodeView → Core → GossipMessage
leave_message node s = record {
  sender = s.self.id;
  type = MessageType.leave;
  timestamp = s.self.heartbeat;
  entries = node ∷ [];
}

unfoldable pub leave_at : Option ℕ → NodeId → Core → Core
unfolding send_online notify
leave_at none id s = s
leave_at (some i) id s = elim (get_elem? s.nodes i) [
  | none ↦ s
  | some node ↦
      let gone = record node { status = NodeStatus.failed } in
      let told = send_online (leave_message node s) id s.nodes s in
      notify gone node.status (record told { nodes = modify i (λ _. gone) s.nodes })
]

unfoldable pub leave : NodeId → Core → Core
unfolding leave_at find_index
leave id s = leave_at (find_index (has_id id) s.nodes) id s

unfoldable pub get_nodes : Core → List NodeView
get_nodes s = s.nodes

unfoldable pub size : Core → ℕ
size s = length s.nodes

unfoldable pub find_node : NodeId → Core → Option NodeView
unfolding find_index
find_node id s =
    if same_id id s.self.id
    then some s.self
    else elim (find_index (has_id id) s.nodes) [ none ↦ none | some i ↦ get_elem? s.nodes i ]

-- The predicate of cleanup_expired, `timeout` in milliseconds.
unfoldable pub expired : ℕ → ℕ → NodeView → Bool
expired timeout now n =
    not (holds (status_discrete n.status NodeStatus.online))
    && ltb timeout (elapsed_ms now n.seen_time)

unfoldable pub cleanup_expired : Env → ℕ → Core → Core
unfolding expired keep_if
cleanup_expired env timeout s = record (tick_clock s) {
  nodes = keep_if (λ n. not (expired timeout (env.now s.reads) n)) s.nodes;
}

unfoldable pub reset : Env → Core → Core
reset env s = record (tick_clock s) {
  nodes = [];
  self = record s.self { heartbeat = 1; version = 0; seen_time = env.now s.reads };
  sent_messages = 0;
  received_messages = 0;
}

pub record GossipStats : Type 0 where
  pub known_nodes : ℕ
  pub sent_messages : ℕ
  pub received_messages : ℕ
  pub last_tick_duration : ℕ

unfoldable pub get_stats : Core → GossipStats
get_stats s = record {
  known_nodes = length s.nodes;
  sent_messages = s.sent_messages;
  received_messages = s.received_messages;
  last_tick_duration = s.last_tick_duration;
}

-- The key "config_epoch".
abbrev pub config_epoch_key : Bytes
config_epoch_key =
    b'c' ∷ b'o' ∷ b'n' ∷ b'f' ∷ b'i' ∷ b'g' ∷ b'_' ∷ b'e' ∷ b'p' ∷ b'o' ∷ b'c' ∷ b'h' ∷ []

set_epoch : Option ℕ → NodeView → NodeView
set_epoch none self = self
set_epoch (some epoch) self = record self { config_epoch = epoch }

-- One round of the loop over the new metadata; a value that std::stoull refuses is ignored.
unfoldable pub set_entry : Env → Bytes → Bytes → NodeView → NodeView
unfolding set_epoch
set_entry env key value self =
    let self' = record self { metadata = insert key value self.metadata } in
    if holds (bytes_discrete key config_epoch_key)
    then set_epoch (env.stoull value) self'
    else self'

unfoldable pub set_entries : Env → Dictionary → NodeView → NodeView
unfolding set_entry
set_entries env [] self = self
set_entries env ((key, value) ∷ rest) self = set_entries env rest (set_entry env key value self)

unfoldable pub update_self_metadata : Env → Dictionary → Core → Core
unfolding set_entries
update_self_metadata env metadata s = beat (record s { self = set_entries env metadata s.self })
