-- ===== src/Core/Handle.antt =====
-- gossip_core::handle_message (src/core/gossip_core.cpp). A `node_view *` into the node list is an
-- index of it: the list only grows at its end while a message is handled.
pub mod Learn
pub mod Sender
pub mod Reply
pub mod Answers
pub mod Entries
pub mod Statuses
use libgossip.Base.{
  ℕ, Bool, not, ◌&&◌, ◌||◌, Option, none, some, List, [], ◌∷◌, int_discrete, get_elem?, modify,
  find_index, ltb, if◌then◌else◌, holds, bytes_discrete, pos,
}
use libgossip.Core.State.{inc64, same_id, notify, send, select_random_peers, draw, Core, Env}
use libgossip.Core.Tick.{own_message}
use libgossip.Core.Update.{has_id, update_node}
use libgossip.Node.{
  NodeId, status_discrete, type_discrete, NodeStatus, MessageType, NodeView, GossipMessage,
}

abbrev pub is_type : MessageType → GossipMessage → Bool
is_type t msg = holds (type_discrete msg.type t)

-- `type == meet || type == join`
abbrev pub is_greeting : GossipMessage → Bool
is_greeting msg = is_type MessageType.meet msg || is_type MessageType.join msg

-- A known node at the entry's address that goes by another id.
unfoldable pub same_address : NodeView → NodeView → Bool
same_address remote n =
    holds (bytes_discrete n.ip remote.ip)
    && holds (int_discrete n.port remote.port)
    && not (same_id n.id remote.id)

abbrev pub set_id : ℕ → NodeId → Core → Core
set_id i id s = record s { nodes = modify i (λ n. record n { id = id }) s.nodes }

unfoldable pub rename_at : Option ℕ → NodeView → Core → Core
rename_at none remote s = s
rename_at (some i) remote s = set_id i remote.id s

-- "Check if we need to update node ID based on IP:port match".
unfoldable pub adopt_id : NodeView → Core → Core
unfolding rename_at find_index same_address
adopt_id remote s = rename_at (find_index (same_address remote) s.nodes) remote s

-- The body of the loops over the entries.
unfoldable pub learn : NodeView → ℕ → Core → Core
unfolding adopt_id update_node
learn remote recv s = (update_node remote recv (adopt_id remote s)).0

unfoldable pub learn_all : List NodeView → ℕ → Core → Core
unfolding learn
learn_all [] recv s = s
learn_all (remote ∷ rest) recv s = learn_all rest recv (learn remote recv s)

-- A greeting from an unknown sender: its own entry, if the message has one, is recorded first.
unfoldable pub introduce : NodeId → List NodeView → ℕ → Core → Option ℕ × Core
unfolding update_node
introduce sender [] recv s = (none, s)
introduce sender (entry ∷ rest) recv s =
    let later = introduce sender rest recv s in
    let (s', i) = update_node entry recv s in
    if same_id entry.id sender then (some i, s') else later

unfoldable pub sender_at : Option ℕ → NodeView → NodeId → Option ℕ → Option ℕ
sender_at none remote sender known = known
sender_at (some i) remote sender known = if same_id remote.id sender then some i else known

-- Any other message from an unknown sender: an entry at the address of a known node may show who
-- the sender is.
unfoldable pub recognise : NodeId → List NodeView → ℕ → Option ℕ → Core → Option ℕ × Core
unfolding sender_at find_index same_address learn
recognise sender [] recv known s = (known, s)
recognise sender (remote ∷ rest) recv known s =
    recognise sender rest recv
      (sender_at (find_index (same_address remote) s.nodes) remote sender known)
      (learn remote recv s)

-- The search for the sender: first by its id, then by one of the two ways above.
unfoldable pub find_sender : GossipMessage → ℕ → Core → Option ℕ × Core
unfolding introduce recognise find_index
find_sender msg recv s = elim (find_index (has_id msg.sender) s.nodes) [
  | some i ↦ (some i, s)
  | none ↦
      if is_greeting msg
      then introduce msg.sender msg.entries recv s
      else recognise msg.sender msg.entries recv none s
]

-- The sender after the first writes, before its status may change.
abbrev pub refreshed : GossipMessage → ℕ → NodeView → NodeView
refreshed msg recv n = record n {
  heartbeat = if ltb n.heartbeat msg.timestamp then msg.timestamp else n.heartbeat;
  seen_time = recv;
  version = inc64 n.version;
  suspicion_count =
      if holds (status_discrete n.status NodeStatus.suspect) then pos 0 else n.suspicion_count;
}

abbrev pub with_status : NodeStatus → NodeView → NodeView
with_status st n = record n { status = st }

-- `if (sender->status == joining)`: a node that speaks for the first time is online.
unfoldable pub awaken : NodeView → Core → NodeView × Core
unfolding notify
awaken n s =
    if holds (status_discrete n.status NodeStatus.joining)
    then (with_status NodeStatus.online n, notify (with_status NodeStatus.online n) n.status s)
    else (n, s)

-- `if (msg.type == leave)`, with the status that the sender had before the message.
unfoldable pub retire : GossipMessage → NodeStatus → NodeView → Core → NodeView × Core
unfolding notify
retire msg old_status n s =
    if is_type MessageType.leave msg && not (holds (status_discrete n.status NodeStatus.failed))
    then (with_status NodeStatus.failed n, notify (with_status NodeStatus.failed n) old_status s)
    else (n, s)

-- "Update sender's status".
unfoldable pub touch : GossipMessage → ℕ → NodeView → Core → NodeView × Core
unfolding awaken retire
touch msg recv n s = let (n', s') = awaken (refreshed msg recv n) s in retire msg n.status n' s'

unfoldable pub touch_at : Option ℕ → GossipMessage → ℕ → Core → Core
unfolding touch
touch_at none msg recv s = s
touch_at (some i) msg recv s = elim (get_elem? s.nodes i) [
  | none ↦ s
  | some n ↦ let (n', s') = touch msg recv n s in record s' { nodes = modify i (λ _. n') s.nodes }
]

-- `type == ping || type == meet || type == join`
abbrev pub wants_pong : GossipMessage → Bool
wants_pong msg =
    is_type MessageType.ping msg || is_type MessageType.meet msg || is_type MessageType.join msg

unfoldable pub pong_to : Env → Option NodeView → GossipMessage → Core → Core
unfolding select_random_peers send
pong_to env none msg s = s
pong_to env (some target) msg s =
    let extras = select_random_peers env s.sync_nodes (some msg.sender) s in
    send (own_message MessageType.pong extras s) target (draw s)

unfoldable pub reply : Env → Option ℕ → GossipMessage → Core → Core
unfolding pong_to
reply env none msg s = s
reply env (some i) msg s = if wants_pong msg then pong_to env (get_elem? s.nodes i) msg s else s

-- What follows the search for the sender.
unfoldable pub process : Env → GossipMessage → ℕ → Option ℕ → Core → Core
unfolding touch_at learn_all reply
process env msg recv sender s =
    reply env sender msg (learn_all msg.entries recv (touch_at sender msg recv s))

-- "If we still don't know the sender after processing entries, discard".
unfoldable pub unless_unknown : Env → GossipMessage → ℕ → Option ℕ → Core → Core
unfolding process
unless_unknown env msg recv none s = if is_greeting msg then process env msg recv none s else s
unless_unknown env msg recv (some i) s = process env msg recv (some i) s

unfoldable pub handle_message : Env → GossipMessage → ℕ → Core → Core
unfolding find_sender unless_unknown
handle_message env msg recv s =
    let (sender, s') =
      find_sender msg recv (record s { received_messages = inc64 s.received_messages }) in
    unless_unknown env msg recv sender s'
