-- ===== src/CInterface.antt =====
-- src/core/gossip_c.cpp and include/core/gossip_core.h: the structures of the C interface and the
-- conversions between them and the C++ ones. An enumeration of C is its number.
pub mod Text
pub mod RoundTrip
pub mod Memory
pub mod Api
pub mod Net
use mathlib.Core.Option
use libgossip.Base.{
  ℕ, zero, suc, ◌-◌, ◌%◌, Option, none, some, List, [], ◌∷◌, ◌++◌, ℤ, length, take, ◌==◌,
  if◌then◌else◌, Bytes,
}
use libgossip.Ids.{id_size}
use libgossip.Node.{NodeId, blank_node, NodeView, GossipMessage}
use libgossip.Node.Codes.{u8_mod, type_of_code, status_code, status_of_code}

-- `sizeof` of the fields ip, role and region.
abbrev pub text_size : ℕ
text_size = 64

-- What a function that takes a C string sees of it: the characters before the first 0.
unfoldable pub until_nul : Bytes → Bytes
until_nul [] = []
until_nul (c ∷ cs) = let rest = c ∷ until_nul cs in if c == 0 then [] else rest

unfoldable pub zeros : ℕ → Bytes
zeros zero = []
zeros (suc n) = 0 ∷ zeros n

-- `snprintf(field, sizeof(field), "%s", text.c_str())` into a field of zeros.
unfoldable pub store_text : Bytes → Bytes
unfolding until_nul zeros
store_text text =
    let kept = take (text_size - 1) (until_nul text) in kept ++ zeros (text_size - length kept)

-- gossip_node_view_t
pub record CNodeView : Type 0 where
  pub id : Bytes
  pub ip : Bytes
  pub port : ℤ
  pub config_epoch : ℕ
  pub heartbeat : ℕ
  pub version : ℕ
  pub status : ℕ
  pub role : Bytes
  pub region : Bytes
  pub sent_messages : ℕ
  pub received_messages : ℕ

-- gossip_message_t, with what `entries` points to; `none` is null.
pub record CMessage : Type 0 where
  pub sender : Bytes
  pub type : ℕ
  pub timestamp : ℕ
  pub entries : Option (List CNodeView)
  pub entries_count : ℕ

-- to_cpp_node_id and to_c_node_id: 16 bytes are copied.
unfoldable pub to_cpp_node_id : Bytes → NodeId
to_cpp_node_id id = take id_size id

unfoldable pub to_c_node_id : NodeId → Bytes
to_c_node_id id = take id_size id

unfoldable pub to_cpp_node_view : CNodeView → NodeView
unfolding to_cpp_node_id until_nul status_of_code
to_cpp_node_view c = record blank_node {
  id = to_cpp_node_id c.id;
  ip = until_nul c.ip;
  port = c.port;
  config_epoch = c.config_epoch;
  heartbeat = c.heartbeat;
  version = c.version;
  status = status_of_code c.status;
  role = until_nul c.role;
  region = until_nul c.region;
}

unfoldable pub to_c_node_view : NodeView → CNodeView
unfolding to_c_node_id store_text status_code
to_c_node_view n = record {
  id = to_c_node_id n.id;
  ip = store_text n.ip;
  port = n.port;
  config_epoch = n.config_epoch;
  heartbeat = n.heartbeat;
  version = n.version;
  status = status_code n.status;
  role = store_text n.role;
  region = store_text n.region;
  sent_messages = 0;
  received_messages = 0;
}

-- The loop over `entries[0]` to `entries[entries_count - 1]`. `none`: a null pointer is read, or
-- the end of the array is passed.
unfoldable pub read_entries : Option (List CNodeView) → ℕ → Option (List NodeView)
unfolding to_cpp_node_view
read_entries entries zero = some []
read_entries none (suc n) = none
read_entries (some []) (suc n) = none
read_entries (some (c ∷ cs)) (suc n) =
    Option.map (◌∷◌ (to_cpp_node_view c)) (read_entries (some cs) n)

abbrev pub with_entries : Bytes → ℕ → ℕ → List NodeView → GossipMessage
with_entries sender type timestamp entries = record {
  sender = to_cpp_node_id sender;
  type = type_of_code (type % u8_mod);
  timestamp = timestamp;
  entries = entries;
}

-- `none` where read_entries fails.
unfoldable pub to_cpp_message : CMessage → Option GossipMessage
unfolding read_entries to_cpp_node_id type_of_code
to_cpp_message c =
    Option.map (with_entries c.sender c.type c.timestamp) (read_entries c.entries c.entries_count)
