-- ===== src/Net/Json.antt =====
-- src/net/json_serializer.cpp over a JSON library (Net.Json.Library) and std::stoi for base 16.
pub mod Library
pub mod Hex
pub mod Empty
pub mod RoundTrip
use mathlib.Core.Option
use libgossip.Base.{
  ℕ, zero, suc, ◌/◌, ◌%◌, Bool, ◌||◌, Option, none, some, List, [], ◌∷◌, map, ℤ, ◌==◌,
  if◌then◌else◌, Bytes, pos,
}
use libgossip.CInterface.{zeros}
use libgossip.Core.Run.{step}
use libgossip.Ids.{id_size, hex_char, ◌>>=◌}
use libgossip.Net.{SerializationError, Serializer}
use libgossip.Net.Json.Library.{
  key_sender, key_type, key_timestamp, key_entries, key_id, key_ip, key_port, key_config_epoch,
  key_heartbeat, key_version, key_status, key_role, key_region, key_metadata, key_suspicion_count,
  JsonLibrary,
}
use libgossip.Node.{NodeId, blank_node, MessageType, NodeView, GossipMessage}
use libgossip.Node.Codes.{
  u8_mod, type_code, type_of_code, status_code, status_of_code, int_bits, int_of_bits,
}

-- The hexadecimal digits of the bytes, two for each, with commas between.
unfoldable pub write_id : Bytes → Bytes
unfolding hex_char
write_id [] = []
write_id (b ∷ []) = hex_char (b / 16) ∷ hex_char (b % 16) ∷ []
write_id (b ∷ c ∷ rest) = hex_char (b / 16) ∷ hex_char (b % 16) ∷ b',' ∷ write_id (c ∷ rest)

abbrev pub to_first : ℕ → List Bytes → List Bytes
to_first c [] = (c ∷ []) ∷ []
to_first c (piece ∷ pieces) = (c ∷ piece) ∷ pieces

-- The loop over find(",", start), and the substring after it.
unfoldable pub split_commas : Bytes → List Bytes
split_commas [] = [] ∷ []
split_commas (c ∷ cs) =
    let pieces = split_commas cs in if c == b',' then [] ∷ pieces else to_first c pieces

-- A space or a tab.
abbrev pub is_blank : ℕ → Bool
is_blank c = c == 32 || c == 9

unfoldable pub trim_start : Bytes → Bytes
trim_start [] = []
trim_start (c ∷ cs) = let rest = trim_start cs in if is_blank c then rest else c ∷ cs

abbrev pub or_nothing : ℕ → Bytes → Bytes
or_nothing c [] = if is_blank c then [] else c ∷ []
or_nothing c (d ∷ ds) = c ∷ d ∷ ds

unfoldable pub trim_end : Bytes → Bytes
trim_end [] = []
trim_end (c ∷ cs) = or_nothing c (trim_end cs)

-- The bytes of one piece, and after it those of the others: `rest`. An exception of std::stoi ends
-- the loop, and the remaining bytes stay 0.
unfoldable pub read_piece : (Bytes → Option ℤ) → Bytes → Bytes → Bytes → Bytes
unfolding int_bits
read_piece stoi [] untouched rest = 0 ∷ rest
read_piece stoi (c ∷ cs) untouched rest = elim (stoi (c ∷ cs)) [
  | none ↦ untouched
  | some z ↦ int_bits z % 256 ∷ rest
]

unfoldable pub read_pieces : (Bytes → Option ℤ) → ℕ → List Bytes → Bytes
unfolding read_piece trim_start trim_end zeros
read_pieces stoi zero pieces = []
read_pieces stoi (suc n) [] = zeros (suc n)
read_pieces stoi (suc n) (piece ∷ pieces) =
    read_piece stoi (trim_end (trim_start piece)) (zeros (suc n)) (read_pieces stoi n pieces)

-- parse_node_id_from_hex
unfoldable pub parse_node_id_from_hex : (Bytes → Option ℤ) → Bytes → NodeId
unfolding read_pieces split_commas
parse_node_id_from_hex stoi text = read_pieces stoi id_size (split_commas text)

module _ {V : Type 0} (lib : JsonLibrary V) (stoi : Bytes → Option ℤ) where
  -- The members that serialize_node_to_json sets.
  unfoldable pub node_members : NodeView → List (Bytes × V)
  unfolding write_id status_code int_of_bits
  node_members n =
      (key_id, lib.string (write_id n.id))
      ∷ (key_ip, lib.string n.ip)
      ∷ (key_port, lib.integer n.port)
      ∷ (key_config_epoch, lib.unsigned n.config_epoch)
      ∷ (key_heartbeat, lib.unsigned n.heartbeat)
      ∷ (key_version, lib.unsigned n.version)
      ∷ (key_status, lib.integer (int_of_bits (status_code n.status)))
      ∷ (key_role, lib.string n.role)
      ∷ (key_region, lib.string n.region)
      ∷ (key_metadata, lib.of_map n.metadata)
      ∷ (key_suspicion_count, lib.integer n.suspicion_count)
      ∷ []

  unfoldable pub serialize_node_to_json : NodeView → V
  unfolding node_members
  serialize_node_to_json n = lib.object (node_members n)

  unfoldable pub message_members : GossipMessage → List (Bytes × V)
  unfolding write_id serialize_node_to_json type_code
  message_members m =
      (key_sender, lib.string (write_id m.sender))
      ∷ (key_type, lib.integer (pos (type_code m.type)))
      ∷ (key_timestamp, lib.unsigned m.timestamp)
      ∷ (key_entries, lib.array (map serialize_node_to_json m.entries))
      ∷ []

  -- The value that `serialize` dumps.
  unfoldable pub message_to_json : GossipMessage → V
  unfolding message_members
  message_to_json m = lib.object (message_members m)

  dumped : Option Bytes → SerializationError × Bytes
  dumped none = (SerializationError.serialization_failed, [])
  dumped (some text) = (SerializationError.success, text)

  -- A call with an empty `data`, which a failure leaves empty.
  unfoldable pub serialize : GossipMessage → SerializationError × Bytes
  unfolding message_to_json dumped
  serialize m = dumped (lib.dump (message_to_json m))

  -- One statement of deserialize_node_from_json: `none` is an exception.
  abbrev pub Step : Type 0
  Step = NodeView → Option NodeView

  -- `if (j.contains(key)) node.field = j[key].get<T>();`
  unfoldable pub take_member :
      {T : Type 0} → V → Bytes → (V → Option T) → (T → NodeView → NodeView) → Step
  take_member j key get put node = elim (lib.member key j) [
    | none ↦ some node
    | some v ↦ Option.map (λ x. put x node) (get v)
  ]

  -- The same, with a further test of the value.
  unfoldable pub take_if :
      {T : Type 0} → V → Bytes → (V → Bool) → (V → Option T) → (T → NodeView → NodeView) → Step
  take_if j key test get put node = elim (lib.member key j) [
    | none ↦ some node
    | some v ↦ if test v then Option.map (λ x. put x node) (get v) else some node
  ]

  -- The statements in turn; the first exception ends them, and keeps what was set before.
  unfoldable pub run_steps : List Step → NodeView → NodeView
  run_steps [] node = node
  run_steps (step ∷ steps) node = elim (step node) [
    | none ↦ node
    | some node' ↦ run_steps steps node'
  ]

  unfoldable pub node_steps : V → List Step
  unfolding parse_node_id_from_hex status_of_code int_bits take_member take_if
  node_steps j =
      take_if j key_id lib.is_string lib.get_string
        (λ x node. record node { id = parse_node_id_from_hex stoi x })
      ∷ take_member j key_ip lib.get_string (λ x node. record node { ip = x })
      ∷ take_member j key_port lib.get_int (λ x node. record node { port = x })
      ∷ take_member j key_config_epoch lib.get_unsigned (λ x node. record node { config_epoch = x })
      ∷ take_member j key_heartbeat lib.get_unsigned (λ x node. record node { heartbeat = x })
      ∷ take_member j key_version lib.get_unsigned (λ x node. record node { version = x })
      ∷ take_member j key_status lib.get_int
          (λ x node. record node { status = status_of_code (int_bits x) })
      ∷ take_member j key_role lib.get_string (λ x node. record node { role = x })
      ∷ take_member j key_region lib.get_string (λ x node. record node { region = x })
      ∷ take_if j key_metadata lib.is_object lib.get_map (λ x node. record node { metadata = x })
      ∷ take_member j key_suspicion_count lib.get_int
          (λ x node. record node { suspicion_count = x })
      ∷ []

  unfoldable pub deserialize_node_from_json : V → NodeView
  unfolding run_steps node_steps
  deserialize_node_from_json j = run_steps (node_steps j) blank_node

  -- gossip_message{}
  abbrev pub blank_message : GossipMessage
  blank_message = record {
    sender = blank_node.id;
    type = MessageType.ping;
    timestamp = 0;
    entries = [];
  }

  -- `if (j.contains(key) && j[key].is_t())`, and then a get that may throw.
  unfoldable pub set_if :
      {T : Type 0}
      → V
      → Bytes
      → (V → Bool)
      → (V → Option T)
      → (T → GossipMessage → GossipMessage)
      → GossipMessage
      → Option GossipMessage
  set_if j key test get put m = elim (lib.member key j) [
    | none ↦ some m
    | some v ↦ if test v then Option.map (λ x. put x m) (get v) else some m
  ]

  -- From `msg = gossip_message{};` on; `none` is an exception.
  unfoldable pub read_message : V → Option GossipMessage
  unfolding parse_node_id_from_hex type_of_code int_bits deserialize_node_from_json set_if
  read_message j = do
    with_sender ←
        set_if j key_sender lib.is_string lib.get_string
          (λ x m. record m { sender = parse_node_id_from_hex stoi x }) blank_message
    with_type ←
        set_if j key_type lib.is_number lib.get_int
          (λ x m. record m { type = type_of_code (int_bits x % u8_mod) }) with_sender
    with_timestamp ←
        set_if j key_timestamp lib.is_number lib.get_unsigned (λ x m. record m { timestamp = x })
          with_type
    set_if j key_entries lib.is_array (λ v. some (lib.items v))
        (λ vs m. record m { entries = map deserialize_node_from_json vs }) with_timestamp

  or_failed : Option GossipMessage → SerializationError × GossipMessage
  or_failed none = (SerializationError.deserialization_failed, blank_message)
  or_failed (some m) = (SerializationError.success, m)

  unfoldable pub deserialize : Bytes → SerializationError × GossipMessage
  unfolding read_message or_failed
  deserialize [] = (SerializationError.success, blank_message)
  deserialize (c ∷ cs) = or_failed (lib.parse (c ∷ cs) >>= read_message)

  -- The class json_serializer.
  unfoldable pub json_serializer : Serializer
  unfolding serialize deserialize
  json_serializer = record { serialize = serialize; deserialize = deserialize }
