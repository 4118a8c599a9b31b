-- ===== src/Net/Json/RoundTrip.antt =====
-- A message that is written as JSON is read again, but for its times.
use libgossip.Base.{
  ℕ, ◌%◌, ◌<◌, ◌≡◌, refl, ap, ◌∙◌, Bool, true, Option, some, List, [], ◌∷◌, map, arith, ℕ_discrete,
  ℤ, length, All, Bytes, bytes_discrete,
}
use libgossip.Core.State.{u64_mod}
use libgossip.Ids.{id_size, ◌>>=◌}
use libgossip.Ids.RoundTrip.{IsByte}
use libgossip.Net.{SerializationError}
use libgossip.Net.Json.{
  dumped, or_failed, write_id, parse_node_id_from_hex, node_members, serialize_node_to_json,
  message_members, message_to_json, serialize, Step, take_member, take_if, run_steps, node_steps,
  deserialize_node_from_json, set_if, read_message, deserialize,
}
use libgossip.Net.Json.Hex.{ReadsHex, parse_node_id_from_hex-write_id}
use libgossip.Net.Json.Library.{
  find_member, has_key, distinct, IsInt, key_sender, key_type, key_timestamp, key_entries, key_id,
  key_ip, key_port, key_config_epoch, key_heartbeat, key_version, key_status, key_role, key_region,
  key_metadata, key_suspicion_count, JsonLibrary, IsDocumented,
}
use libgossip.Node.{blank_node, NodeView, GossipMessage}
use libgossip.Node.Codes.{
  u8_mod, int_mod, type_code, type_of_code, status_code, status_of_code, int_bits, int_of_bits,
}
use libgossip.Node.Codes.Laws.{
  IsType, IsStatus, type_of_code-type_code, status_code-lt, status_of_code-status_code,
  int_bits-int_of_bits, type_code-lt, int_bits-pos,
}

-- The values that a node has in the program: identifier and counters in their ranges.
pub record IsSentNode (n : NodeView) : Type 0 where
  pub sized : length n.id ≡ id_size
  pub bytes : All IsByte n.id
  pub port : IsInt n.port
  pub config_epoch : n.config_epoch < u64_mod
  pub heartbeat : n.heartbeat < u64_mod
  pub version : n.version < u64_mod
  pub status : IsStatus n.status
  pub suspicion_count : IsInt n.suspicion_count

pub record IsSent (m : GossipMessage) : Type 0 where
  pub sized : length m.sender ≡ id_size
  pub bytes : All IsByte m.sender
  pub type : IsType m.type
  pub timestamp : m.timestamp < u64_mod
  pub nodes : All IsSentNode m.entries

-- The times of the steady clock are not sent.
abbrev pub untimed : NodeView → NodeView
untimed n = record n { seen_time = 0; last_suspected = 0 }

abbrev pub untimed_message : GossipMessage → GossipMessage
untimed_message m = record m { entries = map untimed m.entries }

pub int_of_bits-IsInt : (n : ℕ) → n < int_mod → IsInt (int_of_bits n)
unfolding int_of_bits
int_of_bits-IsInt n h = ground (arith, h)

module _ {V : Type 0} (lib : JsonLibrary V) (stoi : Bytes → Option ℤ) (doc : IsDocumented lib)
    (reads : ReadsHex stoi) where
  found :
      (n : NodeView) (k : Bytes) {v : V}
      → find_member k (node_members lib stoi n) ≡ some v
      → lib.member k (serialize_node_to_json lib stoi n) ≡ some v
  unfolding serialize_node_to_json node_members distinct has_key bytes_discrete ℕ_discrete
  found n k e = doc.member-object k (node_members lib stoi n) refl ∙ e

  took :
      {T : Type 0} (j : V) (key : Bytes) (get : V → Option T) (put : T → NodeView → NodeView)
      (node : NodeView) {v : V} {x : T}
      → lib.member key j ≡ some v
      → get v ≡ some x
      → take_member lib stoi j key get put node ≡ some (put x node)
  unfolding take_member
  took j key get put node e g = rw (e, take_member) (rw g refl)

  took_if :
      {T : Type 0} (j : V) (key : Bytes) (test : V → Bool) (get : V → Option T)
      (put : T → NodeView → NodeView) (node : NodeView) {v : V} {x : T}
      → lib.member key j ≡ some v
      → test v ≡ true
      → get v ≡ some x
      → take_if lib stoi j key test get put node ≡ some (put x node)
  unfolding take_if
  took_if j key test get put node e t g = rw (e, take_if) (rw (t, g) refl)

  ran :
      (s : Step lib stoi) (ss : List (Step lib stoi)) (node : NodeView) {node' r : NodeView}
      → s node ≡ some node'
      → run_steps lib stoi ss node' ≡ r
      → run_steps lib stoi (s ∷ ss) node ≡ r
  unfolding run_steps
  ran s ss node e rest = rw e rest

  ended : (node : NodeView) → run_steps lib stoi [] node ≡ node
  unfolding run_steps
  ended node = refl

  fields_read :
      (n : NodeView)
      → IsSentNode n
      → run_steps lib stoi (node_steps lib stoi (serialize_node_to_json lib stoi n)) blank_node
        ≡ record (untimed n) {
          id = parse_node_id_from_hex stoi (write_id n.id);
          status = status_of_code (int_bits (int_of_bits (status_code n.status)));
        }
  unfolding node_steps node_members find_member bytes_discrete ℕ_discrete
  fields_read n h =
      let j = serialize_node_to_json lib stoi n in
      ran _ _ _
        (took_if j key_id _ _ (λ x node. record node { id = parse_node_id_from_hex stoi x }) _
          (found n key_id refl) (doc.is_string-string _) (doc.get_string-string _))
        (ran _ _ _
          (took j key_ip _ (λ x node. record node { ip = x }) _ (found n key_ip refl)
            (doc.get_string-string _))
          (ran _ _ _
            (took j key_port _ (λ x node. record node { port = x }) _ (found n key_port refl)
              (doc.get_int-integer _ h.port))
            (ran _ _ _
              (took j key_config_epoch _ (λ x node. record node { config_epoch = x }) _
                (found n key_config_epoch refl) (doc.get_unsigned-unsigned _ h.config_epoch))
              (ran _ _ _
                (took j key_heartbeat _ (λ x node. record node { heartbeat = x }) _
                  (found n key_heartbeat refl) (doc.get_unsigned-unsigned _ h.heartbeat))
                (ran _ _ _
                  (took j key_version _ (λ x node. record node { version = x }) _
                    (found n key_version refl) (doc.get_unsigned-unsigned _ h.version))
                  (ran _ _ _
                    (took j key_status _
                      (λ x node. record node { status = status_of_code (int_bits x) }) _
                      (found n key_status refl)
                      (doc.get_int-integer _
                        (int_of_bits-IsInt _ (status_code-lt n.status h.status))))
                    (ran _ _ _
                      (took j key_role _ (λ x node. record node { role = x }) _
                        (found n key_role refl) (doc.get_string-string _))
                      (ran _ _ _
                        (took j key_region _ (λ x node. record node { region = x }) _
                          (found n key_region refl) (doc.get_string-string _))
                        (ran _ _ _
                          (took_if j key_metadata _ _ (λ x node. record node { metadata = x }) _
                            (found n key_metadata refl) (doc.is_object-of_map _)
                            (doc.get_map-of_map _))
                          (ran _ _ _
                            (took j key_suspicion_count _
                              (λ x node. record node { suspicion_count = x }) _
                              (found n key_suspicion_count refl)
                              (doc.get_int-integer _ h.suspicion_count))
                            ((ended _))))))))))))

  node_read :
      (n : NodeView)
      → IsSentNode n
      → deserialize_node_from_json lib stoi (serialize_node_to_json lib stoi n) ≡ untimed n
  unfolding deserialize_node_from_json
  node_read n h =
      fields_read n h
      ∙ rw
          (
            parse_node_id_from_hex-write_id stoi n.id reads h.sized h.bytes,
            int_bits-int_of_bits (status_code n.status) (status_code-lt n.status h.status),
            status_of_code-status_code n.status h.status,
          )
          refl

  nodes_read :
      (ns : List NodeView)
      → All IsSentNode ns
      → map (deserialize_node_from_json lib stoi) (map (serialize_node_to_json lib stoi) ns)
        ≡ map untimed ns
  nodes_read [] h = refl
  nodes_read (n ∷ ns) h = rw (node_read n h.0, nodes_read ns h.1) refl

  found_in_message :
      (m : GossipMessage) (k : Bytes) {v : V}
      → find_member k (message_members lib stoi m) ≡ some v
      → lib.member k (message_to_json lib stoi m) ≡ some v
  unfolding message_to_json message_members distinct has_key bytes_discrete ℕ_discrete
  found_in_message m k e = doc.member-object k (message_members lib stoi m) refl ∙ e

  set :
      {T : Type 0} (j : V) (key : Bytes) (test : V → Bool) (get : V → Option T)
      (put : T → GossipMessage → GossipMessage) (m : GossipMessage) {v : V} {x : T}
      → lib.member key j ≡ some v
      → test v ≡ true
      → get v ≡ some x
      → set_if lib stoi j key test get put m ≡ some (put x m)
  unfolding set_if
  set j key test get put m e t g = rw (e, set_if) (rw (t, g) refl)

  bound :
      {A B : Type 0} (o : Option A) (f : A → Option B) {a : A} {r : Option B}
      → o ≡ some a
      → f a ≡ r
      → (o >>= f) ≡ r
  bound o f e rest = rw e rest

  message_read :
      (m : GossipMessage)
      → IsSent m
      → read_message lib stoi (message_to_json lib stoi m) ≡ some (untimed_message m)
  unfolding read_message message_members find_member bytes_discrete ℕ_discrete
  message_read m h =
      let j = message_to_json lib stoi m in
      bound _ _
        (set j key_sender _ _ (λ x m. record m { sender = parse_node_id_from_hex stoi x }) _
          (found_in_message m key_sender refl) (doc.is_string-string _) (doc.get_string-string _))
        (bound _ _
          (set j key_type _ _ (λ x m. record m { type = type_of_code (int_bits x % u8_mod) }) _
            (found_in_message m key_type refl) (doc.is_number-integer _)
            (doc.get_int-integer _ (omega (arith, type_code-lt m.type h.type))))
          (bound _ _
            (set j key_timestamp _ _ (λ x m. record m { timestamp = x }) _
              (found_in_message m key_timestamp refl) (doc.is_number-unsigned _)
              (doc.get_unsigned-unsigned _ h.timestamp))
            (set j key_entries _ (λ v. some (lib.items v))
                (λ vs m. record m { entries = map (deserialize_node_from_json lib stoi) vs }) _
                (found_in_message m key_entries refl) (doc.is_array-array _)
                (ap some (doc.items-array _))
              ∙ rw
                  (
                    parse_node_id_from_hex-write_id stoi m.sender reads h.sized h.bytes,
                    int_bits-pos (type_code m.type) (omega (arith, type_code-lt m.type h.type)),
                    type_of_code-type_code m.type h.type,
                    nodes_read m.entries h.nodes,
                  )
                  refl)))

  -- Over a JSON library and a std::stoi that are as documented: when a message and its entries have
  -- ids of sixteen bytes and numbers and enumerators in their ranges, and its JSON value is dumped
  -- as a text that is not empty and is parsed as that value, then serialize gives this text, and
  -- deserialize of the text gives the message, with the two times of every entry set to zero.
  pub deserialize-serialize :
      (m : GossipMessage) {c : ℕ} {cs : Bytes}
      → IsSent m
      → lib.dump (message_to_json lib stoi m) ≡ some (c ∷ cs)
      → lib.parse (c ∷ cs) ≡ some (message_to_json lib stoi m)
      → (serialize lib stoi m ≡ (SerializationError.success, c ∷ cs))
        × (deserialize lib stoi (c ∷ cs) ≡ (SerializationError.success, untimed_message m))
  unfolding serialize dumped deserialize or_failed
  deserialize-serialize m h written parsed =
      (ap (dumped lib stoi) written, rw parsed (rw (message_read m h) refl))
