-- ===== src/CInterface/RoundTrip.antt =====
-- What is left of a node and of a message that go to C and back.
use libgossip.Base.{
  ◌≡◌, refl, ap, ◌∙◌, some, List, [], ◌∷◌, map, arith, length, take, All, Bytes, pos,
}
use libgossip.CInterface.{
  to_cpp_node_id, to_c_node_id, to_cpp_node_view, to_c_node_view, read_entries, to_cpp_message,
}
use libgossip.CInterface.Memory.{c_message}
use libgossip.CInterface.Text.{clip, until_nul-store_text, take_whole}
use libgossip.Ids.{id_size}
use libgossip.Node.{NodeView, GossipMessage}
use libgossip.Node.Codes.Laws.{IsType, IsStatus, type_of_code-type_code, status_of_code-status_code}

-- An id of sixteen bytes, and a status that is no second name of an enumerator.
abbrev pub IsNode : NodeView → Type 0
IsNode n = (length n.id ≡ id_size) × IsStatus n.status

abbrev pub IsMessage : GossipMessage → Type 0
IsMessage m = (length m.sender ≡ id_size) × IsType m.type × All IsNode m.entries

-- The C structure has no place for the metadata, the time, and the suspicion, and 63 characters for
-- each text.
abbrev pub clipped : NodeView → NodeView
clipped n = record n {
  ip = clip n.ip;
  role = clip n.role;
  region = clip n.region;
  metadata = [];
  seen_time = 0;
  suspicion_count = pos 0;
  last_suspected = 0;
}

pub take_all : (id : Bytes) → length id ≡ id_size → take id_size (take id_size id) ≡ id
take_all id h =
    ap (take id_size) (take_whole id_size id (omega (arith, h)))
    ∙ take_whole id_size id (omega (arith, h))

-- A node with an id of sixteen bytes and a status in its range that goes to C and back keeps its
-- id, port, epochs, counters and status; each text is kept up to its first zero character and its
-- first 63 characters, and the metadata, the times and the suspicion are lost.
to_cpp_node_view-to_c_node_view :
    (n : NodeView) → IsNode n → to_cpp_node_view (to_c_node_view n) ≡ clipped n
unfolding to_cpp_node_view to_c_node_view to_cpp_node_id to_c_node_id
to_cpp_node_view-to_c_node_view n (sized, st) =
    rw
      (
        take_all n.id sized,
        until_nul-store_text n.ip,
        until_nul-store_text n.role,
        until_nul-store_text n.region,
        status_of_code-status_code n.status st,
      )
      refl

read_entries-map :
    (ns : List NodeView)
    → All IsNode ns
    → read_entries (some (map to_c_node_view ns)) (length ns) ≡ some (map clipped ns)
unfolding read_entries
read_entries-map [] h = refl
read_entries-map (n ∷ ns) h =
    rw (to_cpp_node_view-to_c_node_view n h.0, read_entries-map ns h.1) refl

-- A message with its nodes clipped.
abbrev pub clipped_message : GossipMessage → GossipMessage
clipped_message m = record m { entries = map clipped m.entries }

pub to_cpp_message-c_message :
    (m : GossipMessage)
    → IsMessage m
    → to_cpp_message (c_message m (some (map to_c_node_view m.entries)) (length m.entries))
      ≡ some (clipped_message m)
unfolding to_cpp_message to_cpp_node_id to_c_node_id
to_cpp_message-c_message m (sized, type, nodes) =
    rw
      (
        read_entries-map m.entries nodes,
        take_all m.sender sized,
        type_of_code-type_code m.type type,
      )
      refl
