-- ===== src/CInterface/Net/RoundTrip.antt =====
-- A message that C code serializes and deserializes again.
use mathlib.Core.Option
use libgossip.Base.{
  ℕ, ◌+◌, ◌≡◌, refl, sym, ap, ◌∙◌, inl, inr, Bool, true, Option, none, some, List, [], ◌∷◌, map, ℤ,
  length, All, ◌==◌, Bytes, Bool-cases, if_true, if_false,
}
use libgossip.CInterface.{to_c_node_view, with_entries, CMessage}
use libgossip.CInterface.Api.Bounds.{no_nodes}
use libgossip.CInterface.Memory.{malloc, c_message, Memory}
use libgossip.CInterface.Memory.Callbacks.{without_entries, Shows}
use libgossip.CInterface.Net.{
  guarded_entries, copied, hand_out, gossip_serializer_serialize, read_data, fill_message,
  hand_back, gossip_serializer_deserialize,
}
use libgossip.CInterface.RoundTrip.{IsNode, IsMessage, to_cpp_message-c_message}
use libgossip.Net.{SerializationError, ErrorCode}
use libgossip.Net.Json.{message_to_json, json_serializer}
use libgossip.Net.Json.Hex.{ReadsHex}
use libgossip.Net.Json.Library.{JsonLibrary, IsDocumented}
use libgossip.Net.Json.RoundTrip.{
  untimed, untimed_message, deserialize-serialize, IsSentNode, IsSent,
}
use libgossip.Net.Send.Arrival.{written}
use libgossip.Node.{NodeView, GossipMessage}

read_data_all : (bytes : Bytes) → read_data bytes (length bytes) ≡ some bytes
unfolding read_data
read_data_all [] = refl
read_data_all (b ∷ bs) = rw (read_data_all bs) refl

sent_nodes : (ns : List NodeView) → All IsSentNode ns → All IsNode (map untimed ns)
sent_nodes [] h = tt
sent_nodes (n ∷ ns) h = ((h.0.sized, h.0.status), sent_nodes ns h.1)

sent-IsMessage : (m : GossipMessage) → IsSent m → IsMessage (untimed_message m)
sent-IsMessage m h = (h.sized, h.type, sent_nodes m.entries h.nodes)

-- With memory, the C message that is given back shows the message.
hand_back-Shows :
    (grants : ℕ → Bool) (m : GossipMessage) (old : CMessage) (mem : Memory)
    → ((k : ℕ) → grants k ≡ true)
    → IsMessage m
    → (c : CMessage) × (mem' : Memory) × (hand_back grants (SerializationError.success, m) old mem
        ≡ (ErrorCode.success, c, mem'))
      × Shows m c
unfolding hand_back malloc fill_message
hand_back-Shows grants m old mem granted h = elim (Bool-cases (length m.entries == 0)) [
  | inl few ↦
      let none_there = no_nodes m.entries few in
      (
        c_message m none 0,
        mem,
        if_true _ _ few,
        (without_entries m none_there h, sym (ap length none_there)),
      )
  | inr many ↦ (
    c_message m (some (map to_c_node_view m.entries)) (length m.entries),
    record { asked = mem.asked + 1; live = mem.live + 1 },
    if_false _ _ many ∙ ap (fill_message m) (if_true _ _ (granted mem.asked)),
    (to_cpp_message-c_message m h, refl),
  )
]

-- With memory, the text of a message is handed out whole.
handed_out :
    (grants : ℕ → Bool) {r : SerializationError × Bytes} {bytes : Bytes} (mem : Memory)
    → ((k : ℕ) → grants k ≡ true)
    → r ≡ (SerializationError.success, bytes)
    → hand_out grants r mem ≡ (
      ErrorCode.success,
      some (record { block = some bytes; data_size = length bytes }),
      record { asked = mem.asked + 1; live = mem.live + 1 },
    )
unfolding hand_out copied malloc
handed_out grants {r} {bytes} mem granted e =
    ap (λ r. hand_out grants r mem) e ∙ ap (copied bytes) (if_true _ _ (granted mem.asked))

module _ {V : Type 0} (lib : JsonLibrary V) (stoi : Bytes → Option ℤ) (doc : IsDocumented lib)
    (reads : ReadsHex stoi) where
  -- Over a JSON library and a std::stoi that are as documented, and with memory: a C message whose
  -- entries can be read as a message with ids and numbers in their ranges, whose JSON value is
  -- dumped as a text that is not empty and is parsed as that value, is serialized as this text, and
  -- deserializing the text succeeds and gives a C message that has as many entries and reads back
  -- as the message, with the times of its entries zero and their texts clipped.
  pub gossip_serializer_deserialize-serialize :
      (grants : ℕ → Bool) (c old : CMessage) (mem : Memory) {entries : List NodeView} {b : ℕ}
      {bs : Bytes}
      → let m = with_entries c.sender c.type c.timestamp entries in
        let json = json_serializer lib stoi in
        ((k : ℕ) → grants k ≡ true)
        → guarded_entries c ≡ some entries
        → IsSent m
        → lib.dump (message_to_json lib stoi m) ≡ some (b ∷ bs)
        → lib.parse (b ∷ bs) ≡ some (message_to_json lib stoi m)
        → (mem1 mem2 : Memory) × (c' : CMessage) × (gossip_serializer_serialize grants
              (some json)
              (some c)
              true
              true
              mem
            ≡ some (
              ErrorCode.success,
              some (record { block = some (b ∷ bs); data_size = length (b ∷ bs) }),
              mem1,
            ))
          × (gossip_serializer_deserialize grants
                (some json)
                (some (b ∷ bs))
                (length (b ∷ bs))
                (some old)
                mem1
              ≡ some (ErrorCode.success, some c', mem2))
          × Shows (untimed_message m) c'
  unfolding gossip_serializer_serialize hand_out copied malloc gossip_serializer_deserialize
      json_serializer
  gossip_serializer_deserialize-serialize grants c old mem {entries} {b} {bs} granted read h written
        parsed =
      let m = with_entries c.sender c.type c.timestamp entries in
      let (sent, got) = deserialize-serialize lib stoi doc reads m h written parsed in
      let mem1 : Memory = record { asked = mem.asked + 1; live = mem.live + 1 } in
      let (c', mem2, back, shown) =
        hand_back-Shows grants (untimed_message m) old mem1 granted (sent-IsMessage m h) in
      (
        mem1,
        mem2,
        c',
        ap (Option.map _) read ∙ ap some (handed_out grants mem granted sent),
        ap (Option.map _) (read_data_all (b ∷ bs))
            ∙ ap (λ r. let q = hand_back grants r old mem1 in some (q.0, some q.1, q.2)) got
            ∙ ap (λ (q : ErrorCode × CMessage × Memory). some (q.0, some q.1, q.2)) back,
        shown,
      )
