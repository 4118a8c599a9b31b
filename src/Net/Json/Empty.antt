-- ===== src/Net/Json/Empty.antt =====
-- A packet without a body, as a transport with the JSON serializer takes it.
use libgossip.Base.{
  ℕ, ◌≡◌, refl, ap, ◌∙◌, Option, some, List, [], ◌∷◌, arith, ℕ_discrete, ℤ, get_elem?, find_index,
  get_elem?-modify_self, Bytes,
}
use libgossip.Core.Handle.{learn_all, touch, pong_to, handle_message}
use libgossip.Core.Handle.Reply.{counted, absorbed, process-eq_pong, handle_message-known}
use libgossip.Core.Handle.Sender.{touch-Touched, nodes-touch_at}
use libgossip.Core.State.{tick_clock, send, Core, Env}
use libgossip.Core.Update.{has_id}
use libgossip.Net.Frame.{make_packet, receive_bytes}
use libgossip.Net.Json.{blank_message, deserialize, json_serializer}
use libgossip.Net.Json.Library.{JsonLibrary}
use libgossip.Net.Send.Arrival.{arrives}
use libgossip.Node.{blank_node, type_discrete, NodeStatus, MessageType, NodeView, GossipMessage}

nodes-pong_to :
    (env : Env) (target : NodeView) (msg : GossipMessage) (s : Core)
    → (pong_to env (some target) msg s).nodes ≡ s.nodes
unfolding pong_to send
nodes-pong_to env target msg s = refl

abbrev pub empty_ping : GossipMessage
empty_ping = record {
  sender = 0 ∷ 0 ∷ 0 ∷ 0 ∷ 0 ∷ 0 ∷ 0 ∷ 0 ∷ 0 ∷ 0 ∷ 0 ∷ 0 ∷ 0 ∷ 0 ∷ 0 ∷ 0 ∷ [];
  type = MessageType.ping;
  timestamp = 0;
  entries = [];
}

-- With the JSON serializer, a packet without a body comes to one call of handle_message with a ping
-- of the all-zero id, of time zero and without entries; and when the first recorded node with that
-- id is joining, it is online after the packet, with the same id.
pub empty_packet_wakes :
    {V : Type 0} (lib : JsonLibrary V) (stoi : Bytes → Option ℤ) (env : Env) (s : Core) {i : ℕ}
    {n : NodeView}
    → find_index (has_id blank_node.id) s.nodes ≡ some i
    → get_elem? s.nodes i ≡ some n
    → n.status ≡ NodeStatus.joining
    → (receive_bytes env (json_serializer lib stoi) (make_packet []) s
        ≡ handle_message env empty_ping (env.now s.reads) (tick_clock s))
      × (n' : NodeView) × (get_elem?
            (receive_bytes env (json_serializer lib stoi) (make_packet []) s).nodes
            i
          ≡ some n')
      × (n'.status ≡ NodeStatus.online)
      × (n'.id ≡ n.id)
unfolding json_serializer deserialize type_discrete ℕ_discrete learn_all touch
empty_packet_wakes lib stoi env s {i} {n} known at joining =
    let ping = blank_message lib stoi in
    let t = tick_clock s in
    let now = env.now s.reads in
    let n' = (touch ping now n (counted t)).0 in
    let touched = touch-Touched ping now n (counted t) in
    let there : get_elem? (absorbed ping now (some i) (counted t)).nodes i ≡ some n' =
      rw (nodes-touch_at i ping now (counted t) at)
        (rw (get_elem?-modify_self i (λ _. n') s.nodes, at) refl) in
    let heard = arrives env (json_serializer lib stoi) ping s [] refl (omega arith) in
    let course =
      heard
      ∙ handle_message-known env ping now t known
      ∙ process-eq_pong env ping now i (counted t) refl there in
    (
      heard,
      n',
      ap (λ (c : Core). get_elem? c.nodes i) course
          ∙ ap (λ (ns : List NodeView). get_elem? ns i) (nodes-pong_to env n' ping _)
          ∙ there,
      ground (arith, touched.fate, joining),
      touched.same_node.0,
    )
