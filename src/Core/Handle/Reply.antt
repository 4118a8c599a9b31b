-- ===== src/Core/Handle/Reply.antt =====
-- The course of handle_message as a whole: what it sends and to whom.
use libgossip.Base.{
  ℕ, ◌≤◌, ◌≡◌, refl, ap, ◌∙◌, ◌⊎◌, inl, inr, true, false, Option, none, some, List, [], ◌∷◌, arith,
  length, get_elem?, find_index, length-modify, find_index-get_elem?, get_elem?-lt,
  get_elem?-some-lt, Bool-cases, Option-cases,
}
use libgossip.Core.Handle.{
  is_greeting, same_address, rename_at, adopt_id, learn, learn_all, recognise, find_sender,
  touch_at, wants_pong, pong_to, process, unless_unknown, handle_message,
}
use libgossip.Core.Handle.Learn.{Listened-learn_all}
use libgossip.Core.Handle.Sender.{recognise-learn_all, Listened-find_sender, Listened-touch_at}
use libgossip.Core.State.{inc64, send, select_random_peers, Effect, Core, Env, IsStd}
use libgossip.Core.State.Frame.{Listened-refl, Listened-trans, OnlyEvents, Listened}
use libgossip.Core.State.Peers.{IsSample, select_random_peers-IsSample}
use libgossip.Core.Tick.{own_message}
use libgossip.Core.Update.{has_id}
use libgossip.Core.Update.Laws.{length-update_node}
use libgossip.Node.{MessageType, NodeView, GossipMessage}

-- The state when the search for the sender begins.
abbrev pub counted : Core → Core
counted s = record s { received_messages = inc64 s.received_messages }

-- All of a message's processing but the pong.
abbrev pub absorbed : GossipMessage → ℕ → Option ℕ → Core → Core
absorbed msg recv sender s = learn_all msg.entries recv (touch_at sender msg recv s)

pub Listened-absorbed :
    (msg : GossipMessage) (recv : ℕ) (sender : Option ℕ) (s : Core)
    → Listened s (absorbed msg recv sender s)
Listened-absorbed msg recv sender s =
    Listened-trans (Listened-touch_at sender msg recv s) (Listened-learn_all msg.entries recv _)

length-learn-le :
    (remote : NodeView) (recv : ℕ) (s : Core) → length s.nodes ≤ length (learn remote recv s).nodes
unfolding learn
length-learn-le remote recv s = elim (length-update_node remote recv (adopt_id remote s)) [
  | inl (_, e) ↦ omega (arith, e, renamed (find_index (same_address remote) s.nodes))
  | inr (_, e) ↦ omega (arith, e, renamed (find_index (same_address remote) s.nodes))
]
  where
    renamed : (i : Option ℕ) → length (rename_at i remote s).nodes ≡ length s.nodes
    renamed none = refl
    renamed (some i) = length-modify i _ s.nodes

pub length-learn_all-le :
    (entries : List NodeView) (recv : ℕ) (s : Core)
    → length s.nodes ≤ length (learn_all entries recv s).nodes
unfolding learn_all
length-learn_all-le [] recv s = omega arith
length-learn_all-le (r ∷ rs) recv s =
    omega (arith, length-learn-le r recv s, length-learn_all-le rs recv (learn r recv s))

length-touch_at :
    (i : Option ℕ) (msg : GossipMessage) (recv : ℕ) (s : Core)
    → length (touch_at i msg recv s).nodes ≡ length s.nodes
unfolding touch_at
length-touch_at none msg recv s = refl
length-touch_at (some i) msg recv s = elim (Option-cases (get_elem? s.nodes i)) [
  | inl e ↦ rw (e, touch_at) refl
  | inr (n, e) ↦ rw (e, touch_at) (length-modify i _ s.nodes)
]

-- The answer to a greeting or a ping: this node first, and further nodes that are not the sender.
pub record IsPong (msg : GossipMessage) (s : Core) (pong : GossipMessage) : Type 0 where
  pub sender : pong.sender ≡ s.self.id
  pub type : pong.type ≡ MessageType.pong
  pub timestamp : pong.timestamp ≡ s.self.heartbeat
  pub extras : List NodeView
  pub entries : pong.entries ≡ s.self ∷ extras
  pub sample : IsSample s.sync_nodes msg.sender s.nodes extras

pong_to-IsPong :
    (env : Env) (target : NodeView) (msg : GossipMessage) (s : Core)
    → IsStd env
    → (pong : GossipMessage) × IsPong msg (pong_to env (some target) msg s) pong
      × ((pong_to env (some target) msg s).trace ≡ Effect.sent pong target ∷ s.trace)
      × ((pong_to env (some target) msg s).sent_messages ≡ inc64 s.sent_messages)
      × ((pong_to env (some target) msg s).nodes ≡ s.nodes)
      × ((pong_to env (some target) msg s).self ≡ s.self)
      × ((pong_to env (some target) msg s).sync_nodes ≡ s.sync_nodes)
unfolding pong_to send
pong_to-IsPong env target msg s std =
    let extras = select_random_peers env s.sync_nodes (some msg.sender) s in
    (
      own_message MessageType.pong extras s,
      record {
        sender = refl;
        type = refl;
        timestamp = refl;
        extras = extras;
        entries = refl;
        sample = select_random_peers-IsSample env s.sync_nodes msg.sender s std;
      },
      refl,
      refl,
      refl,
      refl,
      refl,
    )

pub process-eq_pong :
    (env : Env) (msg : GossipMessage) (recv i : ℕ) (s : Core) {target : NodeView}
    → wants_pong msg ≡ true
    → get_elem? (absorbed msg recv (some i) s).nodes i ≡ some target
    → process env msg recv (some i) s ≡ pong_to env (some target) msg (absorbed msg recv (some i) s)
unfolding process
process-eq_pong env msg recv i s {target} w e = rw (w, e) refl

pub process-silent :
    (env : Env) (msg : GossipMessage) (recv : ℕ) (sender : Option ℕ) (s : Core)
    → wants_pong msg ≡ false
    → process env msg recv sender s ≡ absorbed msg recv sender s
unfolding process
process-silent env msg recv none s w = refl
process-silent env msg recv (some i) s w = rw w refl

pub handle_message-known :
    (env : Env) (msg : GossipMessage) (recv : ℕ) (s : Core) {i : ℕ}
    → find_index (has_id msg.sender) s.nodes ≡ some i
    → handle_message env msg recv s ≡ process env msg recv (some i) (counted s)
unfolding handle_message
handle_message-known env msg recv s e = rw (e, find_sender) refl

-- With a standard library as documented: a ping, a meet or a join from a node whose id is known is
-- answered by exactly one pong, after which nothing more is sent or reported and before which only
-- events are; it goes to the sender's node as the message has left it, carries this node and then
-- nodes of the list, as the message has left it, with other ids than the sender: as many as
-- sync_nodes allows, or all of them if they are fewer, and none more often than the list has it;
-- this node stays as it is, and the count of sent messages moves by one.
pub handle_message-IsPong :
    (env : Env) (msg : GossipMessage) (recv : ℕ) (s : Core) {i : ℕ}
    → IsStd env
    → find_index (has_id msg.sender) s.nodes ≡ some i
    → wants_pong msg ≡ true
    → let s' = handle_message env msg recv s in
      (pong : GossipMessage) × (target : NodeView) × (earlier : List Effect) × IsPong msg s' pong
      × (get_elem? s'.nodes i ≡ some target)
      × (s'.trace ≡ Effect.sent pong target ∷ earlier)
      × OnlyEvents s.trace earlier
      × (s'.self ≡ s.self)
      × (s'.sync_nodes ≡ s.sync_nodes)
      × (s'.sent_messages ≡ inc64 s.sent_messages)
handle_message-IsPong env msg recv s {i} std e w =
    let before = absorbed msg recv (some i) (counted s) in
    let heard = Listened-absorbed msg recv (some i) (counted s) in
    let (n, at, _) = find_index-get_elem? (has_id msg.sender) s.nodes e in
    let (target, found) = get_elem?-lt before.nodes i (
      omega (
        arith,
        get_elem?-some-lt s.nodes i at,
        length-touch_at (some i) msg recv (counted s),
        length-learn_all-le msg.entries recv (touch_at (some i) msg recv (counted s)),
      )) in
    let (pong, good, trace, sent, nodes, self, sync) = pong_to-IsPong env target msg before std in
    let course =
      handle_message-known env msg recv s e ∙ process-eq_pong env msg recv i (counted s) w found in
    (
      pong,
      target,
      before.trace,
      rw course good,
      rw course (rw nodes found),
      rw course trace,
      heard.events,
      rw course (self ∙ heard.self),
      rw course (sync ∙ heard.sync_nodes),
      rw course (sent ∙ ap inc64 heard.sent_messages),
    )

unless_unknown-Listened :
    (env : Env) (msg : GossipMessage) (recv : ℕ) (sender : Option ℕ) (s : Core)
    → (wants_pong msg ≡ false) ⊎ (sender ≡ none)
    → Listened s (unless_unknown env msg recv sender s)
unfolding unless_unknown
unless_unknown-Listened env msg recv none s h = elim (Bool-cases (is_greeting msg)) [
  | inl g ↦ rw g (Listened-absorbed msg recv none s)
  | inr g ↦ rw g (Listened-refl s)
]
unless_unknown-Listened env msg recv (some i) s (inl w) =
    rw (process-silent env msg recv (some i) s w) (Listened-absorbed msg recv (some i) s)
unless_unknown-Listened env msg recv (some i) s (inr e) = cc

-- A message of a type that wants no pong, or one whose sender stays unknown, is answered by
-- nothing: besides the node list and the count of received messages only events are added.
pub handle_message_silent :
    (env : Env) (msg : GossipMessage) (recv : ℕ) (s : Core)
    → (wants_pong msg ≡ false) ⊎ ((find_sender msg recv (counted s)).0 ≡ none)
    → Listened (counted s) (handle_message env msg recv s)
unfolding handle_message
handle_message_silent env msg recv s h =
    Listened-trans (Listened-find_sender msg recv (counted s))
      (unless_unknown-Listened env msg recv _ _ h)

-- A message that is no greeting, whose sender is not known by its id and is not recognised by an
-- address, is not answered and touches no sender: the state is that after the message was counted
-- and every entry was learnt from.
handle_message_unknown :
    (env : Env) (msg : GossipMessage) (recv : ℕ) (s : Core)
    → is_greeting msg ≡ false
    → find_index (has_id msg.sender) s.nodes ≡ none
    → (recognise msg.sender msg.entries recv none (counted s)).0 ≡ none
    → handle_message env msg recv s ≡ learn_all msg.entries recv (counted s)
unfolding handle_message
handle_message_unknown env msg recv s g e r =
    rw (e, find_sender)
      (rw (g, r, unless_unknown)
        (rw g (recognise-learn_all msg.sender msg.entries recv none (counted s))))
