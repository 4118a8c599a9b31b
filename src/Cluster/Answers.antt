-- ===== src/Cluster/Answers.antt =====
-- handle_message keeps a property of records and of messages that speaks of ids, addresses, epochs
-- and heartbeats: what is answered is honest.
use libgossip.Base.{ℕ, sym, subst, inl, inr, Option, none, some, get_elem?, Bool-cases}
use libgossip.Cluster.Handles.{
  Speaks, Honest, Honest-OnlyEvents, find_sender_told, touch_at_told, IsTold,
}
use libgossip.Cluster.Ledger.{ledger_learn_all, peers_told, IsLedger}
use libgossip.Core.Handle.{
  is_greeting, find_sender, wants_pong, pong_to, reply, process, unless_unknown, handle_message,
}
use libgossip.Core.Handle.Reply.{counted, absorbed, Listened-absorbed}
use libgossip.Core.Handle.Sender.{Listened-find_sender}
use libgossip.Core.State.{Effect, Core, Env, IsStd}
use libgossip.Node.{NodeId, NodeView, GossipMessage}

module _ (P : NodeView → Type 0) (Q : NodeId → ℕ → Type 0) (ledger : IsLedger P Q) where
  pong_to_told :
      (env : Env) (target : Option NodeView) (msg : GossipMessage) (s : Core)
      → IsStd env
      → P s.self
      → Q s.self.id s.self.heartbeat
      → IsTold P Q s
      → IsTold P Q (pong_to env target msg s)
  unfolding pong_to
  pong_to_told env none msg s std p q h = h
  pong_to_told env (some target) msg s std p q h = record {
    nodes = h.nodes;
    trace =
        ((q, (p, peers_told P Q ledger env s.sync_nodes (some msg.sender) s std h.nodes)), h.trace);
  }

  reply_told :
      (env : Env) (i : Option ℕ) (msg : GossipMessage) (s : Core)
      → IsStd env
      → P s.self
      → Q s.self.id s.self.heartbeat
      → IsTold P Q s
      → IsTold P Q (reply env i msg s)
  unfolding reply
  reply_told env none msg s std p q h = h
  reply_told env (some i) msg s std p q h = elim (Bool-cases (wants_pong msg)) [
    | inl w ↦ rw w (pong_to_told env (get_elem? s.nodes i) msg s std p q h)
    | inr w ↦ rw w h
  ]

  process_told :
      (env : Env) (msg : GossipMessage) (recv : ℕ) (i : Option ℕ) (s : Core)
      → IsStd env
      → P s.self
      → Q s.self.id s.self.heartbeat
      → Honest P Q (Effect.sent msg s.self)
      → Speaks msg.sender i s.nodes
      → IsTold P Q s
      → IsTold P Q (process env msg recv i s)
  unfolding process
  process_told env msg recv i s std p q m k h =
      let heard = Listened-absorbed msg recv i s in
      reply_told env i msg (absorbed msg recv i s) std (subst P (sym heard.self) p)
        (subst (λ n. Q n.id n.heartbeat) (sym heard.self) q)
        (record {
          nodes =
              ledger_learn_all P Q ledger msg.entries recv _ m.1
                (touch_at_told P Q ledger i msg recv s m.0 k h.nodes);
          trace = Honest-OnlyEvents P Q heard.events h.trace;
        })

  -- A message that is honest leaves honest records, and what is answered is honest.
  pub handle_message_told :
      (env : Env) (msg : GossipMessage) (recv : ℕ) (s : Core)
      → IsStd env
      → P s.self
      → Q s.self.id s.self.heartbeat
      → Honest P Q (Effect.sent msg s.self)
      → IsTold P Q s
      → IsTold P Q (handle_message env msg recv s)
  unfolding handle_message unless_unknown
  handle_message_told env msg recv s std p q m h =
      let found = find_sender_told P Q ledger msg recv (counted s) m.0 m.1 h.nodes in
      let heard = Listened-find_sender msg recv (counted s) in
      let p' = subst P (sym heard.self) p in
      let q' = subst (λ n. Q n.id n.heartbeat) (sym heard.self) q in
      let here : IsTold P Q (find_sender msg recv (counted s)).1 = record {
        nodes = found.0;
        trace = Honest-OnlyEvents P Q heard.events h.trace;
      } in
      go (find_sender msg recv (counted s)).0 (find_sender msg recv (counted s)).1 p' q' found.1
        here
    where
      go :
          (i : Option ℕ) (t : Core)
          → P t.self
          → Q t.self.id t.self.heartbeat
          → Speaks msg.sender i t.nodes
          → IsTold P Q t
          → IsTold P Q (unless_unknown env msg recv i t)
      go (some i) t p q k h = process_told env msg recv (some i) t std p q m k h
      go none t p q k h = elim (Bool-cases (is_greeting msg)) [
        | inl g ↦ rw g (process_told env msg recv none t std p q m tt h)
        | inr g ↦ rw g h
      ]
