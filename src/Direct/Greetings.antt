-- ===== src/Direct/Greetings.antt =====
-- Who is sent the answer to a greeting.
use libgossip.Base.{
  ℕ, ◌≡◌, refl, sym, ap, subst, ◌∙◌, fun_ext, ◌⊎◌, inl, inr, true, some, List, [], ◌∷◌, arith,
  get_elem?, find_index, get_elem?-modify_self, All, All-get_elem?, Option-cases,
}
use libgossip.Cluster.Handles.{Speaks, find_sender_told, touch_at_told}
use libgossip.Cluster.Ledger.{ledger_learn, learn-keeps_sender, IsLedger}
use libgossip.Core.Handle.{
  is_greeting, learn, learn_all, introduce, find_sender, touch, touch_at, pong_to, process,
  unless_unknown, handle_message,
}
use libgossip.Core.Handle.Reply.{counted, absorbed, Listened-absorbed, process-eq_pong}
use libgossip.Core.Handle.Sender.{touch-Touched, Listened-find_sender, nodes-touch_at}
use libgossip.Core.State.{select_random_peers, Effect, Core, Env}
use libgossip.Core.State.Frame.{OnlyEvents-trans, same_id-eq, OnlyEvents}
use libgossip.Core.Tick.{own_message}
use libgossip.Core.Update.{has_id, update_node}
use libgossip.Node.{NodeId, MessageType, NodeView, GossipMessage}

-- Records that name this node by its id or its address name it by both.
abbrev pub Knows : NodeView → NodeView → Type 0
Knows self n =
    (n.id ≡ self.id) ⊎ ((n.ip ≡ self.ip) × (n.port ≡ self.port))
    → (n.id ≡ self.id) × (n.ip ≡ self.ip) × (n.port ≡ self.port)

Knows-prop : (self n : NodeView) → IsProp (Knows self n)
Knows-prop self n f g = fun_ext (λ m. hlevel)

Knows-same :
    (self n n' : NodeView)
    → n'.id ≡ n.id
    → n'.ip ≡ n.ip
    → n'.port ≡ n.port
    → Knows self n
    → Knows self n'
Knows-same self n n' a b d p (inl id) = let (x, y, z) = p (inl (sym a ∙ id)) in (id, b ∙ y, d ∙ z)
Knows-same self n n' a b d p (inr (ip, port)) =
    let (x, y, z) = p (inr (sym b ∙ ip, sym d ∙ port)) in (a ∙ x, ip, port)

Knows-renamed :
    (self remote n : NodeView)
    → Knows self remote
    → n.ip ≡ remote.ip
    → n.port ≡ remote.port
    → Knows self (record n { id = remote.id })
Knows-renamed self remote n r a b (inl id) = let (x, y, z) = r (inl id) in (id, a ∙ y, b ∙ z)
Knows-renamed self remote n r a b (inr (ip, port)) =
    let (x, y, z) = r (inr (sym a ∙ ip, sym b ∙ port)) in (x, ip, port)

Knows-IsLedger : (self : NodeView) → IsLedger (Knows self) (λ id ts. id ≡ self.id)
Knows-IsLedger self = record {
  prop = Knows-prop self;
  same = λ n n' a b d e f p. Knows-same self n n' a b d p;
  renamed = λ remote n r p a b. Knows-renamed self remote n r a b;
  spoken = λ n n' q a b d e p. Knows-same self n n' a b d p;
  settled = λ remote n {ts} q r p a b.
      let (x, y, z) = p (inl q) in (r (inr (sym a ∙ y, sym b ∙ z))).0 ∙ sym q;
}

-- The sender of a greeting that carries the sender is always found.
find_sender-greeting :
    (msg : GossipMessage) (recv : ℕ) (self : NodeView) (s : Core)
    → is_greeting msg ≡ true
    → msg.sender ≡ self.id
    → msg.entries ≡ self ∷ []
    → (k : ℕ) × ((find_sender msg recv s).0 ≡ some k)
unfolding find_sender
find_sender-greeting msg recv self s g is_self single =
    elim (Option-cases (find_index (has_id msg.sender) s.nodes)) [
      | inr (i, e) ↦ (i, rw (e, find_sender) refl)
      | inl e ↦ (
        (update_node self recv s).1,
        rw (e, find_sender)
            (rw (g, single, introduce) (rw (same_id-eq self.id msg.sender (sym is_self)) refl)),
      )
    ]

-- The record of the sender after its message was absorbed.
sender_after :
    (self : NodeView) (msg : GossipMessage) (recv k : ℕ) (s : Core)
    → msg.sender ≡ self.id
    → msg.entries ≡ self ∷ []
    → All (Knows self) s.nodes
    → Speaks msg.sender (some k) s.nodes
    → (n : NodeView) × (get_elem? (absorbed msg recv (some k) s).nodes k ≡ some n)
      × (n.port ≡ self.port)
unfolding learn_all
sender_after self msg recv k s is_self single h (n, at, is_sender) =
    let P = Knows self in
    let Q : NodeId → ℕ → Type 0 = λ id ts. id ≡ self.id in
    let ledger = Knows-IsLedger self in
    let n' = (touch msg recv n s).0 in
    let t = touch_at (some k) msg recv s in
    let there : get_elem? t.nodes k ≡ some n' =
      rw (nodes-touch_at k msg recv s at)
        (rw (get_elem?-modify_self k (λ _. n') s.nodes, at) refl) in
    let is_n' : n'.id ≡ self.id = (touch-Touched msg recv n s).same_node.0 ∙ is_sender ∙ is_self in
    let touched = touch_at_told P Q ledger (some k) msg recv s is_self (n, at, is_sender) h in
    let own : Knows self self = λ _. (refl, refl, refl) in
    let (m, at_m, same) =
      learn-keeps_sender P Q ledger self recv t k {n = n'} {ts = 0} is_n' own touched there in
    let known =
      All-get_elem? P k (learn self recv t).nodes at_m
        (ledger_learn P Q ledger self recv t own touched) in
    (
      m,
      subst (λ es. get_elem? (learn_all es recv t).nodes k ≡ some m) (sym single) at_m,
      (known (inl (same ∙ is_n'))).2,
    )

-- A greeting that carries its sender is answered by a pong to the sender's port.
pub greeting_answered :
    (env : Env) (msg : GossipMessage) (recv : ℕ) (self : NodeView) (s : Core)
    → is_greeting msg ≡ true
    → msg.sender ≡ self.id
    → msg.entries ≡ self ∷ []
    → All (Knows self) s.nodes
    → (pong : GossipMessage) × (target : NodeView) × (before : List Effect) × (target.port
        ≡ self.port)
      × OnlyEvents s.trace before
      × ((handle_message env msg recv s).trace ≡ Effect.sent pong target ∷ before)
unfolding handle_message pong_to
greeting_answered env msg recv self s g is_self single h =
    let own : Knows self self = λ _. (refl, refl, refl) in
    let (k, found) = find_sender-greeting msg recv self (counted s) g is_self single in
    let s' = (find_sender msg recv (counted s)).1 in
    let (recorded, speaks) =
      find_sender_told (Knows self) (λ id ts. id ≡ self.id) (Knows-IsLedger self) msg recv
        (counted s) is_self (subst (All (Knows self)) (sym single) (own, tt)) h in
    let (target, at, port) =
      sender_after self msg recv k s' is_self single recorded
        (subst (λ i. Speaks msg.sender i s'.nodes) found speaks) in
    let before = absorbed msg recv (some k) s' in
    let course : handle_message env msg recv s ≡ process env msg recv (some k) s' =
      rw (found, unless_unknown) refl in
    let answer = course ∙ process-eq_pong env msg recv k s' (ground (arith, g)) at in
    (
      own_message MessageType.pong
          (select_random_peers env before.sync_nodes (some msg.sender) before) before,
      target,
      before.trace,
      port,
      OnlyEvents-trans (Listened-find_sender msg recv (counted s)).events
          (Listened-absorbed msg recv (some k) s').events,
      ap (λ c. c.trace) answer,
    )
