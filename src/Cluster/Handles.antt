-- ===== src/Cluster/Handles.antt =====
-- The search for a message's sender, and what becomes of its record, keep a property of records that
-- speaks of ids, addresses, epochs and heartbeats.
use libgossip.Base.{
  ℕ, ◌≡◌, refl, sym, subst, ◌∙◌, inl, inr, Option, none, some, List, [], ◌∷◌, arith, get_elem?,
  find_index, get_elem?-modify_self, find_index-get_elem?, All, All-modify, Bool-cases,
  Option-cases,
}
use libgossip.Cluster.Ledger.{
  update-keeps_id, ledger_update_node, ledger_learn, learn-keeps_sender, IsLedger,
}
use libgossip.Core.Handle.{
  is_greeting, same_address, rename_at, adopt_id, learn, introduce, sender_at, recognise,
  find_sender, touch, touch_at,
}
use libgossip.Core.Handle.Sender.{touch-Touched, nodes-touch_at}
use libgossip.Core.State.{same_id, Effect, Core}
use libgossip.Core.State.Frame.{OnlyEvents, none_raised, raised}
use libgossip.Core.Update.{has_id}
use libgossip.Core.Update.Laws.{get_elem?-update_node}
use libgossip.Node.{NodeId, NodeView, GossipMessage}

-- The index of the sender's record, if there is one.
abbrev pub Speaks : NodeId → Option ℕ → List NodeView → Type 0
Speaks sender none ns = Unit
Speaks sender (some i) ns = (n : NodeView) × (get_elem? ns i ≡ some n) × (n.id ≡ sender)

-- A message that was sent has an honest timestamp and honest entries.
abbrev pub Honest : (NodeView → Type 0) → (NodeId → ℕ → Type 0) → Effect → Type 0
Honest P Q (Effect.sent msg target) = Q msg.sender msg.timestamp × All P msg.entries
Honest P Q (Effect.event node st) = Unit

-- What a node records and what it has sent.
pub record IsTold (P : NodeView → Type 0) (Q : NodeId → ℕ → Type 0) (s : Core) : Type 0 where
  pub nodes : All P s.nodes
  pub trace : All (Honest P Q) s.trace

module _ (P : NodeView → Type 0) (Q : NodeId → ℕ → Type 0) where
  pub Honest-OnlyEvents :
      {before after : List Effect}
      → OnlyEvents before after
      → All (Honest P Q) before
      → All (Honest P Q) after
  Honest-OnlyEvents none_raised h = h
  Honest-OnlyEvents (raised n st q) h = (tt, Honest-OnlyEvents q h)

module _ (P : NodeView → Type 0) (Q : NodeId → ℕ → Type 0) (ledger : IsLedger P Q) where
  introduce_told :
      (sender : NodeId) (entries : List NodeView) (recv : ℕ) (s : Core)
      → All P entries
      → All P s.nodes
      → let r = introduce sender entries recv s in All P r.1.nodes × Speaks sender r.0 r.1.nodes
  unfolding introduce
  introduce_told sender [] recv s r h = (h, tt)
  introduce_told sender (e ∷ es) recv s r h = elim (Bool-cases (same_id e.id sender)) [
    | inr f ↦ rw f (introduce_told sender es recv s r.1 h)
    | inl t ↦
        let (n, at, same, _, _) = get_elem?-update_node e recv s in
        let is_sender : e.id ≡ sender = ground (arith, t) in
        rw t (ledger_update_node P Q ledger e recv s r.0 h, (n, at, same ∙ is_sender))
  ]

  -- The entry of the sender at a known address: the record there is the sender's from then on.
  adopted :
      (sender : NodeId) (e : NodeView) (recv : ℕ) (s : Core) {i : ℕ}
      → find_index (same_address e) s.nodes ≡ some i
      → e.id ≡ sender
      → Speaks sender (some i) (learn e recv s).nodes
  unfolding learn adopt_id rename_at
  adopted sender e recv s {i} found is_sender =
      let (x, at, _) = find_index-get_elem? (same_address e) s.nodes found in
      let renamed : NodeView = record x { id = e.id } in
      let there : get_elem? (adopt_id e s).nodes i ≡ some renamed =
        rw found (rw (get_elem?-modify_self i (λ n. record n { id = e.id }) s.nodes, at) refl) in
      let (n', at', same) = update-keeps_id e recv (adopt_id e s) i {n = renamed} there in
      (n', at', same ∙ is_sender)

  sender_at_told :
      (sender : NodeId) (ts : ℕ) (e : NodeView) (recv : ℕ) (known : Option ℕ) (s : Core)
      → Q sender ts
      → P e
      → All P s.nodes
      → Speaks sender known s.nodes
      → Speaks sender
          (sender_at (find_index (same_address e) s.nodes) e sender known)
          (learn e recv s).nodes
  unfolding sender_at
  sender_at_told sender ts e recv known s q r h k =
      elim (Option-cases (find_index (same_address e) s.nodes)) [
        | inl none_there ↦ rw (none_there, sender_at) (kept known k)
        | inr (i, found) ↦ elim (Bool-cases (same_id e.id sender)) [
          | inl t ↦ rw (found, sender_at) (rw t (adopted sender e recv s found (ground (arith, t))))
          | inr f ↦ rw (found, sender_at) (rw f (kept known k))
        ]
      ]
    where
      kept : (o : Option ℕ) → Speaks sender o s.nodes → Speaks sender o (learn e recv s).nodes
      kept none k = tt
      kept (some i) (n, at, is_sender) =
          let (n', at', same) =
            learn-keeps_sender P Q ledger e recv s i {n = n} {ts = ts}
              (subst (λ id. Q id ts) (sym is_sender) q) r h at in
          (n', at', same ∙ is_sender)

  recognise_told :
      (sender : NodeId) (ts : ℕ) (entries : List NodeView) (recv : ℕ) (known : Option ℕ) (s : Core)
      → Q sender ts
      → All P entries
      → All P s.nodes
      → Speaks sender known s.nodes
      → let r = recognise sender entries recv known s in
        All P r.1.nodes × Speaks sender r.0 r.1.nodes
  unfolding recognise
  recognise_told sender ts [] recv known s q r h k = (h, k)
  recognise_told sender ts (e ∷ es) recv known s q r h k =
      recognise_told sender ts es recv _ (learn e recv s) q r.1
        (ledger_learn P Q ledger e recv s r.0 h) (sender_at_told sender ts e recv known s q r.0 h k)

  pub find_sender_told :
      (msg : GossipMessage) (recv : ℕ) (s : Core)
      → Q msg.sender msg.timestamp
      → All P msg.entries
      → All P s.nodes
      → let r = find_sender msg recv s in All P r.1.nodes × Speaks msg.sender r.0 r.1.nodes
  unfolding find_sender
  find_sender_told msg recv s q r h = elim (Option-cases (find_index (has_id msg.sender) s.nodes)) [
    | inr (i, e) ↦
        let (n, at, passed) = find_index-get_elem? (has_id msg.sender) s.nodes e in
        rw (e, find_sender) (h, (n, at, ground (arith, passed)))
    | inl e ↦ elim (Bool-cases (is_greeting msg)) [
      | inl g ↦ rw (e, find_sender) (rw g (introduce_told msg.sender msg.entries recv s r h))
      | inr g ↦
          rw (e, find_sender)
            (rw g (recognise_told msg.sender msg.timestamp msg.entries recv none s q r h tt))
    ]
  ]

  pub touch_at_told :
      (i : Option ℕ) (msg : GossipMessage) (recv : ℕ) (s : Core)
      → Q msg.sender msg.timestamp
      → Speaks msg.sender i s.nodes
      → All P s.nodes
      → All P (touch_at i msg recv s).nodes
  unfolding touch_at
  touch_at_told none msg recv s q k h = h
  touch_at_told (some i) msg recv s q (n, at, is_sender) h =
      rw (nodes-touch_at i msg recv s at)
        (All-modify P i _ s.nodes (λ x there p. touched x (ground (arith, at, there)) p) h)
    where
      touched : (x : NodeView) → x ≡ n → P x → P (touch msg recv n s).0
      touched x e p =
          let n' = (touch msg recv n s).0 in
          let t = touch-Touched msg recv n s in
          let same = t.same_node in
          let is_n : P n = subst P e p in
          elim t.no_invention [
            | inl kept ↦ ledger.same n n' same.0 same.1 same.2 kept same.4 is_n
            | inr moved ↦
                ledger.spoken n n'
                  (subst (λ id. Q id n'.heartbeat) (sym is_sender)
                    (subst (Q msg.sender) (sym moved) q))
                  same.0 same.1 same.2 same.4 is_n
          ]
