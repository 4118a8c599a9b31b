-- ===== src/Manager/Sends.antt =====
-- The sends of src/core/gossip_manager.cpp that end the program.
use libgossip.Base.{
  ℕ, zero, suc, ◌≡◌, refl, inl, inr, true, false, Option, none, some, List, [], ◌∷◌, arith,
  get_elem?, Bool-cases,
}
use libgossip.Core.State.{Effect, Core}
use libgossip.Manager.{on_send_message, sends_end, call, Transport, Network, Manager}
use libgossip.Node.{NodeView, GossipMessage}

-- One of the messages goes to a node whose ip is no address.
abbrev pub IsMisdirected : Network → List Effect → Type 0
IsMisdirected net trace =
    (k : ℕ) × (msg : GossipMessage) × (target : NodeView) × (get_elem? trace k
      ≡ some (Effect.sent msg target))
    × (net.is_address target.ip ≡ false)

-- An operation of the core sends a message to a node whose ip is no address.
abbrev pub Misdirects : Network → (Core → Core) → Manager → Type 0
Misdirects net f m =
    (core : Core) × (m.gossip_core ≡ some core) × IsMisdirected net (call f core).trace

pub sends_end-IsMisdirected :
    (net : Network) (t : Option Transport) (es : List Effect)
    → sends_end net t es ≡ true
    → IsMisdirected net es
unfolding sends_end on_send_message
sends_end-IsMisdirected net t [] e = absurd (ground arith)
sends_end-IsMisdirected net t (Effect.event node old_status ∷ es) e =
    let (k, msg, target, at, bad) = sends_end-IsMisdirected net t es e in
    (suc k, msg, target, at, bad)
sends_end-IsMisdirected net none (Effect.sent msg target ∷ es) e =
    let (k, msg', target', at, bad) = sends_end-IsMisdirected net none es (ground (arith, e)) in
    (suc k, msg', target', at, bad)
sends_end-IsMisdirected net (some t) (Effect.sent msg target ∷ es) e =
    elim (Bool-cases (sends_end net (some t) es)) [
      | inl later ↦
          let (k, msg', target', at, bad) = sends_end-IsMisdirected net (some t) es later in
          (suc k, msg', target', at, bad)
      | inr none_later ↦ (zero, msg, target, refl, ground (arith, e, none_later))
    ]
