-- ===== src/Cluster/Current.antt =====
-- Records that have caught up with their nodes.
use libgossip.Base.{
  ℕ, ◌≤◌, ◌<◌, ◌≡◌, refl, sym, subst, ◌∙◌, inl, inr, Option, none, some, List, arith, ℕ_discrete,
  get_elem?, modify, get_elem?-modify_self, find_index-get_elem?, get_elem?-modify_ne,
  get_elem?-append, Bool-cases,
}
use libgossip.Cluster.{Cluster, NotNewer, Fits}
use libgossip.Core.Handle.{touch, wants_pong, pong_to, reply}
use libgossip.Core.Handle.Sender.{touch-Touched}
use libgossip.Core.State.{Core, Env}
use libgossip.Core.Update.{has_id, merge, update_node}
use libgossip.Core.Update.Laws.{nodes-update_node}
use libgossip.Node.{can_replace, NodeView, GossipMessage}

-- `n` is the record of the node `s` as it is now.
abbrev pub IsCurrent : Core → NodeView → Type 0
IsCurrent s n =
    (n.id ≡ s.self.id) × (n.heartbeat ≡ s.self.heartbeat) × (n.config_epoch ≡ s.self.config_epoch)

-- The list has such a record at the index `i`.
abbrev pub HasCurrent : Core → ℕ → List NodeView → Type 0
HasCurrent s i ns = (n : NodeView) × (get_elem? ns i ≡ some n) × IsCurrent s n

merge-IsCurrent :
    (s : Core) (remote : NodeView) (recv : ℕ) (n : NodeView)
    → Fits remote s
    → IsCurrent s n
    → IsCurrent s (merge remote recv n)
unfolding merge can_replace
merge-IsCurrent s remote recv n fits (id, heartbeat, epoch) = (
  ground (arith, fits.id, id),
  ground (arith, fits.heartbeat, fits.config_epoch, heartbeat, epoch),
  ground (arith, fits.heartbeat, fits.config_epoch, heartbeat, epoch),
)

nodes-pong_to :
    (env : Env) (t : Option NodeView) (msg : GossipMessage) (s : Core)
    → (pong_to env t msg s).nodes ≡ s.nodes
unfolding pong_to
nodes-pong_to env none msg s = refl
nodes-pong_to env (some t) msg s = refl

pub nodes-reply :
    (env : Env) (i : Option ℕ) (msg : GossipMessage) (s : Core)
    → (reply env i msg s).nodes ≡ s.nodes
unfolding reply
nodes-reply env none msg s = refl
nodes-reply env (some i) msg s = elim (Bool-cases (wants_pong msg)) [
  | inl w ↦ rw w (nodes-pong_to env (get_elem? s.nodes i) msg s)
  | inr w ↦ rw w refl
]

-- The record of the sender of a message whose timestamp the sender has reached.
pub touch-IsCurrent :
    (s : Core) (msg : GossipMessage) (recv : ℕ) (n : NodeView) (t : Core)
    → msg.timestamp ≤ s.self.heartbeat
    → IsCurrent s n
    → IsCurrent s (touch msg recv n t).0
touch-IsCurrent s msg recv n t early (id, heartbeat, epoch) =
    let touched = touch-Touched msg recv n t in
    (
      touched.same_node.0 ∙ id,
      elim touched.no_invention [
        | inl kept ↦ kept ∙ heartbeat
        | inr moved ↦ omega (arith, moved, early, heartbeat, touched.not_older)
      ],
      touched.same_node.4 ∙ epoch,
    )

module _ (size : ℕ) (c : Cluster) (j : ℕ) (below : j < size) where
  pub update_node-HasCurrent :
      (remote : NodeView) (recv : ℕ) (s : Core) (i : ℕ)
      → NotNewer size c remote
      → HasCurrent (c j) i s.nodes
      → HasCurrent (c j) i (update_node remote recv s).0.nodes
  update_node-HasCurrent remote recv s i honest (n, at, current) =
      elim (nodes-update_node remote recv s) [
        | inr (e, r) ↦ (n, rw r (get_elem?-append s.nodes _ i at), current)
        | inl (k, e, r) ↦ elim (ℕ_discrete k i) [
          | no other ↦ (n, rw r (get_elem?-modify_ne k i _ s.nodes other ∙ at), current)
          | yes same ↦
              let (x, there, passed) = find_index-get_elem? (has_id remote.id) s.nodes e in
              let at_k : get_elem? s.nodes k ≡ some n =
                subst (λ m. get_elem? s.nodes m ≡ some n) (sym same) at in
              let is_id : n.id ≡ remote.id = ground (arith, passed, there, at_k) in
              (
                merge remote recv n,
                rw r (
                    subst
                      (λ m.
                        get_elem? (modify k (merge remote recv) s.nodes) m
                        ≡ some (merge remote recv n))
                      same (rw (get_elem?-modify_self k (merge remote recv) s.nodes, at_k) refl)),
                merge-IsCurrent (c j) remote recv n (honest j below (inl (sym current.0 ∙ is_id)))
                    current,
              )
        ]
      ]
