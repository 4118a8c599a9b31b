-- ===== src/Cluster/Ledger.antt =====
-- What handle_message learns from entries, for a property of records that speaks of their id, their
-- address, their epoch and their heartbeat.
use libgossip.Base.{
  ℕ, ◌≡◌, refl, sym, subst, ◌∙◌, inl, inr, ◌&&◌, Option, some, List, [], ◌∷◌, arith, ℕ_discrete,
  get_elem?, modify, find_index, get_elem?-modify_self, find_index-get_elem?, All, All-modify,
  All-get_elem?, get_elem?-modify_ne, get_elem?-append, find_index-ne, ◌==◌, Bool-cases,
  Option-cases,
}
use libgossip.Base.Perm.{All-mono, All-of-Mem}
use libgossip.Core.Handle.{same_address, rename_at, adopt_id, learn, learn_all}
use libgossip.Core.State.{select_random_peers, Core, Env, IsStd}
use libgossip.Core.State.Peers.{IsPeer, select_random_peers-IsPeer}
use libgossip.Core.Update.{has_id, merge, update_node}
use libgossip.Core.Update.Laws.{nodes-update_node, All-update_node}
use libgossip.Core.Update.Merge.{merge-id}
use libgossip.Node.{NodeId, can_replace, NodeView}

-- `P` of the records, and `Q` of the senders and the timestamps of messages.
pub record IsLedger (P : NodeView → Type 0) (Q : NodeId → ℕ → Type 0) : Type 0 where
  pub prop : (n : NodeView) → IsProp (P n)
  pub same :
      (n n' : NodeView)
      → n'.id ≡ n.id
      → n'.ip ≡ n.ip
      → n'.port ≡ n.port
      → n'.heartbeat ≡ n.heartbeat
      → n'.config_epoch ≡ n.config_epoch
      → P n
      → P n'
  pub renamed :
      (remote n : NodeView)
      → P remote
      → P n
      → n.ip ≡ remote.ip
      → n.port ≡ remote.port
      → P (record n { id = remote.id })
  pub spoken :
      (n n' : NodeView)
      → Q n.id n'.heartbeat
      → n'.id ≡ n.id
      → n'.ip ≡ n.ip
      → n'.port ≡ n.port
      → n'.config_epoch ≡ n.config_epoch
      → P n
      → P n'
  pub settled :
      (remote n : NodeView) {ts : ℕ}
      → Q n.id ts
      → P remote
      → P n
      → n.ip ≡ remote.ip
      → n.port ≡ remote.port
      → remote.id ≡ n.id

pub update-keeps_id :
    (remote : NodeView) (recv : ℕ) (s : Core) (i : ℕ) {n : NodeView}
    → get_elem? s.nodes i ≡ some n
    → (n' : NodeView) × (get_elem? (update_node remote recv s).0.nodes i ≡ some n') × (n'.id ≡ n.id)
update-keeps_id remote recv s i {n} at = elim (nodes-update_node remote recv s) [
  | inr (e, r) ↦ (n, rw r (get_elem?-append s.nodes _ i at), refl)
  | inl (k, e, r) ↦ elim (ℕ_discrete k i) [
    | no other ↦ (n, rw r (get_elem?-modify_ne k i _ s.nodes other ∙ at), refl)
    | yes same ↦
        let (x, there, passed) = find_index-get_elem? (has_id remote.id) s.nodes e in
        let at_k : get_elem? s.nodes k ≡ some n =
          subst (λ j. get_elem? s.nodes j ≡ some n) (sym same) at in
        let is_id : n.id ≡ remote.id = ground (arith, passed, there, at_k) in
        (
          merge remote recv n,
          rw r (
              subst
                (λ j.
                  get_elem? (modify k (merge remote recv) s.nodes) j ≡ some (merge remote recv n))
                same (rw (get_elem?-modify_self k (merge remote recv) s.nodes, at_k) refl)),
          merge-id remote recv n is_id ∙ sym is_id,
        )
  ]
]

module _ (P : NodeView → Type 0) (Q : NodeId → ℕ → Type 0) (ledger : IsLedger P Q) where
  ledger_merge :
      (remote : NodeView) (seen : ℕ) (it : NodeView) → P remote → P it → P (merge remote seen it)
  unfolding merge
  ledger_merge remote seen it r h = elim (Bool-cases (can_replace remote it)) [
    | inl t ↦ rw t (ledger.same remote _ refl refl refl refl refl r)
    | inr f ↦
        elim (Bool-cases
          (remote.heartbeat == it.heartbeat && remote.config_epoch == it.config_epoch)) [
            | inl t ↦ rw f (rw t (ledger.same it _ refl refl refl refl refl h))
            | inr g ↦ rw f (rw g h)
          ]
  ]

  pub ledger_update_node :
      (remote : NodeView) (seen : ℕ) (s : Core)
      → P remote
      → All P s.nodes
      → All P (update_node remote seen s).0.nodes
  ledger_update_node remote seen s r =
      All-update_node P remote seen s (ledger.same remote _ refl refl refl refl refl r)
        (λ it. ledger_merge remote seen it r)

  ledger_adopt_id :
      (remote : NodeView) (s : Core) → P remote → All P s.nodes → All P (adopt_id remote s).nodes
  unfolding adopt_id same_address
  ledger_adopt_id remote s r h = elim (Option-cases (find_index (same_address remote) s.nodes)) [
    | inl e ↦ rw (e, rename_at) h
    | inr (i, e) ↦
        let (x, at, passed) = find_index-get_elem? (same_address remote) s.nodes e in
        rw (e, rename_at)
          (All-modify P i _ s.nodes
            (λ y there p.
              ledger.renamed remote y r p (ground (arith, passed)) (ground (arith, passed)))
            h)
  ]

  pub ledger_learn :
      (remote : NodeView) (recv : ℕ) (s : Core)
      → P remote
      → All P s.nodes
      → All P (learn remote recv s).nodes
  unfolding learn
  ledger_learn remote recv s r h =
      ledger_update_node remote recv (adopt_id remote s) r (ledger_adopt_id remote s r h)

  pub ledger_learn_all :
      (entries : List NodeView) (recv : ℕ) (s : Core)
      → All P entries
      → All P s.nodes
      → All P (learn_all entries recv s).nodes
  unfolding learn_all
  ledger_learn_all [] recv s r h = h
  ledger_learn_all (e ∷ es) recv s r h =
      ledger_learn_all es recv (learn e recv s) r.1 (ledger_learn e recv s r.0 h)

  -- A record of the sender is not renamed.
  pub adopt-keeps_sender :
      (remote : NodeView) (s : Core) (i : ℕ) {n : NodeView} {ts : ℕ}
      → Q n.id ts
      → P remote
      → All P s.nodes
      → get_elem? s.nodes i ≡ some n
      → get_elem? (adopt_id remote s).nodes i ≡ some n
  unfolding adopt_id same_address
  adopt-keeps_sender remote s i {n} q r h at =
      elim (Option-cases (find_index (same_address remote) s.nodes)) [
        | inl e ↦ rw (e, rename_at) at
        | inr (k, e) ↦
            rw (e, rename_at)
              (get_elem?-modify_ne k i _ s.nodes (
                  find_index-ne (same_address remote) s.nodes e at
                    (elim (Bool-cases (same_address remote n)) [
                      | inl t ↦
                          let same =
                            ledger.settled remote n q r (All-get_elem? P i s.nodes at h)
                              (ground (arith, t)) (ground (arith, t)) in
                          absurd (ground (arith, t, same))
                      | inr f ↦ f
                    ]))
                ∙ at)
      ]

  -- A record of the sender stays one of the sender, whatever entry is learnt from.
  pub learn-keeps_sender :
      (remote : NodeView) (recv : ℕ) (s : Core) (i : ℕ) {n : NodeView} {ts : ℕ}
      → Q n.id ts
      → P remote
      → All P s.nodes
      → get_elem? s.nodes i ≡ some n
      → (n' : NodeView) × (get_elem? (learn remote recv s).nodes i ≡ some n') × (n'.id ≡ n.id)
  unfolding learn
  learn-keeps_sender remote recv s i {n} {ts} q r h at =
      update-keeps_id remote recv (adopt_id remote s) i {n = n}
        (adopt-keeps_sender remote s i {n = n} {ts = ts} q r h at)

  -- What is picked at random of honest records is honest.
  pub peers_told :
      (env : Env) (k : ℕ) (exclude : Option NodeId) (s : Core)
      → IsStd env
      → All P s.nodes
      → All P (select_random_peers env k exclude s)
  peers_told env k exclude s std h =
      All-mono (IsPeer s.nodes exclude) P _
        (λ n peer. All-of-Mem P s.nodes (ledger.prop n) h peer.0)
        (select_random_peers-IsPeer env k exclude s std).1
