-- ===== src/Cluster/Stays.antt =====
-- A record that has caught up with its node stays so, whatever message is handled.
use libgossip.Base.{
  ℕ, ◌<◌, ◌≡◌, refl, sym, ap, subst, ◌∙◌, inl, inr, Option, none, some, List, [], ◌∷◌, ℕ_discrete,
  get_elem?, modify, find_index, get_elem?-modify_self, All, All-get_elem?, get_elem?-modify_ne,
  Bool-cases, Option-cases,
}
use libgossip.Cluster.{Cluster, NotNewer, IsFair, Reach}
use libgossip.Cluster.Current.{
  IsCurrent, HasCurrent, nodes-reply, touch-IsCurrent, update_node-HasCurrent,
}
use libgossip.Cluster.Handles.{Speaks, Honest, find_sender_told, touch_at_told}
use libgossip.Cluster.Ledger.{ledger_learn, adopt-keeps_sender}
use libgossip.Cluster.Owners.{own-NotAhead, Reach-IsSound, IsSound}
use libgossip.Cluster.Records.{NotAhead, NotNewer-IsLedger}
use libgossip.Core.Handle.{
  is_greeting, adopt_id, learn, learn_all, introduce, find_sender, touch, touch_at, process,
  unless_unknown, handle_message,
}
use libgossip.Core.Handle.Reply.{counted, absorbed}
use libgossip.Core.Handle.Sender.{recognise-learn_all, nodes-touch_at}
use libgossip.Core.Members.{size}
use libgossip.Core.Run.{Call}
use libgossip.Core.State.{same_id, Effect, Core, Env, IsStd}
use libgossip.Core.Update.{has_id}
use libgossip.Node.{NodeId, NodeView, GossipMessage}

module _ (size : ℕ) (c : Cluster) (j : ℕ) (below : j < size) (sound : IsSound size c) where
  learn-HasCurrent :
      (remote : NodeView) (recv : ℕ) (s : Core) (i : ℕ)
      → NotNewer size c remote
      → All (NotNewer size c) s.nodes
      → HasCurrent (c j) i s.nodes
      → HasCurrent (c j) i (learn remote recv s).nodes
  unfolding learn
  learn-HasCurrent remote recv s i honest all (n, at, current) =
      let spoken =
        subst (λ id. NotAhead size c id (c j).self.heartbeat) (sym current.0)
          (own-NotAhead size c j below sound) in
      let kept =
        adopt-keeps_sender (NotNewer size c) (NotAhead size c) (NotNewer-IsLedger size c) remote s i
          {n = n} {ts = (c j).self.heartbeat} spoken honest all at in
      update_node-HasCurrent size c j below remote recv (adopt_id remote s) i honest
        (n, kept, current)

  learn_all-HasCurrent :
      (entries : List NodeView) (recv : ℕ) (s : Core) (i : ℕ)
      → All (NotNewer size c) entries
      → All (NotNewer size c) s.nodes
      → HasCurrent (c j) i s.nodes
      → HasCurrent (c j) i (learn_all entries recv s).nodes
  unfolding learn_all
  learn_all-HasCurrent [] recv s i honest all h = h
  learn_all-HasCurrent (e ∷ es) recv s i honest all h =
      learn_all-HasCurrent es recv (learn e recv s) i honest.1
        (ledger_learn (NotNewer size c) (NotAhead size c) (NotNewer-IsLedger size c) e recv s
          honest.0 all)
        (learn-HasCurrent e recv s i honest.0 all h)

  introduce-HasCurrent :
      (sender : NodeId) (entries : List NodeView) (recv : ℕ) (s : Core) (i : ℕ)
      → All (NotNewer size c) entries
      → HasCurrent (c j) i s.nodes
      → HasCurrent (c j) i (introduce sender entries recv s).1.nodes
  unfolding introduce
  introduce-HasCurrent sender [] recv s i honest h = h
  introduce-HasCurrent sender (e ∷ es) recv s i honest h = elim (Bool-cases (same_id e.id sender)) [
    | inl t ↦ rw t (update_node-HasCurrent size c j below e recv s i honest.0 h)
    | inr f ↦ rw f (introduce-HasCurrent sender es recv s i honest.1 h)
  ]

  find_sender-HasCurrent :
      (msg : GossipMessage) (recv : ℕ) (s : Core) (i : ℕ)
      → All (NotNewer size c) msg.entries
      → All (NotNewer size c) s.nodes
      → HasCurrent (c j) i s.nodes
      → HasCurrent (c j) i (find_sender msg recv s).1.nodes
  unfolding find_sender
  find_sender-HasCurrent msg recv s i honest all h =
      elim (Option-cases (find_index (has_id msg.sender) s.nodes)) [
        | inr (k, e) ↦ rw (e, find_sender) h
        | inl e ↦ elim (Bool-cases (is_greeting msg)) [
          | inl g ↦
              rw (e, find_sender)
                (rw g (introduce-HasCurrent msg.sender msg.entries recv s i honest h))
          | inr g ↦
              rw (e, find_sender)
                (rw g (
                  subst (λ t. HasCurrent (c j) i t.nodes)
                    (sym (recognise-learn_all msg.sender msg.entries recv none s))
                    (learn_all-HasCurrent msg.entries recv s i honest all h)))
        ]
      ]

  touch_at-HasCurrent :
      (k : Option ℕ) (msg : GossipMessage) (recv : ℕ) (s : Core) (i : ℕ)
      → NotAhead size c msg.sender msg.timestamp
      → Speaks msg.sender k s.nodes
      → HasCurrent (c j) i s.nodes
      → HasCurrent (c j) i (touch_at k msg recv s).nodes
  unfolding touch_at
  touch_at-HasCurrent none msg recv s i spoken speaks h = h
  touch_at-HasCurrent (some k) msg recv s i spoken (m, at_m, is_sender) (n, at, current) =
      elim (ℕ_discrete k i) [
        | no other ↦ (
          n,
          rw (nodes-touch_at k msg recv s at_m) (get_elem?-modify_ne k i _ s.nodes other ∙ at),
          current,
        )
        | yes same ↦
            let at_k : get_elem? s.nodes k ≡ some n =
              subst (λ x. get_elem? s.nodes x ≡ some n) (sym same) at in
            let is_n : m ≡ n = cc in
            let sender : (c j).self.id ≡ msg.sender =
              sym current.0 ∙ ap (λ x. x.id) (sym is_n) ∙ is_sender in
            let n' = (touch msg recv m s).0 in
            (
              n',
              rw (nodes-touch_at k msg recv s at_m) (
                  subst (λ x. get_elem? (modify k (λ _. n') s.nodes) x ≡ some n') same
                    (rw (get_elem?-modify_self k (λ _. n') s.nodes, at_k) refl)),
              touch-IsCurrent (c j) msg recv m s (spoken.1 j below sender)
                  (subst (IsCurrent (c j)) (sym is_n) current),
            )
      ]

  process-HasCurrent :
      (env : Env) (msg : GossipMessage) (recv : ℕ) (k : Option ℕ) (s : Core) (i : ℕ)
      → Honest (NotNewer size c) (NotAhead size c) (Effect.sent msg s.self)
      → Speaks msg.sender k s.nodes
      → All (NotNewer size c) s.nodes
      → HasCurrent (c j) i s.nodes
      → HasCurrent (c j) i (process env msg recv k s).nodes
  unfolding process
  process-HasCurrent env msg recv k s i honest speaks all h =
      rw (nodes-reply env k msg (absorbed msg recv k s)) (
        learn_all-HasCurrent msg.entries recv (touch_at k msg recv s) i honest.1
          (touch_at_told (NotNewer size c) (NotAhead size c) (NotNewer-IsLedger size c) k msg recv s
            honest.0 speaks all)
          (touch_at-HasCurrent k msg recv s i honest.0 speaks h))

  unless_unknown-HasCurrent :
      (env : Env) (msg : GossipMessage) (recv : ℕ) (k : Option ℕ) (s : Core) (i : ℕ)
      → Honest (NotNewer size c) (NotAhead size c) (Effect.sent msg s.self)
      → Speaks msg.sender k s.nodes
      → All (NotNewer size c) s.nodes
      → HasCurrent (c j) i s.nodes
      → HasCurrent (c j) i (unless_unknown env msg recv k s).nodes
  unfolding unless_unknown
  unless_unknown-HasCurrent env msg recv (some k) s i honest speaks all h =
      process-HasCurrent env msg recv (some k) s i honest speaks all h
  unless_unknown-HasCurrent env msg recv none s i honest speaks all h =
      elim (Bool-cases (is_greeting msg)) [
        | inl g ↦ rw g (process-HasCurrent env msg recv none s i honest tt all h)
        | inr g ↦ rw g h
      ]

  handle_message-HasCurrent :
      (env : Env) (msg : GossipMessage) (recv : ℕ) (s : Core) (i : ℕ)
      → Honest (NotNewer size c) (NotAhead size c) (Effect.sent msg s.self)
      → All (NotNewer size c) s.nodes
      → HasCurrent (c j) i s.nodes
      → HasCurrent (c j) i (handle_message env msg recv s).nodes
  unfolding handle_message
  handle_message-HasCurrent env msg recv s i honest all h =
      let (all', speaks) =
        find_sender_told (NotNewer size c) (NotAhead size c) (NotNewer-IsLedger size c) msg recv
          (counted s) honest.0 honest.1 all in
      unless_unknown-HasCurrent env msg recv _ _ i honest speaks all'
        (find_sender-HasCurrent msg recv (counted s) i honest.1 all h)

-- In every state that a cluster reaches (Cluster.Reach), with standard libraries as documented:
-- when a record in a node's list has the id, the heartbeat and the epoch that a node of the cluster
-- has now, and the node with the list handles any message that was ever sent, however old and by
-- whomever, then the record at that place has them still.
pub current_stays :
    (size : ℕ) (env : ℕ → Env) {c : Cluster}
    → ((i : ℕ) → IsStd (env i))
    → Reach size env c
    → (i j k recv : ℕ) (msg : GossipMessage) {n : NodeView} → i < size
    → j < size
    → IsFair size env c i (Call.handles msg recv)
    → get_elem? (c i).nodes k ≡ some n
    → IsCurrent (c j) n
    → HasCurrent (c j) k (handle_message (env i) msg recv (c i)).nodes
current_stays size env {c} std r i j k recv msg {n} here there (m, p, target, from, sent) at
      current =
    let sound = Reach-IsSound size env std r in
    let honest =
      All-get_elem? (Honest (NotNewer size c) (NotAhead size c)) p (c m).trace sent
        (sound.told m from).trace in
    handle_message-HasCurrent size c j there sound (env i) msg recv (c i) k honest
      (sound.told i here).nodes (n, at, current)
