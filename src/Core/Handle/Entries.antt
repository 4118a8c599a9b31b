-- ===== src/Core/Handle/Entries.antt =====
-- Which nodes an entry of a message touches.
use libgossip.Base.{
  ℕ, ◌≡◌, refl, sym, subst, ◌∙◌, ◌≢◌, ◌⊎◌, inl, inr, false, Option, none, some, List, [], ◌∷◌, ◌++◌,
  arith, ℕ_discrete, get_elem?, modify, find_index, get_elem?-modify_self, find_index-get_elem?,
  get_elem?-modify_ne, get_elem?-append, find_index-ne,
}
use libgossip.Core.Handle.{
  same_address, set_id, rename_at, adopt_id, learn, learn_all, touch, touch_at, handle_message,
}
use libgossip.Core.Handle.Reply.{counted, process-silent, handle_message-known}
use libgossip.Core.Handle.Sender.{touch-Touched, nodes-touch_at}
use libgossip.Core.State.{Core, Env}
use libgossip.Core.Update.{has_id, admit, merge, update_node}
use libgossip.Core.Update.Laws.{nodes-update_node}
use libgossip.Core.Update.Merge.{merge-id}
use libgossip.Node.{type_discrete, NodeStatus, MessageType, NodeView, GossipMessage}

-- Learning from an entry leaves every node as it is that has neither the entry's id nor its
-- address.
get_elem?-learn_other :
    (remote : NodeView) (recv : ℕ) (s : Core) (i : ℕ) {n : NodeView}
    → get_elem? s.nodes i ≡ some n
    → n.id ≢ remote.id
    → same_address remote n ≡ false
    → get_elem? (learn remote recv s).nodes i ≡ some n
unfolding learn
get_elem?-learn_other remote recv s i {n} at other away =
    updated (nodes-update_node remote recv (adopt_id remote s))
  where
    kept :
        (k : Option ℕ)
        → find_index (same_address remote) s.nodes ≡ k
        → get_elem? (rename_at k remote s).nodes i ≡ some n
    kept none e = at
    kept (some k) e =
        get_elem?-modify_ne k i _ s.nodes (find_index-ne (same_address remote) s.nodes e at away)
        ∙ at

    here : get_elem? (adopt_id remote s).nodes i ≡ some n
    here = kept (find_index (same_address remote) s.nodes) refl

    updated :
        ((k : ℕ) × (find_index (has_id remote.id) (adopt_id remote s).nodes ≡ some k)
            × ((update_node remote recv (adopt_id remote s)).0.nodes
                ≡ modify k (merge remote recv) (adopt_id remote s).nodes))
          ⊎ ((find_index (has_id remote.id) (adopt_id remote s).nodes ≡ none)
              × ((update_node remote recv (adopt_id remote s)).0.nodes
                  ≡ (adopt_id remote s).nodes ++ admit remote recv ∷ []))
        → get_elem? (update_node remote recv (adopt_id remote s)).0.nodes i ≡ some n
    updated (inl (k, e, r)) = rw r (
        get_elem?-modify_ne k i _ (adopt_id remote s).nodes
          (find_index-ne (has_id remote.id) (adopt_id remote s).nodes e here (ground arith))
        ∙ here)
    updated (inr (e, r)) = rw r (get_elem?-append (adopt_id remote s).nodes _ i here)

-- The node at place `i` is there and has not failed.
abbrev IsUp : ℕ → List NodeView → Type 0
IsUp i ns = (m : NodeView) × (get_elem? ns i ≡ some m) × (m.status ≢ NodeStatus.failed)

IsUp-modify :
    (k i : ℕ) (f : NodeView → NodeView) (ns : List NodeView)
    → ((n : NodeView) → n.status ≢ NodeStatus.failed → (f n).status ≢ NodeStatus.failed)
    → IsUp i ns
    → IsUp i (modify k f ns)
IsUp-modify k i f ns keeps (m, at, up) = elim (ℕ_discrete k i) [
  | yes same ↦ (
    f m,
    subst (λ l. get_elem? (modify l f ns) i ≡ some (f m)) (sym same)
        (rw (get_elem?-modify_self i f ns, at) refl),
    keeps m up,
  )
  | no other ↦ (m, get_elem?-modify_ne k i f ns other ∙ at, up)
]

merge-up :
    (remote : NodeView) (seen : ℕ) (n : NodeView)
    → remote.status ≢ NodeStatus.failed
    → n.status ≢ NodeStatus.failed
    → (merge remote seen n).status ≢ NodeStatus.failed
unfolding merge
merge-up remote seen n alive up = ground (arith, alive, up)

-- Learning from an entry that is not failed makes no node failed.
IsUp-learn :
    (remote : NodeView) (recv : ℕ) (s : Core) (i : ℕ)
    → remote.status ≢ NodeStatus.failed
    → IsUp i s.nodes
    → IsUp i (learn remote recv s).nodes
unfolding learn
IsUp-learn remote recv s i alive up = elim (nodes-update_node remote recv (adopt_id remote s)) [
  | inl (k, _, r) ↦
      rw r (IsUp-modify k i (merge remote recv) _ (λ n. merge-up remote recv n alive) adopted)
  | inr (_, r) ↦ rw r (adopted.0, get_elem?-append _ _ i adopted.1, adopted.2)
]
  where
    renamed : (k : Option ℕ) → IsUp i (rename_at k remote s).nodes
    renamed none = up
    renamed (some k) = IsUp-modify k i (λ n. record n { id = remote.id }) s.nodes (λ n h. h) up

    adopted : IsUp i (adopt_id remote s).nodes
    adopted = renamed (find_index (same_address remote) s.nodes)

-- When a known node announces by a leave message that another node leaves, whose id and address
-- differ from its own and whose status in the entry is not failed, as gossip_core::leave sends it
-- for a node that it has not marked failed before, then the announcing node is marked failed, and
-- any other recorded node that was not failed, the leaving one among them, is not failed
-- afterwards.
pub leave_blames_sender :
    (env : Env) (msg : GossipMessage) (gone : NodeView) (recv : ℕ) (s : Core) {i j : ℕ}
    {n m : NodeView}
    → msg.type ≡ MessageType.leave
    → msg.entries ≡ gone ∷ []
    → gone.status ≢ NodeStatus.failed
    → find_index (has_id msg.sender) s.nodes ≡ some i
    → get_elem? s.nodes i ≡ some n
    → n.id ≢ gone.id
    → same_address gone n ≡ false
    → j ≢ i
    → get_elem? s.nodes j ≡ some m
    → m.status ≢ NodeStatus.failed
    → let s' = handle_message env msg recv s in
      ((n' : NodeView) × (get_elem? s'.nodes i ≡ some n')
        × (n'.id ≡ n.id)
        × (n'.status ≡ NodeStatus.failed))
      × ((m' : NodeView) × (get_elem? s'.nodes j ≡ some m') × (m'.status ≢ NodeStatus.failed))
unfolding learn_all same_address type_discrete
leave_blames_sender env msg gone recv s {i} {j} {n} {m} is_leave single alive known at other away
      apart beside up =
    let t = touch_at (some i) msg recv (counted s) in
    let n' = (touch msg recv n (counted s)).0 in
    let touched = touch-Touched msg recv n (counted s) in
    let course =
      handle_message-known env msg recv s known
      ∙ process-silent env msg recv (some i) (counted s) (ground arith) in
    let changed : t.nodes ≡ modify i (λ _. n') s.nodes = nodes-touch_at i msg recv (counted s) at in
    let there : get_elem? t.nodes i ≡ some n' =
      rw changed (rw (get_elem?-modify_self i (λ _. n') s.nodes, at) refl) in
    let still : IsUp j t.nodes =
      rw changed (m, get_elem?-modify_ne i j (λ _. n') s.nodes (λ e. apart (sym e)) ∙ beside, up) in
    (
      (
        n',
        rw course (
            subst (λ es. get_elem? (learn_all es recv t).nodes i ≡ some n') (sym single)
              (get_elem?-learn_other gone recv t i there (λ e. other (sym touched.same_node.0 ∙ e))
                (ground (arith, touched.same_node)))),
        touched.same_node.0,
        ground (arith, touched.fate, is_leave),
      ),
      rw course (
          subst (λ es. IsUp j (learn_all es recv t).nodes) (sym single)
            (IsUp-learn gone recv t j alive still)),
    )

get_elem?-update_id :
    (remote : NodeView) (seen : ℕ) (s : Core) (i : ℕ) {n : NodeView}
    → get_elem? s.nodes i ≡ some n
    → n.id ≡ remote.id
    → (n' : NodeView) × (get_elem? (update_node remote seen s).0.nodes i ≡ some n')
      × (n'.id ≡ remote.id)
get_elem?-update_id remote seen s i {n} at own = elim (nodes-update_node remote seen s) [
  | inr (_, r) ↦ (n, rw r (get_elem?-append s.nodes _ i at), own)
  | inl (k, _, r) ↦ elim (ℕ_discrete k i) [
    | yes same ↦ (
      merge remote seen n,
      rw (r, same) (rw (get_elem?-modify_self i (merge remote seen) s.nodes, at) refl),
      merge-id remote seen n own,
    )
    | no apart ↦ (n, rw r (get_elem?-modify_ne k i (merge remote seen) s.nodes apart ∙ at), own)
  ]
]

-- When the first node at an entry's address that has another id than the entry is at one place, and
-- another place holds a node with the entry's id, then after learning from the entry both places,
-- which are different, hold a node with that id.
pub learn_twins :
    (remote : NodeView) (recv : ℕ) (s : Core) {i j : ℕ} {m : NodeView}
    → find_index (same_address remote) s.nodes ≡ some i
    → get_elem? s.nodes j ≡ some m
    → m.id ≡ remote.id
    → (a b : NodeView) × (i ≢ j)
      × (get_elem? (learn remote recv s).nodes i ≡ some a)
      × (get_elem? (learn remote recv s).nodes j ≡ some b)
      × (a.id ≡ remote.id)
      × (b.id ≡ remote.id)
unfolding learn adopt_id same_address
learn_twins remote recv s {i} {j} {m} e at own =
    let apart = find_index-ne (same_address remote) s.nodes e at (ground arith) in
    let (n, found, _) = find_index-get_elem? (same_address remote) s.nodes e in
    let t = set_id i remote.id s in
    let adopted : adopt_id remote s ≡ t = rw (e, rename_at) refl in
    let kept =
      λ (k : ℕ) (x : NodeView) (h : get_elem? (update_node remote recv t).0.nodes k ≡ some x).
        subst (λ q. get_elem? (update_node remote recv q).0.nodes k ≡ some x) (sym adopted) h in
    let (a, at_i, id_i) =
      get_elem?-update_id remote recv t i {n = record n { id = remote.id }}
        (rw (get_elem?-modify_self i (λ x. record x { id = remote.id }) s.nodes, found) refl)
        refl in
    let (b, at_j, id_j) =
      get_elem?-update_id remote recv t j (get_elem?-modify_ne i j _ s.nodes apart ∙ at) own in
    (a, b, apart, kept i a at_i, kept j b at_j, id_i, id_j)
