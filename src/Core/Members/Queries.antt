-- ===== src/Core/Members/Queries.antt =====
-- find_node, and leave of an id.
use libgossip.Base.{
  ℕ, ◌≡◌, refl, sym, ap, subst, ◌∙◌, ◌≢◌, ◌⊎◌, inl, inr, not, ◌&&◌, none, some, List, [], ◌∷◌,
  arith, get_elem?, modify, find_index, find_index-get_elem?, All, find_index-none, holds,
  bytes_discrete, Bool-cases, Option-cases,
}
use libgossip.Base.Perm.{All-mono}
use libgossip.Core.Members.{leave_at, tell, send_online, leave_message, leave, find_node}
use libgossip.Core.State.{same_id, notify, send, Effect, Core}
use libgossip.Core.State.Frame.{nodes-notify, Listened-notify, same_id-eq, same_id-ne, OnlyEvents}
use libgossip.Core.Update.{has_id}
use libgossip.Node.{NodeId, status_discrete, NodeStatus, NodeView, GossipMessage}

-- A search by id finds this node for its own id, else the first recorded node with the id, and
-- nothing exactly when no recorded node has it.
find_node_lem :
    (id : NodeId) (s : Core)
    → ((id ≡ s.self.id) × (find_node id s ≡ some s.self))
      ⊎ ((id ≢ s.self.id)
          × (((i : ℕ) × (n : NodeView) × (find_index (has_id id) s.nodes ≡ some i)
                × (get_elem? s.nodes i ≡ some n)
                × (n.id ≡ id)
                × (find_node id s ≡ some n))
              ⊎ (All (λ n. n.id ≢ id) s.nodes × (find_node id s ≡ none))))
unfolding find_node
find_node_lem id s = elim (bytes_discrete id s.self.id) [
  | yes own ↦ inl (own, rw (same_id-eq id s.self.id own) refl)
  | no other ↦ inr (
    other,
    elim (Option-cases (find_index (has_id id) s.nodes)) [
      | inr (i, e) ↦
          let (n, at, same) = find_index-get_elem? (has_id id) s.nodes e in
          inl (i, n, e, at, ground arith, rw (same_id-ne id s.self.id other) (rw e at))
      | inl e ↦ inr (
        All-mono _ _ s.nodes (λ n h. ground arith) (find_index-none (has_id id) s.nodes e),
        rw (same_id-ne id s.self.id other) (rw e refl),
      )
    ],
  )
]

-- Leaving by an id that is not recorded changes nothing and sends nothing.
pub leave_unknown :
    (id : NodeId) (s : Core) → find_index (has_id id) s.nodes ≡ none → leave id s ≡ s
unfolding leave
leave_unknown id s e = rw (e, leave_at) refl

-- One message to every online node with another id, in the order of the list, and nothing else.
abbrev pub Told : GossipMessage → NodeId → List NodeView → List Effect → List Effect → Type 0
Told m id [] before after = after ≡ before
Told m id (n ∷ ns) before after =
    (((n.status ≡ NodeStatus.online) × (n.id ≢ id)) × Told m id ns (Effect.sent m n ∷ before) after)
    ⊎ ((¬ ((n.status ≡ NodeStatus.online) × (n.id ≢ id))) × Told m id ns before after)

tell_cases :
    (m : GossipMessage) (id : NodeId) (n : NodeView) (s : Core)
    → (((n.status ≡ NodeStatus.online) × (n.id ≢ id)) × (tell m id n s ≡ send m n s))
      ⊎ ((¬ ((n.status ≡ NodeStatus.online) × (n.id ≢ id))) × (tell m id n s ≡ s))
unfolding tell
tell_cases m id n s =
    elim (Bool-cases
      (holds (status_discrete n.status NodeStatus.online) && not (same_id n.id id))) [
        | inl t ↦ rw t (inl ((ground arith, ground arith), refl))
        | inr f ↦ rw f (inr (λ h. ground (arith, h), refl))
      ]

send_online-Told :
    (m : GossipMessage) (id : NodeId) (ns : List NodeView) (s : Core)
    → Told m id ns s.trace (send_online m id ns s).trace
unfolding send_online
send_online-Told m id [] s = refl
send_online-Told m id (n ∷ ns) s =
    let rest = send_online-Told m id ns (tell m id n s) in
    let from = λ (c : Core) (e : tell m id n s ≡ c).
      subst (λ t. Told m id ns t (send_online m id ns (tell m id n s)).trace) (ap (λ x. x.trace) e)
        rest in
    elim (tell_cases m id n s) [
      | inl (yes_told, e) ↦ inl (yes_told, from (send m n s) e)
      | inr (not_told, e) ↦ inr (not_told, from s e)
    ]

-- Leaving by the id of a recorded node sends one message to every other online node, with this node
-- as the sender and the record of the leaving node as it was, in the order of the list, and then
-- only raises events; the record is marked failed, and no other changes.
pub leave_known :
    (id : NodeId) (s : Core) {i : ℕ} {n : NodeView}
    → find_index (has_id id) s.nodes ≡ some i
    → get_elem? s.nodes i ≡ some n
    → let s' = leave id s in
      (middle : List Effect) × Told (leave_message n s) id s.nodes s.trace middle
      × OnlyEvents middle s'.trace
      × (s'.nodes ≡ modify i (λ _. record n { status = NodeStatus.failed }) s.nodes)
unfolding leave
leave_known id s {i} {n} e at =
    let told = send_online (leave_message n s) id s.nodes s in
    let gone = record n { status = NodeStatus.failed } in
    let marked = record told { nodes = modify i (λ _. gone) s.nodes } in
    let course : leave id s ≡ notify gone n.status marked = rw (e, leave_at) (rw at refl) in
    (
      told.trace,
      send_online-Told (leave_message n s) id s.nodes s,
      subst (OnlyEvents told.trace) (ap (λ c. c.trace) (sym course))
          (Listened-notify gone n.status marked).events,
      ap (λ c. c.nodes) course ∙ nodes-notify gone n.status marked,
    )
