-- ===== src/Core/Members/Contacts.antt =====
-- meet, join and leave.
use libgossip.Base.{
  ◌≡◌, refl, sym, ap, subst, ◌∙◌, ◌≢◌, ◌⊎◌, inl, inr, none, List, [], ◌∷◌, ◌++◌, find_index,
  find_index-append_new, bytes_discrete, Option-cases,
}
use libgossip.Core.Members.{record_at, record_locally, meet, join}
use libgossip.Core.State.{inc64, tick_clock, notify, send, Effect, Core, Env}
use libgossip.Core.State.Frame.{
  nodes-notify, Listened-notify, same_id-eq, same_id-ne, OnlyEvents, none_raised,
}
use libgossip.Core.Tick.{own_message}
use libgossip.Core.Update.{has_id}
use libgossip.Node.{NodeStatus, MessageType, NodeView}

pub record_locally_cases :
    (env : Env) (node : NodeView) (s : Core)
    → ((find_index (has_id node.id) s.nodes ≢ none) × (record_locally env node s ≡ s))
      ⊎ ((find_index (has_id node.id) s.nodes ≡ none)
          × (record_locally env node s
              ≡ notify
                  (record node { status = NodeStatus.joining; seen_time = env.now s.reads })
                  NodeStatus.unknown
                  (record (tick_clock s) {
                    nodes =
                        s.nodes
                        ++ record node { status = NodeStatus.joining; seen_time = env.now s.reads }
                          ∷ [];
                  })))
unfolding record_locally
record_locally_cases env node s = elim (Option-cases (find_index (has_id node.id) s.nodes)) [
  | inl e ↦ inr (e, rw (e, record_at) refl)
  | inr (i, e) ↦ inl (rw e (λ c. cc), rw (e, record_at) refl)
]

-- The state before and after a contact with another node: the node is recorded as joining if its id
-- was not known, an existing record is left alone, and one message with this node in it goes out to
-- the address that was given.
pub record Contacted (env : Env) (type : MessageType) (node : NodeView) (s s' : Core) : Type 0 where
  pub nodes :
      (s'.nodes ≡ s.nodes)
      ⊎ ((find_index (has_id node.id) s.nodes ≡ none)
          × (s'.nodes
              ≡ s.nodes
                ++ record node { status = NodeStatus.joining; seen_time = env.now s.reads } ∷ []))
  pub known : find_index (has_id node.id) s'.nodes ≢ none
  pub message :
      (before : List Effect) × OnlyEvents s.trace before
      × (s'.trace
          ≡ Effect.sent
              (record {
                sender = s.self.id;
                type = type;
                timestamp = s.self.heartbeat;
                entries = s.self ∷ [];
              })
              node
            ∷ before)
  pub counted : s'.sent_messages ≡ inc64 s.sent_messages

recorded :
    (env : Env) (node : NodeView) (s : Core)
    → let s' = record_locally env node s in
      (s'.self ≡ s.self) × (s'.sent_messages ≡ s.sent_messages) × OnlyEvents s.trace s'.trace
recorded env node s = elim (record_locally_cases env node s) [
  | inl (_, e) ↦ (
    ap (λ c. c.self) e,
    ap (λ c. c.sent_messages) e,
    subst (OnlyEvents s.trace) (ap (λ c. c.trace) (sym e)) none_raised,
  )
  | inr (_, e) ↦
      let told = Listened-notify _ _ _ in
      (
        ap (λ c. c.self) e ∙ told.self,
        ap (λ c. c.sent_messages) e ∙ told.sent_messages,
        subst (OnlyEvents s.trace) (ap (λ c. c.trace) (sym e)) told.events,
      )
]

known_after :
    (env : Env) (node : NodeView) (s : Core)
    → find_index (has_id node.id) (record_locally env node s).nodes ≢ none
known_after env node s = elim (record_locally_cases env node s) [
  | inl (known, e) ↦ rw e known
  | inr (new, e) ↦ rw e (
      rw (nodes-notify _ _ _) (
        rw
          (find_index-append_new (has_id node.id) s.nodes
            (record node { status = NodeStatus.joining; seen_time = env.now s.reads }) new
            (same_id-eq node.id node.id refl))
          (λ c. cc)))
]

nodes_after :
    (env : Env) (node : NodeView) (s : Core)
    → ((record_locally env node s).nodes ≡ s.nodes)
      ⊎ ((find_index (has_id node.id) s.nodes ≡ none)
          × ((record_locally env node s).nodes
              ≡ s.nodes
                ++ record node { status = NodeStatus.joining; seen_time = env.now s.reads } ∷ []))
nodes_after env node s = elim (record_locally_cases env node s) [
  | inl (_, e) ↦ inl (ap (λ c. c.nodes) e)
  | inr (new, e) ↦ inr (new, ap (λ c. c.nodes) e ∙ nodes-notify _ _ _)
]

contacted :
    (env : Env) (type : MessageType) (node : NodeView) (s : Core)
    → let s' = record_locally env node s in
      Contacted env type node s (send (own_message type [] s') node s')
unfolding send
contacted env type node s =
    let (self, sent, events) = recorded env node s in
    record {
      nodes = nodes_after env node s;
      known = known_after env node s;
      message = ((record_locally env node s).trace, events, rw self refl);
      counted = ap inc64 sent;
    }

-- Meeting this node's own id changes nothing. Meeting any other node records it as joining if its
-- id was not known and otherwise leaves the list alone, so that the id is known afterwards; it
-- raises events at most, then sends that node one meet message with this node in it, and counts it.
pub meet-Contacted :
    (env : Env) (node : NodeView) (s : Core)
    → ((node.id ≡ s.self.id) × (meet env node s ≡ s))
      ⊎ ((node.id ≢ s.self.id) × Contacted env MessageType.meet node s (meet env node s))
unfolding meet
meet-Contacted env node s = elim (bytes_discrete node.id s.self.id) [
  | yes own ↦ inl (own, rw (same_id-eq node.id s.self.id own) refl)
  | no other ↦
      inr (other, rw (same_id-ne node.id s.self.id other) (contacted env MessageType.meet node s))
]

-- Joining by this node's own id changes nothing. Joining by any other node does what meeting it
-- does, but with a join message.
pub join-Contacted :
    (env : Env) (node : NodeView) (s : Core)
    → ((node.id ≡ s.self.id) × (join env node s ≡ s))
      ⊎ ((node.id ≢ s.self.id) × Contacted env MessageType.join node s (join env node s))
unfolding join
join-Contacted env node s = elim (bytes_discrete node.id s.self.id) [
  | yes own ↦ inl (own, rw (same_id-eq node.id s.self.id own) refl)
  | no other ↦
      inr (other, rw (same_id-ne node.id s.self.id other) (contacted env MessageType.join node s))
]
