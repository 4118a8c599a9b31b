-- ===== src/Cluster/Calls.antt =====
-- Every operation but a reset keeps a property of records and of messages that speaks of ids,
-- addresses, epochs and heartbeats.
use libgossip.Base.{
  ℕ, ◌≡◌, refl, sym, subst, ◌≢◌, ◌⊎◌, inl, inr, List, [], ◌∷◌, arith, find_index,
  find_index-get_elem?, All, All-append, All-keep_if, All-modify, All-get_elem?, All2, Option-cases,
}
use libgossip.Checks.Jsons.{told}
use libgossip.Cluster.Answers.{handle_message_told}
use libgossip.Cluster.Handles.{Honest, Honest-OnlyEvents, IsTold}
use libgossip.Cluster.Ledger.{IsLedger}
use libgossip.Core.Members.{leave_message, leave, cleanup_expired, update_self_metadata}
use libgossip.Core.Members.Contacts.{meet-Contacted, join-Contacted, Contacted}
use libgossip.Core.Members.Queries.{leave_unknown, Told, leave_known}
use libgossip.Core.Run.{step, Call}
use libgossip.Core.State.{Effect, Core, Env, IsStd}
use libgossip.Core.State.Peers.{All-IsSample}
use libgossip.Core.Tick.{tick, tick_full_broadcast}
use libgossip.Core.Tick.Detect.{Judged}
use libgossip.Core.Tick.Pings.{Pings, tick-Pings, tick_full_broadcast-Pings}
use libgossip.Core.Tick.Rounds.{tick-Judged}
use libgossip.Core.Update.{has_id}
use libgossip.Node.{NodeId, blank_node, MessageType, NodeView, GossipMessage}

module _ (P : NodeView → Type 0) (Q : NodeId → ℕ → Type 0) where
  -- What an operation is given from the outside is honest.
  abbrev pub IsGiven : Call → Type 0
  IsGiven (Call.handles msg recv) = Q msg.sender msg.timestamp × All P msg.entries
  IsGiven (Call.meets node) = P node
  IsGiven (Call.joins node) = P node
  IsGiven Call.resets = ⊥
  IsGiven _ = Unit

  tell-IsHonest :
      (m : GossipMessage) (id : NodeId) (ns : List NodeView) (early late : List Effect)
      → Told m id ns early late
      → Honest P Q (Effect.sent m blank_node)
      → All (Honest P Q) early
      → All (Honest P Q) late
  tell-IsHonest m id [] early late same e h = subst (All (Honest P Q)) (sym same) h
  tell-IsHonest m id (n ∷ ns) early late (inl (_, rest)) e h =
      tell-IsHonest m id ns (Effect.sent m n ∷ early) late rest e (e, h)
  tell-IsHonest m id (n ∷ ns) early late (inr (_, rest)) e h =
      tell-IsHonest m id ns early late rest e h

module _ (P : NodeView → Type 0) (Q : NodeId → ℕ → Type 0) (ledger : IsLedger P Q) where
  Pings-IsHonest :
      (self : NodeView) (nodes : List NodeView) (k : ℕ) (ts : List NodeView)
      (early late : List Effect)
      → P self
      → Q self.id self.heartbeat
      → All P nodes
      → Pings self nodes k ts early late
      → All (Honest P Q) early
      → All (Honest P Q) late
  Pings-IsHonest self nodes k [] early late p q r e h = subst (All (Honest P Q)) (sym e) h
  Pings-IsHonest self nodes k (t ∷ ts) early late p q r (m, good, rest) h =
      Pings-IsHonest self nodes k ts (Effect.sent m t ∷ early) late p q r rest (honest, h)
    where
      honest : Honest P Q (Effect.sent m t)
      honest =
          let (sender, _, timestamp, (extras, entries, sample)) = good in
          (
            subst (λ id. Q id m.timestamp) (sym sender) (subst (Q self.id) (sym timestamp) q),
            subst (All P) (sym entries)
                (p, All-IsSample P k t.id nodes extras ledger.prop sample r),
          )

  Judged-IsHonest : (ns ms : List NodeView) → All2 Judged ns ms → All P ns → All P ms
  Judged-IsHonest [] [] j h = tt
  Judged-IsHonest [] (m ∷ ms) j h = absurd j
  Judged-IsHonest (n ∷ ns) [] j h = absurd j
  Judged-IsHonest (n ∷ ns) (m ∷ ms) j h = (
    ledger.same n m (ground (arith, j.0.rest)) (ground (arith, j.0.rest)) (ground (arith, j.0.rest))
        (ground (arith, j.0.rest)) (ground (arith, j.0.rest)) h.0,
    Judged-IsHonest ns ms j.1 h.1,
  )

  stamped : (env : Env) (s : Core) → P s.self → P (record s.self { seen_time = env.now s.reads })
  stamped env s = ledger.same s.self _ refl refl refl refl refl

  tick_told :
      (env : Env) (s : Core)
      → IsStd env
      → P s.self
      → Q s.self.id s.self.heartbeat
      → IsTold P Q s
      → IsTold P Q (tick env s)
  tick_told env s std p q h =
      let (targets, middle, _, pings, events) = tick-Pings env s std in
      record {
        nodes = Judged-IsHonest s.nodes _ (tick-Judged env s) h.nodes;
        trace = Honest-OnlyEvents P Q events (
            Pings-IsHonest _ s.nodes s.sync_nodes targets s.trace middle (stamped env s p) q h.nodes
              pings h.trace);
      }

  broadcast_told :
      (env : Env) (s : Core)
      → IsStd env
      → P s.self
      → Q s.self.id s.self.heartbeat
      → IsTold P Q s
      → IsTold P Q (tick_full_broadcast env s)
  broadcast_told env s std p q h =
      let (pings, same) = tick_full_broadcast-Pings env s std in
      record {
        nodes = subst (All P) (sym same) h.nodes;
        trace =
            Pings-IsHonest _ s.nodes s.sync_nodes _ s.trace _ (stamped env s p) q h.nodes pings
              h.trace;
      }

  contact_told :
      (env : Env) (type : MessageType) (node : NodeView) (s s' : Core)
      → P node
      → P s.self
      → Q s.self.id s.self.heartbeat
      → ((node.id ≡ s.self.id) × (s' ≡ s)) ⊎ ((node.id ≢ s.self.id) × Contacted env type node s s')
      → IsTold P Q s
      → IsTold P Q s'
  contact_told env type node s s' r p q (inl (_, same)) h = subst (IsTold P Q) (sym same) h
  contact_told env type node s s' r p q (inr (_, c)) h =
      let (before, events, sent) = c.message in
      record {
        nodes = elim c.nodes [
          | inl same ↦ subst (All P) (sym same) h.nodes
          | inr (_, longer) ↦
              subst (All P) (sym longer)
                (All-append P s.nodes _ h.nodes (ledger.same node _ refl refl refl refl refl r, tt))
        ];
        trace =
            subst (All (Honest P Q)) (sym sent)
              ((q, (p, tt)), Honest-OnlyEvents P Q events h.trace);
      }

  leave_told :
      (id : NodeId) (s : Core)
      → Q s.self.id s.self.heartbeat
      → IsTold P Q s
      → IsTold P Q (leave id s)
  leave_told id s q h = elim (Option-cases (find_index (has_id id) s.nodes)) [
    | inl e ↦ rw (leave_unknown id s e) h
    | inr (i, e) ↦
        let (n, at, _) = find_index-get_elem? (has_id id) s.nodes e in
        let (middle, told, events, nodes) = leave_known id s {i = i} {n = n} e at in
        let known : P n = All-get_elem? P i s.nodes at h.nodes in
        record {
          nodes = subst (All P) (sym nodes) (
              All-modify P i _ s.nodes (λ x _ _. ledger.same n _ refl refl refl refl refl known)
                h.nodes);
          trace = Honest-OnlyEvents P Q events (
              tell-IsHonest P Q (leave_message n s) id s.nodes s.trace middle told (q, (known, tt))
                h.trace);
        }
  ]

  pub step_told :
      (env : Env) (c : Call) (s : Core)
      → IsStd env
      → P s.self
      → Q s.self.id s.self.heartbeat
      → IsGiven P Q c
      → IsTold P Q s
      → IsTold P Q (step env c s)
  unfolding step cleanup_expired update_self_metadata
  step_told env Call.ticks s std p q g h = tick_told env s std p q h
  step_told env Call.broadcasts s std p q g h = broadcast_told env s std p q h
  step_told env (Call.handles msg recv) s std p q g h =
      handle_message_told P Q ledger env msg recv s std p q g h
  step_told env (Call.meets node) s std p q g h =
      contact_told env MessageType.meet node s _ g p q (meet-Contacted env node s) h
  step_told env (Call.joins node) s std p q g h =
      contact_told env MessageType.join node s _ g p q (join-Contacted env node s) h
  step_told env (Call.leaves id) s std p q g h = leave_told id s q h
  step_told env (Call.cleans timeout) s std p q g h = record {
    nodes = All-keep_if P _ s.nodes h.nodes;
    trace = h.trace;
  }
  step_told env Call.resets s std p q g h = absurd g
  step_told env (Call.updates md) s std p q g h = record { nodes = h.nodes; trace = h.trace }
