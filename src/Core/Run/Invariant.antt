-- ===== src/Core/Run/Invariant.antt =====
-- What holds of the node list after any history.
use libgossip.Base.{
  ◌≡◌, sym, subst, ◌≢◌, ◌⊎◌, inl, inr, List, [], ◌∷◌, arith, find_index, find_index-get_elem?, All,
  All-append, All-keep_if, All-modify, All2, Option-cases,
}
use libgossip.Core.Handle.Statuses.{All-handle_message, IsRecorded, IsRecorded-IsKept}
use libgossip.Core.Members.{leave, cleanup_expired, reset, update_self_metadata}
use libgossip.Core.Members.Contacts.{meet-Contacted, join-Contacted, Contacted}
use libgossip.Core.Members.Queries.{leave_unknown, leave_known}
use libgossip.Core.Run.{step, run, Call}
use libgossip.Core.State.{Core, Env}
use libgossip.Core.Tick.{stamp_self, tick_full_broadcast}
use libgossip.Core.Tick.Detect.{Judged}
use libgossip.Core.Tick.Pings.{nodes-ping_online}
use libgossip.Core.Tick.Rounds.{tick-Judged}
use libgossip.Core.Update.{has_id}
use libgossip.Node.{NodeId, MessageType, NodeView}

All-Judged : (ns ms : List NodeView) → All2 Judged ns ms → All IsRecorded ns → All IsRecorded ms
All-Judged [] [] j h = tt
All-Judged [] (m ∷ ms) j h = absurd j
All-Judged (n ∷ ns) [] j h = absurd j
All-Judged (n ∷ ns) (m ∷ ms) j h = (ground (arith, j.0.ages, h.0), All-Judged ns ms j.1 h.1)

IsRecorded-contact :
    (env : Env) (type : MessageType) (node : NodeView) (s s' : Core)
    → ((node.id ≡ s.self.id) × (s' ≡ s)) ⊎ ((node.id ≢ s.self.id) × Contacted env type node s s')
    → All IsRecorded s.nodes
    → All IsRecorded s'.nodes
IsRecorded-contact env type node s s' (inl (_, same)) h = rw same h
IsRecorded-contact env type node s s' (inr (_, c)) h = elim c.nodes [
  | inl same ↦ rw same h
  | inr (_, longer) ↦ rw longer (All-append IsRecorded s.nodes _ h ((λ e. cc), tt))
]

IsRecorded-leave :
    (id : NodeId) (s : Core) → All IsRecorded s.nodes → All IsRecorded (leave id s).nodes
IsRecorded-leave id s h = elim (Option-cases (find_index (has_id id) s.nodes)) [
  | inl e ↦ rw (leave_unknown id s e) h
  | inr (i, e) ↦
      let (n, at, _) = find_index-get_elem? (has_id id) s.nodes e in
      let left = leave_known id s {i = i} {n = n} e at in
      subst (All IsRecorded) (sym left.3) (All-modify IsRecorded i _ s.nodes (λ x _ _ f. cc) h)
]

-- No operation records a node with the status `unknown`.
pub step-IsRecorded :
    (env : Env) (c : Call) (s : Core) → All IsRecorded s.nodes → All IsRecorded (step env c s).nodes
unfolding step tick_full_broadcast cleanup_expired reset update_self_metadata
step-IsRecorded env Call.ticks s h = All-Judged s.nodes _ (tick-Judged env s) h
step-IsRecorded env Call.broadcasts s h = rw (nodes-ping_online env s.nodes (stamp_self env s)) h
step-IsRecorded env (Call.handles msg recv) s h =
    All-handle_message IsRecorded IsRecorded-IsKept env msg recv s h
step-IsRecorded env (Call.meets node) s h =
    IsRecorded-contact env MessageType.meet node s _ (meet-Contacted env node s) h
step-IsRecorded env (Call.joins node) s h =
    IsRecorded-contact env MessageType.join node s _ (join-Contacted env node s) h
step-IsRecorded env (Call.leaves id) s h = IsRecorded-leave id s h
step-IsRecorded env (Call.cleans timeout) s h = All-keep_if IsRecorded _ s.nodes h
step-IsRecorded env Call.resets s h = tt
step-IsRecorded env (Call.updates md) s h = h

-- From a state in which no node has the status unknown, no history of calls leads to one in which a
-- node has.
pub run-IsRecorded :
    (env : Env) (cs : List Call) (s : Core)
    → All IsRecorded s.nodes
    → All IsRecorded (run env cs s).nodes
unfolding run
run-IsRecorded env [] s h = h
run-IsRecorded env (c ∷ cs) s h = run-IsRecorded env cs (step env c s) (step-IsRecorded env c s h)
