-- ===== src/Core/Run/Own.antt =====
-- What the operations of a node do to its own record.
use libgossip.Base.{
  ℕ, ◌≡◌, refl, ap, ◌∙◌, inl, inr, Bool, true, Option, none, some, List, [], ◌∷◌, arith, get_elem?,
  keep_if, Bool-cases, Option-cases,
}
use libgossip.Core.Handle.{
  is_greeting, wants_pong, pong_to, reply, process, unless_unknown, handle_message,
}
use libgossip.Core.Handle.Reply.{counted, absorbed, Listened-absorbed}
use libgossip.Core.Handle.Sender.{Listened-find_sender}
use libgossip.Core.Members.{
  make_core, record_locally, meet, join, tell, send_online, leave_message, leave_at, leave,
  cleanup_expired, reset, update_self_metadata,
}
use libgossip.Core.Members.Contacts.{record_locally_cases}
use libgossip.Core.Members.Metadata.{set_entries-SameNode}
use libgossip.Core.Run.{step, run, Call}
use libgossip.Core.State.{inc64, same_id, send, select_random_peers, draw, Core, Env}
use libgossip.Core.State.Frame.{self-notify}
use libgossip.Core.Tick.{
  ping, ping_all, beat, detect_as, detect, detect_all, stamp_self, tick, is_online,
  tick_full_broadcast,
}
use libgossip.Core.Tick.Pings.{ping_online-ping_all}
use libgossip.Node.{NodeId, NodeStatus, NodeView, GossipMessage}

-- `beat` on this node's record.
abbrev pub beaten : NodeView → NodeView
beaten n = record n { heartbeat = inc64 n.heartbeat; version = inc64 n.version }

self-ping_all : (env : Env) (ts : List NodeView) (s : Core) → (ping_all env ts s).self ≡ s.self
unfolding ping_all
self-ping_all env [] s = refl
self-ping_all env (t ∷ ts) s = self-ping_all env ts (ping env t s)

self-detect_as :
    (st : NodeStatus) (env : Env) (n : NodeView) (s : Core) → (detect_as st env n s).1.self ≡ s.self
unfolding detect
self-detect_as NodeStatus.online env n s = ground arith
self-detect_as NodeStatus.suspect env n s = ground arith
self-detect_as _ env n s = refl

self-detect_all :
    (env : Env) (ns : List NodeView) (s : Core) → (detect_all env ns s).1.self ≡ s.self
unfolding detect_all
self-detect_all env [] s = refl
self-detect_all env (n ∷ ns) s =
    self-detect_all env ns (detect env n s).1 ∙ self-detect_as n.status env n s

-- A tick leaves this node as it was but for the time and one heartbeat more.
pub self-tick : (env : Env) (s : Core) → (tick env s).self ≡ (beat (stamp_self env s)).self
unfolding tick
self-tick env s =
    let s1 = stamp_self env s in
    let targets = select_random_peers env s.gossip_nodes (some s.self.id) s1 in
    let s2 = ping_all env targets (draw s1) in
    self-detect_all env s2.nodes (beat s2)
    ∙ ap (λ n. beaten n) (self-ping_all env targets (draw s1))

pub self-tick_full_broadcast :
    (env : Env) (s : Core) → (tick_full_broadcast env s).self ≡ (beat (stamp_self env s)).self
unfolding tick_full_broadcast
self-tick_full_broadcast env s =
    let s1 = stamp_self env s in
    ap (λ n. beaten n)
      (ap (λ c. c.self) (ping_online-ping_all env s.nodes s1)
        ∙ self-ping_all env (keep_if is_online s.nodes) s1)

self-pong_to :
    (env : Env) (t : Option NodeView) (msg : GossipMessage) (s : Core)
    → (pong_to env t msg s).self ≡ s.self
unfolding pong_to
self-pong_to env none msg s = refl
self-pong_to env (some t) msg s = refl

self-reply :
    (env : Env) (i : Option ℕ) (msg : GossipMessage) (s : Core) → (reply env i msg s).self ≡ s.self
unfolding reply
self-reply env none msg s = refl
self-reply env (some i) msg s = elim (Bool-cases (wants_pong msg)) [
  | inl w ↦ rw w (self-pong_to env (get_elem? s.nodes i) msg s)
  | inr w ↦ rw w refl
]

self-process :
    (env : Env) (msg : GossipMessage) (recv : ℕ) (i : Option ℕ) (s : Core)
    → (process env msg recv i s).self ≡ s.self
unfolding process
self-process env msg recv i s =
    self-reply env i msg (absorbed msg recv i s) ∙ (Listened-absorbed msg recv i s).self

self-unless_unknown :
    (env : Env) (msg : GossipMessage) (recv : ℕ) (i : Option ℕ) (s : Core)
    → (unless_unknown env msg recv i s).self ≡ s.self
unfolding unless_unknown
self-unless_unknown env msg recv none s = elim (Bool-cases (is_greeting msg)) [
  | inl g ↦ rw g (self-process env msg recv none s)
  | inr g ↦ rw g refl
]
self-unless_unknown env msg recv (some i) s = self-process env msg recv (some i) s

-- No message changes the node that handles it.
pub self-handle_message :
    (env : Env) (msg : GossipMessage) (recv : ℕ) (s : Core)
    → (handle_message env msg recv s).self ≡ s.self
unfolding handle_message
self-handle_message env msg recv s =
    self-unless_unknown env msg recv _ _ ∙ (Listened-find_sender msg recv (counted s)).self

self-record_locally :
    (env : Env) (node : NodeView) (s : Core) → (record_locally env node s).self ≡ s.self
self-record_locally env node s = elim (record_locally_cases env node s) [
  | inl (_, e) ↦ ap (λ c. c.self) e
  | inr (_, e) ↦ ap (λ c. c.self) e ∙ self-notify _ _ _
]

pub self-meet : (env : Env) (node : NodeView) (s : Core) → (meet env node s).self ≡ s.self
unfolding meet send
self-meet env node s = elim (Bool-cases (same_id node.id s.self.id)) [
  | inl t ↦ rw t refl
  | inr f ↦ rw f (self-record_locally env node s)
]

pub self-join : (env : Env) (node : NodeView) (s : Core) → (join env node s).self ≡ s.self
unfolding join send
self-join env node s = elim (Bool-cases (same_id node.id s.self.id)) [
  | inl t ↦ rw t refl
  | inr f ↦ rw f (self-record_locally env node s)
]

self-send_online :
    (m : GossipMessage) (id : NodeId) (ns : List NodeView) (s : Core)
    → (send_online m id ns s).self ≡ s.self
unfolding send_online tell send
self-send_online m id [] s = refl
self-send_online m id (n ∷ ns) s = self-send_online m id ns (tell m id n s) ∙ ground arith

pub self-leave_at : (i : Option ℕ) (id : NodeId) (s : Core) → (leave_at i id s).self ≡ s.self
unfolding leave_at
self-leave_at none id s = refl
self-leave_at (some i) id s = elim (Option-cases (get_elem? s.nodes i)) [
  | inl e ↦ rw (e, leave_at) refl
  | inr (n, e) ↦
      rw (e, leave_at) (self-notify _ _ _ ∙ self-send_online (leave_message n s) id s.nodes s)
]

step-status : (env : Env) (c : Call) (s : Core) → (step env c s).self.status ≡ s.self.status
unfolding step leave cleanup_expired update_self_metadata reset
step-status env Call.ticks s = ap (λ n. n.status) (self-tick env s)
step-status env Call.broadcasts s = ap (λ n. n.status) (self-tick_full_broadcast env s)
step-status env (Call.handles msg recv) s = ap (λ n. n.status) (self-handle_message env msg recv s)
step-status env (Call.meets node) s = ap (λ n. n.status) (self-meet env node s)
step-status env (Call.joins node) s = ap (λ n. n.status) (self-join env node s)
step-status env (Call.leaves id) s = ap (λ n. n.status) (self-leave_at _ id s)
step-status env (Call.cleans timeout) s = refl
step-status env Call.resets s = refl
step-status env (Call.updates md) s = ap (λ n. n.status) (set_entries-SameNode env md s.self)

run-status : (env : Env) (cs : List Call) (s : Core) → (run env cs s).self.status ≡ s.self.status
unfolding run
run-status env [] s = refl
run-status env (c ∷ cs) s = run-status env cs (step env c s) ∙ step-status env c s

-- A node that was constructed is online in its own record after any history of calls, whatever the
-- messages say of it.
run-online :
    (env : Env) (self : NodeView) (has_event : Bool) (cs : List Call) (s : Core)
    → make_core env self true has_event ≡ some s
    → (run env cs s).self.status ≡ NodeStatus.online
unfolding make_core
run-online env self has_event cs s e = run-status env cs s ∙ ground (arith, e)
