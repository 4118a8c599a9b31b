-- ===== src/Core/Run/Identity.antt =====
-- What no history changes: who this node is, where it is, and the parameters of the protocol.
use libgossip.Base.{
  ℕ, ◌≡◌, refl, ap, ◌∙◌, inl, inr, Option, none, some, List, [], ◌∷◌, arith, get_elem?, find_index,
  keep_if, Bool-cases, Option-cases,
}
use libgossip.Base.Map.{Dictionary}
use libgossip.Core.Handle.{
  is_greeting, wants_pong, pong_to, reply, process, unless_unknown, handle_message,
}
use libgossip.Core.Handle.Reply.{counted, Listened-absorbed}
use libgossip.Core.Handle.Sender.{Listened-find_sender}
use libgossip.Core.Members.{
  record_at, meet, join, tell, send_online, leave_message, leave_at, leave, cleanup_expired, reset,
  update_self_metadata,
}
use libgossip.Core.Members.Metadata.{set_entries-SameNode}
use libgossip.Core.Run.{step, run, Call}
use libgossip.Core.State.{same_id, notify, send, select_random_peers, draw, Core, Env}
use libgossip.Core.State.Frame.{Listened-notify, Listened}
use libgossip.Core.Tick.{
  ping, ping_all, beat, detect_as, detect, detect_all, stamp_self, tick, is_online, ping_online,
  tick_full_broadcast,
}
use libgossip.Core.Tick.Pings.{ping_online-ping_all}
use libgossip.Core.Update.{has_id}
use libgossip.Node.{NodeId, NodeStatus, NodeView, GossipMessage}

pub record SameSelf (s s' : Core) : Type 0 where
  pub id : s'.self.id ≡ s.self.id
  pub ip : s'.self.ip ≡ s.self.ip
  pub port : s'.self.port ≡ s.self.port
  pub event_fn : s'.event_fn ≡ s.event_fn
  pub failure_timeout : s'.failure_timeout ≡ s.failure_timeout
  pub gossip_nodes : s'.gossip_nodes ≡ s.gossip_nodes
  pub sync_nodes : s'.sync_nodes ≡ s.sync_nodes

SameSelf-trans : {s t u : Core} → SameSelf s t → SameSelf t u → SameSelf s u
SameSelf-trans p q = record {
  id = q.id ∙ p.id;
  ip = q.ip ∙ p.ip;
  port = q.port ∙ p.port;
  event_fn = q.event_fn ∙ p.event_fn;
  failure_timeout = q.failure_timeout ∙ p.failure_timeout;
  gossip_nodes = q.gossip_nodes ∙ p.gossip_nodes;
  sync_nodes = q.sync_nodes ∙ p.sync_nodes;
}

-- A change of other members only.
plain :
    {s s' : Core}
    → s'.self ≡ s.self
    → s'.event_fn ≡ s.event_fn
    → s'.failure_timeout ≡ s.failure_timeout
    → s'.gossip_nodes ≡ s.gossip_nodes
    → s'.sync_nodes ≡ s.sync_nodes
    → SameSelf s s'
plain e f t g y = record {
  id = ap (λ n. n.id) e;
  ip = ap (λ n. n.ip) e;
  port = ap (λ n. n.port) e;
  event_fn = f;
  failure_timeout = t;
  gossip_nodes = g;
  sync_nodes = y;
}

heard : {s s' : Core} → Listened s s' → SameSelf s s'
heard l = plain l.self l.event_fn l.failure_timeout l.gossip_nodes l.sync_nodes

same_ping_all : (env : Env) (ts : List NodeView) (s : Core) → SameSelf s (ping_all env ts s)
unfolding ping_all
same_ping_all env [] s = plain refl refl refl refl refl
same_ping_all env (t ∷ ts) s =
    SameSelf-trans (plain refl refl refl refl refl) (same_ping_all env ts (ping env t s))

same_detect_as :
    (st : NodeStatus) (env : Env) (n : NodeView) (s : Core) → SameSelf s (detect_as st env n s).1
unfolding detect
same_detect_as NodeStatus.online env n s = ground arith
same_detect_as NodeStatus.suspect env n s = ground arith
same_detect_as _ env n s = plain refl refl refl refl refl

same_detect_all : (env : Env) (ns : List NodeView) (s : Core) → SameSelf s (detect_all env ns s).1
unfolding detect_all
same_detect_all env [] s = plain refl refl refl refl refl
same_detect_all env (n ∷ ns) s =
    SameSelf-trans (same_detect_as n.status env n s) (same_detect_all env ns (detect env n s).1)

same_pong_to :
    (env : Env) (t : Option NodeView) (msg : GossipMessage) (s : Core)
    → SameSelf s (pong_to env t msg s)
unfolding pong_to
same_pong_to env none msg s = plain refl refl refl refl refl
same_pong_to env (some t) msg s = plain refl refl refl refl refl

same_reply :
    (env : Env) (i : Option ℕ) (msg : GossipMessage) (s : Core) → SameSelf s (reply env i msg s)
unfolding reply
same_reply env none msg s = plain refl refl refl refl refl
same_reply env (some i) msg s = elim (Bool-cases (wants_pong msg)) [
  | inl w ↦ rw w (same_pong_to env (get_elem? s.nodes i) msg s)
  | inr w ↦ rw w (plain refl refl refl refl refl)
]

same_process :
    (env : Env) (msg : GossipMessage) (recv : ℕ) (i : Option ℕ) (s : Core)
    → SameSelf s (process env msg recv i s)
unfolding process
same_process env msg recv i s =
    SameSelf-trans (heard (Listened-absorbed msg recv i s)) (same_reply env i msg _)

same_unless :
    (env : Env) (msg : GossipMessage) (recv : ℕ) (i : Option ℕ) (s : Core)
    → SameSelf s (unless_unknown env msg recv i s)
unfolding unless_unknown
same_unless env msg recv none s = elim (Bool-cases (is_greeting msg)) [
  | inl g ↦ rw g (same_process env msg recv none s)
  | inr g ↦ rw g (plain refl refl refl refl refl)
]
same_unless env msg recv (some i) s = same_process env msg recv (some i) s

same_handle_message :
    (env : Env) (msg : GossipMessage) (recv : ℕ) (s : Core)
    → SameSelf s (handle_message env msg recv s)
unfolding handle_message
same_handle_message env msg recv s =
    SameSelf-trans {t = counted s} (plain refl refl refl refl refl) (
      SameSelf-trans (heard (Listened-find_sender msg recv (counted s)))
        (same_unless env msg recv _ _))

same_notify : (n : NodeView) (st : NodeStatus) (s : Core) → SameSelf s (notify n st s)
same_notify n st s = heard (Listened-notify n st s)

same_record :
    (env : Env) (i : Option ℕ) (node : NodeView) (s : Core) → SameSelf s (record_at env i node s)
unfolding record_at
same_record env (some i) node s = plain refl refl refl refl refl
same_record env none node s = SameSelf-trans (plain refl refl refl refl refl) (same_notify _ _ _)

same_send : (m : GossipMessage) (n : NodeView) (s : Core) → SameSelf s (send m n s)
unfolding send
same_send m n s = plain refl refl refl refl refl

same_meet : (env : Env) (node : NodeView) (s : Core) → SameSelf s (meet env node s)
unfolding meet
same_meet env node s = elim (Bool-cases (same_id node.id s.self.id)) [
  | inl t ↦ rw t (plain refl refl refl refl refl)
  | inr f ↦ rw f (SameSelf-trans (same_record env _ node s) (same_send _ node _))
]

same_join : (env : Env) (node : NodeView) (s : Core) → SameSelf s (join env node s)
unfolding join
same_join env node s = elim (Bool-cases (same_id node.id s.self.id)) [
  | inl t ↦ rw t (plain refl refl refl refl refl)
  | inr f ↦ rw f (SameSelf-trans (same_record env _ node s) (same_send _ node _))
]

same_tell : (m : GossipMessage) (id : NodeId) (n : NodeView) (s : Core) → SameSelf s (tell m id n s)
unfolding tell
same_tell m id n s = ground arith

same_send_online :
    (m : GossipMessage) (id : NodeId) (ns : List NodeView) (s : Core)
    → SameSelf s (send_online m id ns s)
unfolding send_online
same_send_online m id [] s = plain refl refl refl refl refl
same_send_online m id (n ∷ ns) s =
    SameSelf-trans (same_tell m id n s) (same_send_online m id ns (tell m id n s))

same_leave_at : (i : Option ℕ) (id : NodeId) (s : Core) → SameSelf s (leave_at i id s)
unfolding leave_at
same_leave_at none id s = plain refl refl refl refl refl
same_leave_at (some i) id s = elim (Option-cases (get_elem? s.nodes i)) [
  | inl e ↦ rw (e, leave_at) (plain refl refl refl refl refl)
  | inr (n, e) ↦
      rw (e, leave_at)
        (SameSelf-trans (same_send_online (leave_message n s) id s.nodes s)
          (SameSelf-trans (plain refl refl refl refl refl) (same_notify _ _ _)))
]

same_leave : (id : NodeId) (s : Core) → SameSelf s (leave id s)
unfolding leave
same_leave id s = same_leave_at (find_index (has_id id) s.nodes) id s

same_tick : (env : Env) (s : Core) → SameSelf s (tick env s)
unfolding tick
same_tick env s =
    let s1 = draw (stamp_self env s) in
    let targets = select_random_peers env s.gossip_nodes (some s.self.id) (stamp_self env s) in
    let s2 = ping_all env targets s1 in
    let beaten = beat s2 in
    let start : SameSelf s s1 = ground arith in
    let beating : SameSelf s2 beaten = ground arith in
    SameSelf-trans start (
      SameSelf-trans (same_ping_all env targets s1) (
        SameSelf-trans beating
          (SameSelf-trans (same_detect_all env s2.nodes beaten) (plain refl refl refl refl refl))))

same_broadcast : (env : Env) (s : Core) → SameSelf s (tick_full_broadcast env s)
unfolding tick_full_broadcast
same_broadcast env s =
    let s1 = stamp_self env s in
    let start : SameSelf s s1 = ground arith in
    let s2 = ping_online env s.nodes s1 in
    let pinged : SameSelf s1 s2 =
      rw (ping_online-ping_all env s.nodes s1) (same_ping_all env (keep_if is_online s.nodes) s1) in
    let beating : SameSelf s2 (beat s2) = ground arith in
    SameSelf-trans start (SameSelf-trans pinged beating)

same_update : (env : Env) (md : Dictionary) (s : Core) → SameSelf s (update_self_metadata env md s)
unfolding update_self_metadata
same_update env md s =
    let same = set_entries-SameNode env md s.self in
    record {
      id = ap (λ n. n.id) same;
      ip = ap (λ n. n.ip) same;
      port = ap (λ n. n.port) same;
      event_fn = refl;
      failure_timeout = refl;
      gossip_nodes = refl;
      sync_nodes = refl;
    }

pub step-SameSelf : (env : Env) (c : Call) (s : Core) → SameSelf s (step env c s)
unfolding step cleanup_expired reset
step-SameSelf env Call.ticks s = same_tick env s
step-SameSelf env Call.broadcasts s = same_broadcast env s
step-SameSelf env (Call.handles msg recv) s = same_handle_message env msg recv s
step-SameSelf env (Call.meets node) s = same_meet env node s
step-SameSelf env (Call.joins node) s = same_join env node s
step-SameSelf env (Call.leaves id) s = same_leave id s
step-SameSelf env (Call.cleans timeout) s = plain refl refl refl refl refl
step-SameSelf env Call.resets s = ground arith
step-SameSelf env (Call.updates md) s = same_update env md s

-- After any history of calls this node has the id and the address that it had, its event callback,
-- the failure timeout and the numbers of targets and of further nodes.
run-SameSelf : (env : Env) (cs : List Call) (s : Core) → SameSelf s (run env cs s)
unfolding run
run-SameSelf env [] s = plain refl refl refl refl refl
run-SameSelf env (c ∷ cs) s =
    SameSelf-trans (step-SameSelf env c s) (run-SameSelf env cs (step env c s))
