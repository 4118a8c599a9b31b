-- ===== src/Core/Tick/Silence.antt =====
-- A node that stays silent is suspected by the first tick after the timeout and failed by the
-- fourth.
use libgossip.Base.{
  ℕ, zero, suc, ◌-◌, ◌≤◌, ◌<◌, ◌≡◌, refl, subst, ◌∙◌, Option, some, List, [], ◌∷◌, arith, get_elem?,
  ltb, if◌then◌else◌, pos,
}
use libgossip.Core.State.{select_random_peers, draw, Core, Env, IsStd}
use libgossip.Core.Tick.{ping_all, beat, detect, detect_all, stamp_self, tick}
use libgossip.Core.Tick.Rounds.{
  Stale, nodes-ping_all, reads-ping_all, timeout-ping_all, detect_frame, detect_all_frame,
  detect_online-Stale, detect_suspect-Stale,
}
use libgossip.Node.{NodeStatus, NodeView}

-- The state in which a tick comes to the node at an index.
pub record Visit (env : Env) (n : NodeView) (from : Core) (found : Option NodeView) (until : ℕ)
    : Type 0 where
  pub state : Core
  pub left : found ≡ some (detect env n state).0
  pub after : from.reads ≤ state.reads
  pub before : (detect env n state).1.reads ≤ until
  pub same : state.failure_timeout ≡ from.failure_timeout

detect_all-Visit :
    (env : Env) (nodes : List NodeView) (s : Core) (i : ℕ) {n : NodeView}
    → get_elem? nodes i ≡ some n
    → Visit env n s (get_elem? (detect_all env nodes s).0 i) (detect_all env nodes s).1.reads
unfolding detect_all
detect_all-Visit env [] s i e = cc
detect_all-Visit env (m ∷ ms) s zero {n} e =
    let same : m ≡ n = cc in
    subst
      (λ k. Visit env k s (some (detect env m s).0) (detect_all env ms (detect env m s).1).1.reads)
      same
      (record {
        state = s;
        left = refl;
        after = omega arith;
        before = (detect_all_frame env ms (detect env m s).1).1;
        same = refl;
      })
detect_all-Visit env (m ∷ ms) s (suc i) {n} e =
    let v = detect_all-Visit env ms (detect env m s).1 i e in
    record {
      state = v.state;
      left = v.left;
      after = omega (arith, v.after, (detect_frame env m s).1);
      before = v.before;
      same = v.same ∙ (detect_frame env m s).0;
    }

-- As for a whole tick, which reads the clock once before and once after.
pub tick-Visit :
    (env : Env) (s : Core) (i : ℕ) {n : NodeView}
    → get_elem? s.nodes i ≡ some n
    → (v : Core) × (get_elem? (tick env s).nodes i ≡ some (detect env n v).0)
      × (s.reads ≤ v.reads)
      × ((detect env n v).1.reads < (tick env s).reads)
      × (v.failure_timeout ≡ s.failure_timeout)
      × ((tick env s).failure_timeout ≡ s.failure_timeout)
unfolding tick
tick-Visit env s i {n} e =
    let s1 = draw (stamp_self env s) in
    let targets = select_random_peers env s.gossip_nodes (some s.self.id) (stamp_self env s) in
    let s2 = beat (ping_all env targets s1) in
    let v = detect_all-Visit env s2.nodes s2 i {n = n} (rw (nodes-ping_all env targets s1) e) in
    (
      v.state,
      v.left,
      omega (arith, v.after, reads-ping_all env targets s1),
      omega (arith, v.before),
      v.same ∙ timeout-ping_all env targets s1,
      (detect_all_frame env s2.nodes s2).0 ∙ timeout-ping_all env targets s1,
    )

-- The node at `i` has been suspected `c` times, the last time at the reading `r`.
pub record IsDoubted (env : Env) (s : Core) (i c : ℕ) : Type 0 where
  pub node : NodeView
  pub found : get_elem? s.nodes i ≡ some node
  pub status : node.status ≡ NodeStatus.suspect
  pub count : node.suspicion_count ≡ pos c
  pub reading : ℕ
  pub moment : node.last_suspected ≡ env.now reading
  pub past : reading < s.reads

-- The timeout has passed between the last reading of the clock before a tick and its first one.
abbrev pub Rested : Env → Core → Type 0
Rested env s = Stale env s s.reads (env.now (s.reads - 1))

module _ (env : Env) (std : IsStd env) where
  tick_doubts :
      (s : Core) (i : ℕ) {n : NodeView}
      → get_elem? s.nodes i ≡ some n
      → n.status ≡ NodeStatus.online
      → n.suspicion_count ≡ pos 0
      → Stale env s s.reads n.seen_time
      → IsDoubted env (tick env s) i 1
  tick_doubts s i {n} e on zero_count stale =
      let (v, left, after, before, timeout, _) = tick-Visit env s i {n = n} e in
      let (what, reads) =
        detect_online-Stale env n v on (omega (arith, std.steady s.reads v.reads after, timeout)) in
      record {
        node = (detect env n v).0;
        found = left;
        status = rw what refl;
        count = rw (what, zero_count) refl;
        reading = suc v.reads;
        moment = rw what refl;
        past = omega (arith, before, reads);
      }

  tick_again :
      (s : Core) (i : ℕ) {c : ℕ}
      → IsDoubted env s i c
      → Rested env s
      → (n : NodeView) × (get_elem? (tick env s).nodes i ≡ some n)
        × (n.status ≡ (if ltb 2 c then NodeStatus.failed else NodeStatus.suspect))
        × (n.suspicion_count ≡ pos (suc c))
        × (r : ℕ) × (n.last_suspected ≡ env.now r)
        × (r < (tick env s).reads)
  tick_again s i {c} d rest =
      let (v, left, after, before, timeout, _) = tick-Visit env s i {n = d.node} d.found in
      let stale : Stale env v v.reads d.node.last_suspected = omega (
        arith,
        std.steady s.reads v.reads after,
        std.steady d.reading (s.reads - 1) (omega (arith, d.past)),
        timeout,
        d.moment,
      ) in
      let (what, reads) = detect_suspect-Stale env d.node v {c = c} d.status d.count stale in
      (
        (detect env d.node v).0,
        left,
        rw what refl,
        rw (what, d.count) (ground arith),
        suc v.reads,
        rw what refl,
        omega (arith, before, reads),
      )

  tick_doubts_more :
      (s : Core) (i : ℕ) {c : ℕ}
      → c < 3
      → IsDoubted env s i c
      → Rested env s
      → IsDoubted env (tick env s) i (suc c)
  tick_doubts_more s i {c} few d rest =
      let (n, found, status, count, r, moment, past) = tick_again s i d rest in
      record {
        node = n;
        found = found;
        status = ground (arith, status);
        count = count;
        reading = r;
        moment = moment;
        past = past;
      }

  -- With a steady clock: an online node with no suspicion that has been silent for the timeout, and
  -- stays so over four ticks of which each later one begins at least the timeout after the last
  -- clock reading of the one before, is suspect with one, two and three suspicions after the first,
  -- the second and the third tick, and failed with four after the fourth.
  pub silent_node_fails :
      (s : Core) (i : ℕ) {n : NodeView}
      → get_elem? s.nodes i ≡ some n
      → n.status ≡ NodeStatus.online
      → n.suspicion_count ≡ pos 0
      → Stale env s s.reads n.seen_time
      → Rested env (tick env s)
      → Rested env (tick env (tick env s))
      → Rested env (tick env (tick env (tick env s)))
      → IsDoubted env (tick env s) i 1
        × IsDoubted env (tick env (tick env s)) i 2
        × IsDoubted env (tick env (tick env (tick env s))) i 3
        × ((n' : NodeView) × (get_elem? (tick env (tick env (tick env (tick env s)))).nodes i
              ≡ some n')
            × (n'.status ≡ NodeStatus.failed)
            × (n'.suspicion_count ≡ pos 4))
  silent_node_fails s i {n} e on zero_count stale r1 r2 r3 =
      let s1 = tick env s in
      let s2 = tick env s1 in
      let d1 = tick_doubts s i {n = n} e on zero_count stale in
      let d2 = tick_doubts_more s1 i {c = 1} (omega arith) d1 r1 in
      let d3 = tick_doubts_more s2 i {c = 2} (omega arith) d2 r2 in
      let (n', found, status, count, _, _, _) = tick_again (tick env s2) i {c = 3} d3 r3 in
      (d1, d2, d3, (n', found, status, count))
