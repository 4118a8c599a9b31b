-- ===== src/Core/Tick/Rounds.antt =====
-- The failure detection of a whole tick, and of one tick after another.
use libgossip.Base.{
  ℕ, suc, ◌≤◌, ◌≡◌, refl, subst, ◌∙◌, some, List, [], ◌∷◌, arith, All2, ltb, if◌then◌else◌, pos,
}
use libgossip.Core.State.{elapsed_ms, select_random_peers, draw, Core, Env}
use libgossip.Core.Tick.{
  detect_as, ping, ping_all, beat, suspect_once, detect, detect_all, stamp_self, tick,
}
use libgossip.Core.Tick.Detect.{detect-Judged, Judged}
use libgossip.Node.{NodeStatus, NodeView}

-- At least the timeout has passed at the reading `k` since the time `t`.
abbrev pub Stale : Env → Core → ℕ → ℕ → Type 0
Stale env s k t = s.failure_timeout ≤ elapsed_ms (env.now k) t

pub nodes-ping_all :
    (env : Env) (ts : List NodeView) (s : Core) → (ping_all env ts s).nodes ≡ s.nodes
unfolding ping_all
nodes-ping_all env [] s = refl
nodes-ping_all env (t ∷ ts) s = nodes-ping_all env ts (ping env t s)

pub reads-ping_all :
    (env : Env) (ts : List NodeView) (s : Core) → (ping_all env ts s).reads ≡ s.reads
unfolding ping_all
reads-ping_all env [] s = refl
reads-ping_all env (t ∷ ts) s = reads-ping_all env ts (ping env t s)

pub timeout-ping_all :
    (env : Env) (ts : List NodeView) (s : Core)
    → (ping_all env ts s).failure_timeout ≡ s.failure_timeout
unfolding ping_all
timeout-ping_all env [] s = refl
timeout-ping_all env (t ∷ ts) s = timeout-ping_all env ts (ping env t s)

pub detect_frame :
    (env : Env) (node : NodeView) (s : Core)
    → let s' = (detect env node s).1 in
      (s'.failure_timeout ≡ s.failure_timeout) × (s.reads ≤ s'.reads)
unfolding detect
detect_frame env node s = go node.status
  where
    go :
        (st : NodeStatus)
        → let s' = (detect_as st env node s).1 in
          (s'.failure_timeout ≡ s.failure_timeout) × (s.reads ≤ s'.reads)
    go NodeStatus.online = ground arith
    go NodeStatus.suspect = ground arith
    go _ = (refl, omega arith)

pub detect_all_frame :
    (env : Env) (nodes : List NodeView) (s : Core)
    → let s' = (detect_all env nodes s).1 in
      (s'.failure_timeout ≡ s.failure_timeout) × (s.reads ≤ s'.reads)
unfolding detect_all
detect_all_frame env [] s = (refl, omega arith)
detect_all_frame env (n ∷ ns) s =
    let here = detect_frame env n s in
    let later = detect_all_frame env ns (detect env n s).1 in
    (later.0 ∙ here.0, omega (arith, here.1, later.1))

detect_all-Judged :
    (env : Env) (nodes : List NodeView) (s : Core) → All2 Judged nodes (detect_all env nodes s).0
unfolding detect_all
detect_all-Judged env [] s = tt
detect_all-Judged env (n ∷ ns) s =
    (detect-Judged env n s, detect_all-Judged env ns (detect env n s).1)

-- A tick keeps every node at its place, and of a node only the status, the suspicion and its time
-- may differ: the status stays, goes from online to suspect, or from suspect to failed; either
-- nothing of these changes or the suspicion grows by one; and a node is failed only if it was or if
-- its suspicion is above three.
pub tick-Judged : (env : Env) (s : Core) → All2 Judged s.nodes (tick env s).nodes
unfolding tick
tick-Judged env s =
    let targets = select_random_peers env s.gossip_nodes (some s.self.id) (stamp_self env s) in
    let s2 = beat (ping_all env targets (draw (stamp_self env s))) in
    subst (λ ns. All2 Judged ns (detect_all env s2.nodes s2).0)
      (nodes-ping_all env targets (draw (stamp_self env s))) (detect_all-Judged env s2.nodes s2)

-- What one round makes of a node that was silent for the timeout.
pub detect_online-Stale :
    (env : Env) (n : NodeView) (s : Core)
    → n.status ≡ NodeStatus.online
    → Stale env s s.reads n.seen_time
    → ((detect env n s).0
        ≡ record (suspect_once (env.now (suc s.reads)) n) { status = NodeStatus.suspect })
      × ((detect env n s).1.reads ≡ suc (suc s.reads))
unfolding detect
detect_online-Stale env n s e h = ground arith

pub detect_suspect-Stale :
    (env : Env) (n : NodeView) (s : Core) {c : ℕ}
    → n.status ≡ NodeStatus.suspect
    → n.suspicion_count ≡ pos c
    → Stale env s s.reads n.last_suspected
    → ((detect env n s).0 ≡ record (suspect_once (env.now (suc s.reads)) n) {
      status = if ltb 2 c then NodeStatus.failed else NodeStatus.suspect;
    })
      × ((detect env n s).1.reads ≡ suc (suc s.reads))
unfolding detect
detect_suspect-Stale env n s {c} e f h = ground arith
