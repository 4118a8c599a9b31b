-- ===== src/Core/Tick/Detect.antt =====
-- The failure detection of tick, for one node.
use libgossip.Base.{◌≡◌, refl, ◌≢◌, ◌⊎◌, true, arith, ◌+ℤ◌, ltb_ℤ, pos}
use libgossip.Core.State.{Core, Env}
use libgossip.Core.Tick.{detect_as, detect}
use libgossip.Node.{NodeStatus, NodeView}

-- A status may stay, go from online to suspect, and from suspect to failed.
abbrev pub Ages : NodeStatus → NodeStatus → Type 0
Ages old new =
    (new ≡ old)
    ⊎ ((old ≡ NodeStatus.online) × (new ≡ NodeStatus.suspect))
    ⊎ ((old ≡ NodeStatus.suspect) × (new ≡ NodeStatus.failed))

-- `node'` is `node` after a round of failure detection: only the status and the suspicion may
-- differ, the status by one step at most, and every change of it raises the suspicion by one.
pub record Judged (node node' : NodeView) : Type 0 where
  pub ages : Ages node.status node'.status
  pub rest : node' ≡ record node {
    status = node'.status;
    suspicion_count = node'.suspicion_count;
    last_suspected = node'.last_suspected;
  }
  pub counted :
      ((node'.suspicion_count ≡ node.suspicion_count)
        × (node'.status ≡ node.status)
        × (node'.last_suspected ≡ node.last_suspected))
      ⊎ (node'.suspicion_count ≡ node.suspicion_count +ℤ pos 1)
  pub patient :
      (node'.status ≢ NodeStatus.failed)
      ⊎ (node.status ≡ NodeStatus.failed)
      ⊎ (ltb_ℤ (pos 3) node'.suspicion_count ≡ true)

judge :
    (st : NodeStatus) (env : Env) (node : NodeView) (s : Core)
    → node.status ≡ st
    → Judged node (detect_as st env node s).0
unfolding detect
judge NodeStatus.online env node s e = ground arith
judge NodeStatus.suspect env node s e = ground arith
judge _ env node s e = ground arith

-- One round of failure detection ages a node by one step at most; a node fails only by a suspicion
-- above three.
pub detect-Judged : (env : Env) (node : NodeView) (s : Core) → Judged node (detect env node s).0
unfolding detect
detect-Judged env node s = judge node.status env node s refl
