-- ===== src/Cluster/Clocks.antt =====
-- What the operations of a node do to its own heartbeat and epoch.
use libgossip.Base.{ℕ, ◌+◌, ◌^◌, ◌≤◌, ◌<◌, ◌≡◌, refl, ap, arith}
use libgossip.Cluster.{Cluster, IsFair}
use libgossip.Core.Members.{leave, size, cleanup_expired, set_entries, update_self_metadata}
use libgossip.Core.Members.Metadata.{set_entries-SameNode}
use libgossip.Core.Run.{step, Call}
use libgossip.Core.Run.Own.{
  beaten, self-tick, self-tick_full_broadcast, self-handle_message, self-meet, self-join,
  self-leave_at,
}
use libgossip.Core.State.{Core, Env}
use libgossip.Node.{NodeView}

-- The heartbeat and the epoch of a node after a call of one of its operations.
pub record Beats (s s' : Core) : Type 0 where
  pub heartbeat : s.self.heartbeat ≤ s'.self.heartbeat
  pub config_epoch : s.self.config_epoch ≤ s'.self.config_epoch

Beats-same : (s s' : Core) → s'.self ≡ s.self → Beats s s'
Beats-same s s' e = record { heartbeat = rw e (omega arith); config_epoch = rw e (omega arith) }

Beats-beat :
    (s s' : Core) (n : NodeView)
    → s.self.heartbeat + 1 < 2 ^ 64
    → n.heartbeat ≡ s.self.heartbeat
    → s.self.config_epoch ≤ n.config_epoch
    → s'.self ≡ beaten n
    → Beats s s'
Beats-beat s s' n small same epoch e = record {
  heartbeat = rw e (rw same (omega arith));
  config_epoch = rw e epoch;
}

pub step-Beats :
    (size : ℕ) (env : ℕ → Env) (c : Cluster) (i : ℕ) (call : Call)
    → IsFair size env c i call
    → Beats (c i) (step (env i) call (c i))
unfolding step leave cleanup_expired update_self_metadata
step-Beats size env c i Call.ticks small =
    Beats-beat (c i) _ _ small refl (omega arith) (self-tick (env i) (c i))
step-Beats size env c i Call.broadcasts small =
    Beats-beat (c i) _ _ small refl (omega arith) (self-tick_full_broadcast (env i) (c i))
step-Beats size env c i (Call.handles msg recv) fair =
    Beats-same (c i) _ (self-handle_message (env i) msg recv (c i))
step-Beats size env c i (Call.meets node) fair = Beats-same (c i) _ (self-meet (env i) node (c i))
step-Beats size env c i (Call.joins node) fair = Beats-same (c i) _ (self-join (env i) node (c i))
step-Beats size env c i (Call.leaves id) fair = Beats-same (c i) _ (self-leave_at _ id (c i))
step-Beats size env c i (Call.cleans timeout) fair = Beats-same (c i) _ refl
step-Beats size env c i Call.resets fair = absurd fair
step-Beats size env c i (Call.updates md) (small, epoch) =
    Beats-beat (c i) _ (set_entries (env i) md (c i).self) small
      (ap (λ n. n.heartbeat) (set_entries-SameNode (env i) md (c i).self)) epoch refl
