-- ===== src/Core/Members/Cleanup.antt =====
-- cleanup_expired and reset.
use mathlib.Core.List.{Mem}
use libgossip.Base.{ℕ, ◌≤◌, ◌≡◌, ◌↔◌, ◌⊎◌, not, arith}
use libgossip.Base.Perm.{mem-keep_if}
use libgossip.Core.Members.{expired, cleanup_expired}
use libgossip.Core.State.{elapsed_ms, Core, Env}
use libgossip.Node.{NodeStatus, NodeView}

-- A node is in the list after a clean-up exactly if it was before and is online or has been silent
-- for no longer than the timeout.
pub mem-cleanup_expired :
    (env : Env) (timeout : ℕ) (s : Core) {n : NodeView}
    → Mem n (cleanup_expired env timeout s).nodes ↔ (
        Mem n s.nodes
        × ((n.status ≡ NodeStatus.online) ⊎ (elapsed_ms (env.now s.reads) n.seen_time ≤ timeout)))
unfolding cleanup_expired
mem-cleanup_expired env timeout s {n} =
    let here = mem-keep_if (λ m. not (expired timeout (env.now s.reads) m)) s.nodes {a = n} in
    (λ m. let (h, t) = here.0 m in (h, ground (arith, t)), λ h. here.1 (h.0, ground (arith, h.1)))
