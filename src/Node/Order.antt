-- ===== src/Node/Order.antt =====
-- node_view::newer_than and node_view::can_replace as orders on the two counters of a node.
use libgossip.Base.{ℕ, ◌<◌, ◌≡◌, ◌↔◌, ◌⊎◌, true, false, arith}
use libgossip.Node.{can_replace, NodeView}

-- (a, b) comes before (c, d), the first component first.
abbrev pub Before : ℕ → ℕ → ℕ → ℕ → Type 0
Before a b c d = (a < c) ⊎ ((a ≡ c) × (b < d))

-- can_replace orders nodes by the configuration epoch and then by the heartbeat: one node can
-- replace another exactly when its pair of counters is the greater one, no node can replace itself,
-- and neither of two can replace the other exactly when both counters agree.
pub can_replace_lem :
    (a b : NodeView)
    → ((can_replace a b ≡ true) ↔ Before b.config_epoch b.heartbeat a.config_epoch a.heartbeat)
      × (can_replace a a ≡ false)
      × (((can_replace a b ≡ false) × (can_replace b a ≡ false))
          ↔ ((a.config_epoch ≡ b.config_epoch) × (a.heartbeat ≡ b.heartbeat)))
unfolding can_replace
can_replace_lem a b = (ground arith, ground arith, ground arith)
