-- ===== src/Redis/Outrun.antt =====
-- The messages of the example are timed by the clock's milliseconds, which handle_message takes for
-- a heartbeat.
use libgossip.Base.{ℕ, ◌≤◌, ◌<◌, ◌≡◌, arith}
use libgossip.Core.Handle.{touch}
use libgossip.Core.Handle.Sender.{touch-Touched}
use libgossip.Core.State.{Core}
use libgossip.Core.Update.{merge}
use libgossip.Node.{NodeId, can_replace, MessageType, NodeView}
use libgossip.Redis.Node.{to_ms, example_message}

-- After a message of the example with the time `now` in milliseconds from the node `n`, the record's
-- heartbeat is that time at least, and no later record of the node whose heartbeat is below it, and
-- whose epoch is not above the record's, changes it.
outrun :
    (sender : NodeId) (type : MessageType) (now recv seen : ℕ) (entry n later : NodeView) (s : Core)
    → later.config_epoch ≤ n.config_epoch
    → later.heartbeat < to_ms now
    → let n' = (touch (example_message sender type (to_ms now) entry) recv n s).0 in
      (to_ms now ≤ n'.heartbeat) × (merge later seen n' ≡ n')
unfolding merge can_replace
outrun sender type now recv seen entry n later s epoch low =
    let msg = example_message sender type (to_ms now) entry in
    let t = touch-Touched msg recv n s in (t.caught_up, ground (arith, t.caught_up, t.same_node.4))
