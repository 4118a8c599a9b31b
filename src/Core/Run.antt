-- ===== src/Core/Run.antt =====
-- Histories of a gossip_core: any sequence of calls of its public operations.
pub mod Invariant
pub mod Identity
pub mod Own
use libgossip.Base.{ℕ, List, [], ◌∷◌}
use libgossip.Base.Map.{Dictionary}
use libgossip.Core.Handle.{handle_message}
use libgossip.Core.Members.{meet, join, leave, cleanup_expired, reset, update_self_metadata}
use libgossip.Core.State.{Core, Env}
use libgossip.Core.Tick.{tick, tick_full_broadcast}
use libgossip.Node.{NodeId, NodeView, GossipMessage}

-- A call of an operation that changes state.
pub data Call : Type 0 where
  ticks : Call
  broadcasts : Call
  handles : GossipMessage → ℕ → Call
  meets : NodeView → Call
  joins : NodeView → Call
  leaves : NodeId → Call
  cleans : ℕ → Call
  resets : Call
  updates : Dictionary → Call

unfoldable pub step : Env → Call → Core → Core
step env Call.ticks s = tick env s
step env Call.broadcasts s = tick_full_broadcast env s
step env (Call.handles msg recv) s = handle_message env msg recv s
step env (Call.meets node) s = meet env node s
step env (Call.joins node) s = join env node s
step env (Call.leaves id) s = leave id s
step env (Call.cleans timeout) s = cleanup_expired env timeout s
step env Call.resets s = reset env s
step env (Call.updates md) s = update_self_metadata env md s

unfoldable pub run : Env → List Call → Core → Core
unfolding step
run env [] s = s
run env (c ∷ cs) s = run env cs (step env c s)
