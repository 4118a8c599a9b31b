-- ===== src/CInterface/Memory.antt =====
-- The allocations of src/core/gossip_c.cpp, and the two callbacks from C++ to C.
pub mod Callbacks
use mathlib.Core.Option
use libgossip.Base.{
  ℕ, ◌+◌, ◌-◌, Bool, true, false, Option, none, some, List, [], ◌∷◌, map, length, ltb,
  if◌then◌else◌,
}
use libgossip.CInterface.{to_c_node_id, to_c_node_view, CNodeView, CMessage}
use libgossip.Core.State.{Effect, Core}
use libgossip.Node.{NodeStatus, NodeView, GossipMessage}
use libgossip.Node.Codes.{type_code, status_code}

-- How often malloc was asked, and how many of its blocks are not freed.
pub record Memory : Type 0 where
  pub asked : ℕ
  pub live : ℕ

-- malloc, where `grants k` says whether the k-th request succeeds.
unfoldable pub malloc : (ℕ → Bool) → Memory → Bool × Memory
malloc grants mem =
    if grants mem.asked
    then (true, record { asked = mem.asked + 1; live = mem.live + 1 })
    else (false, record mem { asked = mem.asked + 1 })

unfoldable pub release : Memory → Memory
release mem = record mem { live = mem.live - 1 }

abbrev pub c_message : GossipMessage → Option (List CNodeView) → ℕ → CMessage
c_message msg entries count = record {
  sender = to_c_node_id msg.sender;
  type = type_code msg.type;
  timestamp = msg.timestamp;
  entries = entries;
  entries_count = count;
}

-- `none`: malloc has failed, and the loop writes to the null pointer.
fill_entries : Bool × Memory → GossipMessage → Option (CMessage × Memory)
fill_entries (true, mem) msg =
    some (c_message msg (some (map to_c_node_view msg.entries)) (length msg.entries), mem)
fill_entries (false, mem) msg = none

unfoldable pub to_c_message : (ℕ → Bool) → GossipMessage → Memory → Option (CMessage × Memory)
unfolding fill_entries malloc to_c_node_view to_c_node_id type_code
to_c_message grants msg mem =
    if ltb 0 (length msg.entries)
    then fill_entries (malloc grants mem) msg
    else some (c_message msg none 0, mem)

-- The memory and the message after free_c_message.
unfoldable pub free_c_message : CMessage → Memory → CMessage × Memory
unfolding release
free_c_message c mem = elim c.entries [
  | none ↦ (record c { entries = none; entries_count = 0 }, mem)
  | some es ↦ (record c { entries = none; entries_count = 0 }, release mem)
]

-- gossip_core_wrapper: `send_callback` and `event_callback` say whether the pointers are set.
pub record Wrapper : Type 0 where
  pub core : Core
  pub send_callback : Bool
  pub event_callback : Bool

-- A call of one of the two C functions, with what its arguments point to.
pub data CCall : Type 0 where
  send_called : CMessage → CNodeView → CCall
  event_called : CNodeView → ℕ → CCall

-- The rest of send_callback_wrapper after to_c_message; the callback does not free the entries.
pass_message : NodeView → CMessage × Memory → List CCall × Memory
pass_message target (c, mem) =
    (CCall.send_called c (to_c_node_view target) ∷ [], (free_c_message c mem).1)

unfoldable pub send_callback_wrapper :
    (ℕ → Bool) → GossipMessage → NodeView → Wrapper → Memory → Option (List CCall × Memory)
unfolding to_c_message pass_message free_c_message to_c_node_view
send_callback_wrapper grants msg target w mem =
    if w.send_callback
    then Option.map (pass_message target) (to_c_message grants msg mem)
    else some ([], mem)

unfoldable pub event_callback_wrapper :
    NodeView → NodeStatus → Wrapper → Memory → Option (List CCall × Memory)
unfolding to_c_node_view status_code
event_callback_wrapper node old_status w mem =
    if w.event_callback
    then some (CCall.event_called (to_c_node_view node) (status_code old_status) ∷ [], mem)
    else some ([], mem)

-- The two lambdas that gossip_core_create hands to gossip_core.
unfoldable pub on_effect : (ℕ → Bool) → Effect → Wrapper → Memory → Option (List CCall × Memory)
unfolding send_callback_wrapper event_callback_wrapper
on_effect grants (Effect.sent msg target) w mem = send_callback_wrapper grants msg target w mem
on_effect grants (Effect.event node old_status) w mem = event_callback_wrapper node old_status w mem
