-- ===== src/CInterface/Api.antt =====
-- The functions gossip_core_* of src/core/gossip_c.cpp. A handle is null (`none`) or points to its
-- wrapper; a function gives what the handle points to afterwards.
pub mod Metadata
pub mod Bounds
use mathlib.Core.Option
use libgossip.Base.{
  ℕ, zero, suc, Bool, true, false, Option, none, some, List, [], ◌∷◌, map, length, ◌==◌,
  if◌then◌else◌, Bytes,
}
use libgossip.Base.Map.{Dictionary, insert}
use libgossip.CInterface.{
  to_cpp_node_id, to_cpp_node_view, to_c_node_view, to_cpp_message, CNodeView, CMessage,
}
use libgossip.CInterface.Memory.{malloc, release, Memory, Wrapper}
use libgossip.Core.Handle.{handle_message}
use libgossip.Core.Members.{
  make_core, meet, join, leave, get_nodes, size, find_node, reset, update_self_metadata,
}
use libgossip.Core.State.{tick_clock, send, Core, Env}
use libgossip.Core.Tick.{tick, tick_full_broadcast}
use libgossip.Node.{GossipMessage}

-- `new` gives a block; the two lambdas are never empty, whatever the C pointers are.
wrap : Bool → Bool → Option Core → Option Wrapper
wrap send event none = none
wrap send event (some core) =
    some (record { core = core; send_callback = send; event_callback = event })

unfoldable pub gossip_core_create : Env → Option CNodeView → (send event : Bool) → Option Wrapper
unfolding wrap to_cpp_node_view make_core
gossip_core_create env none send event = none
gossip_core_create env (some self_node) send event =
    wrap send event (make_core env (to_cpp_node_view self_node) true true)

-- `delete wrapper`: the handle points to nothing any more.
unfoldable pub gossip_core_destroy : Option Wrapper → Option Wrapper
gossip_core_destroy core = none

-- `if (core) wrapper->core->f();`
abbrev pub with_wrapper : (Core → Core) → Option Wrapper → Option Wrapper
with_wrapper f core = Option.map (λ (w : Wrapper). record w { core = f w.core }) core

unfoldable pub gossip_core_tick : Env → Option Wrapper → Option Wrapper
unfolding tick
gossip_core_tick env core = with_wrapper (tick env) core

unfoldable pub gossip_core_tick_full_broadcast : Env → Option Wrapper → Option Wrapper
unfolding tick_full_broadcast
gossip_core_tick_full_broadcast env core = with_wrapper (tick_full_broadcast env) core

-- A message with the time of the call.
abbrev pub handle_now : Env → GossipMessage → Core → Core
handle_now env msg s = handle_message env msg (env.now s.reads) (tick_clock s)

-- The outer `none`: the array of entries is shorter than the count says.
unfoldable pub gossip_core_handle_message :
    Env → Option Wrapper → Option CMessage → Option (Option Wrapper)
unfolding to_cpp_message handle_message
gossip_core_handle_message env none msg = some none
gossip_core_handle_message env (some w) none = some (some w)
gossip_core_handle_message env (some w) (some c) =
    Option.map (λ msg. with_wrapper (handle_now env msg) (some w)) (to_cpp_message c)

unfoldable pub gossip_core_meet : Env → Option Wrapper → Option CNodeView → Option Wrapper
unfolding to_cpp_node_view meet
gossip_core_meet env core none = core
gossip_core_meet env core (some c) = with_wrapper (meet env (to_cpp_node_view c)) core

unfoldable pub gossip_core_join : Env → Option Wrapper → Option CNodeView → Option Wrapper
unfolding to_cpp_node_view join
gossip_core_join env core none = core
gossip_core_join env core (some c) = with_wrapper (join env (to_cpp_node_view c)) core

unfoldable pub gossip_core_leave : Option Wrapper → Option Bytes → Option Wrapper
unfolding to_cpp_node_id leave
gossip_core_leave core none = core
gossip_core_leave core (some id) = with_wrapper (leave (to_cpp_node_id id)) core

-- A block for one structure, null if malloc refuses.
if_granted : CNodeView → Bool × Memory → Option CNodeView × Memory
if_granted c (true, mem) = (some c, mem)
if_granted c (false, mem) = (none, mem)

unfoldable pub gossip_core_self : (ℕ → Bool) → Option Wrapper → Memory → Option CNodeView × Memory
unfolding if_granted malloc to_c_node_view
gossip_core_self grants none mem = (none, mem)
gossip_core_self grants (some w) mem = if_granted (to_c_node_view w.core.self) (malloc grants mem)

-- gossip_core_free_self and gossip_core_free_nodes.
unfoldable pub free_block : {A : Type 0} → Option A → Memory → Memory
unfolding release
free_block none mem = mem
free_block (some block) mem = release mem

-- The array, and what is written to `*count`.
nodes_block : List CNodeView → Bool × Memory → (Option (List CNodeView) × ℕ) × Memory
nodes_block cs (true, mem) = ((some cs, length cs), mem)
nodes_block cs (false, mem) = ((none, 0), mem)

-- `count` is set; without it the result is null and nothing is written.
unfoldable pub gossip_core_get_nodes :
    (ℕ → Bool) → Option Wrapper → Memory → Option ((Option (List CNodeView) × ℕ) × Memory)
unfolding nodes_block malloc to_c_node_view get_nodes
gossip_core_get_nodes grants none mem = none
gossip_core_get_nodes grants (some w) mem =
    let nodes = get_nodes w.core in
    if length nodes == 0
    then some ((none, 0), mem)
    else some (nodes_block (map to_c_node_view nodes) (malloc grants mem))

-- `some c`: the result is 1 and `*out_node` is c; `out` says whether out_node is set.
unfoldable pub gossip_core_find_node : Option Wrapper → Option Bytes → Bool → Option CNodeView
unfolding to_cpp_node_id find_node to_c_node_view
gossip_core_find_node none id out = none
gossip_core_find_node (some w) none out = none
gossip_core_find_node (some w) (some id) out =
    if out then Option.map to_c_node_view (find_node (to_cpp_node_id id) w.core) else none

unfoldable pub gossip_core_size : Option Wrapper → ℕ
unfolding size
gossip_core_size none = 0
gossip_core_size (some w) = size w.core

unfoldable pub gossip_core_reset : Env → Option Wrapper → Option Wrapper
unfolding reset
gossip_core_reset env core = with_wrapper (reset env) core

unfoldable pub gossip_core_get_internal : Option Wrapper → Option Core
gossip_core_get_internal core = Option.map (λ (w : Wrapper). w.core) core

-- `if (keys[i] && values[i]) metadata[keys[i]] = values[i];`
put_pair : Option Bytes → Option Bytes → Dictionary → Dictionary
put_pair (some key) (some value) metadata = insert key value metadata
put_pair _ _ metadata = metadata

-- The loop over `count` keys and values. `none`: an array is shorter than the count says.
unfoldable pub collect_pairs :
    ℕ → List (Option Bytes) → List (Option Bytes) → Dictionary → Option Dictionary
unfolding put_pair insert
collect_pairs zero keys values metadata = some metadata
collect_pairs (suc n) (key ∷ keys) (value ∷ values) metadata =
    collect_pairs n keys values (put_pair key value metadata)
collect_pairs (suc n) _ _ metadata = none

-- The outer `none` as above.
unfoldable pub gossip_core_update_self_metadata :
    Env
    → Option Wrapper
    → Option (List (Option Bytes))
    → Option (List (Option Bytes))
    → ℕ
    → Option (Option Wrapper)
unfolding collect_pairs update_self_metadata
gossip_core_update_self_metadata env (some w) (some keys) (some values) (suc n) =
    Option.map (λ metadata. with_wrapper (update_self_metadata env metadata) (some w))
      (collect_pairs (suc n) keys values [])
gossip_core_update_self_metadata env core keys values count = some core
