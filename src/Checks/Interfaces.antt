-- ===== src/Checks/Interfaces.antt =====
-- Runs of the C interface of gossip_core.
use libgossip.Base.{
  ℕ, ◌+◌, ◌≡◌, refl, ◌≢◌, ◌⊎◌, Bool, true, false, none, some, List, [], length, All, ltb,
}
use libgossip.CInterface.{CNodeView}
use libgossip.CInterface.Api.{gossip_core_get_nodes}
use libgossip.CInterface.Api.Bounds.{IsEnded, gossip_core_get_nodes_bounds}
use libgossip.CInterface.Memory.{on_effect, Memory, Wrapper, CCall}
use libgossip.CInterface.Memory.Callbacks.{on_effect_releases}
use libgossip.CInterface.RoundTrip.{IsMessage}
use libgossip.Checks.Jsons.{told}
use libgossip.Checks.Samples.{sample_node, sample_core}
use libgossip.Core.Members.{size}
use libgossip.Core.State.{Effect}
use libgossip.Node.{NodeStatus}

abbrev pub empty_memory : Memory
empty_memory = record { asked = 0; live = 0 }

abbrev sample_wrapper : Wrapper
sample_wrapper = record { core = sample_core; send_callback = true; event_callback = true }

abbrev pub always : ℕ → Bool
always k = true

-- Only the first request is refused.
abbrev refuses_once : ℕ → Bool
refuses_once k = ltb 0 k

told-IsMessage : IsMessage told
told-IsMessage = (refl, tt, ((refl, tt), tt))

on_effect_releases_example :
    let e = Effect.sent told (sample_node 1 NodeStatus.online) in
    ((on_effect refuses_once e sample_wrapper empty_memory ≡ none) × (refuses_once 0 ≡ false))
    ⊎ ((calls : List CCall) × (mem' : Memory) × (on_effect refuses_once e sample_wrapper
            empty_memory
          ≡ some (calls, mem'))
        × (mem'.live ≡ 0))
on_effect_releases_example =
    on_effect_releases refuses_once (Effect.sent told (sample_node 1 NodeStatus.online))
      sample_wrapper empty_memory

gossip_core_get_nodes_bounds_example :
    ((sample_core.nodes ≡ [])
      × (gossip_core_get_nodes always (some sample_wrapper) empty_memory
          ≡ some ((none, 0), empty_memory)))
    ⊎ ((sample_core.nodes ≢ [])
        × (always 0 ≡ false)
        × ((mem' : Memory) × (gossip_core_get_nodes always (some sample_wrapper) empty_memory
              ≡ some ((none, 0), mem'))
            × (mem'.live ≡ 0)))
    ⊎ ((sample_core.nodes ≢ [])
        × (always 0 ≡ true)
        × (cs : List CNodeView) × (mem' : Memory) × (gossip_core_get_nodes always
              (some sample_wrapper)
              empty_memory
            ≡ some ((some cs, length cs), mem'))
        × (length cs ≡ size sample_core)
        × All IsEnded cs
        × (mem'.live ≡ 0 + 1))
gossip_core_get_nodes_bounds_example =
    gossip_core_get_nodes_bounds always sample_wrapper empty_memory
