-- ===== src/Core/Members/Spreading.antt =====
-- What other nodes record of a node that has updated its metadata.
use libgossip.Base.{
  ℕ, ◌+◌, ◌≤◌, ◌<◌, ◌≡◌, refl, sym, ap, ◌∙◌, true, false, some, arith, Bytes, if_true,
}
use libgossip.Base.Map.{Dictionary, lookup}
use libgossip.Core.Members.{update_self_metadata}
use libgossip.Core.Members.Metadata.{
  IsMap, first_of_two, asked_epoch, update_self_metadata_lem, update_self_metadata_spreads,
}
use libgossip.Core.State.{u64_mod, Core, Env}
use libgossip.Core.State.Frame.{same_id-eq}
use libgossip.Core.Update.{admit, merge, update_node}
use libgossip.Core.Update.Refinement.{table_of, merge-heard, update_node-learn_in}
use libgossip.Node.{can_replace, NodeView}

newer_still :
    (new self old : NodeView)
    → can_replace new self ≡ true
    → can_replace old self ≡ false
    → can_replace new old ≡ true
unfolding can_replace
newer_still new self old h k = ground (arith, h, k)

-- After an update of its metadata by a map without repeated keys that does not lower the epoch, and
-- unless the heartbeat wraps around, a node whose new state is heard by another one that has
-- recorded nothing newer than the former state is recorded there anew: under its id a search finds
-- the time of the message, the heartbeat one higher, and for every key the new value, or the former
-- where the map has none.
pub update_self_metadata_reaches :
    (env : Env) (md : Dictionary) (s t : Core) (seen : ℕ) {old : NodeView}
    → IsMap md
    → s.self.config_epoch ≤ asked_epoch env md s.self.config_epoch
    → s.self.heartbeat + 1 < u64_mod
    → table_of t.nodes s.self.id ≡ some old
    → can_replace old s.self ≡ false
    → let new = (update_self_metadata env md s).self in
      (n : NodeView) × (table_of (update_node new seen t).0.nodes s.self.id ≡ some n)
      × ((j : Bytes) → lookup j n.metadata ≡ first_of_two (lookup j md) (lookup j s.self.metadata))
      × (n.heartbeat ≡ s.self.heartbeat + 1)
      × (n.seen_time ≡ seen)
unfolding merge
update_self_metadata_reaches env md s t seen {old} h up small there older =
    let new = (update_self_metadata env md s).self in
    let facts = update_self_metadata_lem env md s h in
    let newest =
      newer_still new s.self old (update_self_metadata_spreads env md s h up small) older in
    (
      admit new seen,
      ap (λ table. table s.self.id) (update_node-learn_in new seen t)
          ∙ rw (same_id-eq new.id s.self.id facts.4, there)
              (ap some (sym (merge-heard new seen old) ∙ if_true _ _ newest)),
      facts.0,
      ground (arith, facts.2, small),
      refl,
    )
