-- ===== src/Node/Equality.antt =====
-- operator== of node_view and of gossip_message (include/core/gossip_core.hpp).
use libgossip.Base.{
  ◌≡◌, ◌↔◌, Bool, true, false, ◌&&◌, List, [], ◌∷◌, arith, int_discrete, ◌==◌, holds,
  bytes_discrete,
}
use libgossip.Base.Map.{dictionary_discrete}
use libgossip.Node.{status_discrete, type_discrete, NodeView, GossipMessage}

unfoldable pub same_view : NodeView → NodeView → Bool
same_view a b =
    holds (bytes_discrete a.id b.id)
    && holds (bytes_discrete a.ip b.ip)
    && holds (int_discrete a.port b.port)
    && a.config_epoch == b.config_epoch
    && a.heartbeat == b.heartbeat
    && a.version == b.version
    && a.seen_time == b.seen_time
    && holds (status_discrete a.status b.status)
    && holds (bytes_discrete a.role b.role)
    && holds (bytes_discrete a.region b.region)
    && holds (dictionary_discrete a.metadata b.metadata)
    && holds (int_discrete a.suspicion_count b.suspicion_count)
    && a.last_suspected == b.last_suspected

-- operator== of std::vector.
unfoldable pub same_entries : List NodeView → List NodeView → Bool
unfolding same_view
same_entries [] [] = true
same_entries (x ∷ xs) (y ∷ ys) = same_view x y && same_entries xs ys
same_entries _ _ = false

unfoldable pub same_message : GossipMessage → GossipMessage → Bool
unfolding same_entries
same_message a b =
    holds (bytes_discrete a.sender b.sender)
    && holds (type_discrete a.type b.type)
    && a.timestamp == b.timestamp
    && same_entries a.entries b.entries

same_view_iff : (a b : NodeView) → (same_view a b ≡ true) ↔ (a ≡ b)
unfolding same_view
same_view_iff a b = ground arith

same_entries_iff : (xs ys : List NodeView) → (same_entries xs ys ≡ true) ↔ (xs ≡ ys)
unfolding same_entries
same_entries_iff [] [] = ground arith
same_entries_iff [] (y ∷ ys) = ground arith
same_entries_iff (x ∷ xs) [] = ground arith
same_entries_iff (x ∷ xs) (y ∷ ys) = ground (arith, same_view_iff x y, same_entries_iff xs ys)

-- Two messages are equal for operator== exactly when they are the same message, with the same
-- entries in the same order.
same_message_iff : (a b : GossipMessage) → (same_message a b ≡ true) ↔ (a ≡ b)
unfolding same_message
same_message_iff a b = ground (arith, same_entries_iff a.entries b.entries)
