-- ===== src/Core/Update/Laws.antt =====
-- What update_node does to the whole state.
use libgossip.Base.{
  ℕ, ◌+◌, ◌≡◌, refl, ◌≢◌, ◌⊎◌, inl, inr, false, none, some, [], ◌∷◌, ◌++◌, arith, length, get_elem?,
  modify, find_index, length-append, length-modify, get_elem?-modify_self, modify-get_elem?_same,
  All, All-append, All-modify, find_index-modify, find_index-append_new, get_elem?-append_new,
}
use libgossip.Core.State.{notify, Core}
use libgossip.Core.State.Frame.{nodes-notify}
use libgossip.Core.Update.{update_at, has_id, admit, merge, merge_at, update_node}
use libgossip.Core.Update.Merge.{
  merge-newest, merge_idem, changed_self, update_node-Updates, merge-has_id, nodes-merge_at,
  merge-id,
}
use libgossip.Node.{can_replace, NodeView}
use libgossip.Node.Order.{can_replace_lem}

-- The node list after an update: a known node is merged in place, a new one is appended.
pub nodes-update_node :
    (remote : NodeView) (seen : ℕ) (s : Core)
    → ((i : ℕ) × (find_index (has_id remote.id) s.nodes ≡ some i)
        × ((update_node remote seen s).0.nodes ≡ modify i (merge remote seen) s.nodes))
      ⊎ ((find_index (has_id remote.id) s.nodes ≡ none)
          × ((update_node remote seen s).0.nodes ≡ s.nodes ++ admit remote seen ∷ []))
unfolding notify
nodes-update_node remote seen s = elim (update_node-Updates remote seen s) [
  | inl (i, it, e, at, same, r) ↦ inl (i, e, rw r (nodes-merge_at i remote seen it s))
  | inr (e, r) ↦ inr (e, rw r (ground arith))
]

-- What every recorded node satisfies, and new entries and merged nodes too, holds after an update.
pub All-update_node {ℓ} :
    (P : NodeView → Type ℓ) (remote : NodeView) (seen : ℕ) (s : Core)
    → P (admit remote seen)
    → ((it : NodeView) → P it → P (merge remote seen it))
    → All P s.nodes
    → All P (update_node remote seen s).0.nodes
All-update_node P remote seen s new kept all = elim (nodes-update_node remote seen s) [
  | inl (i, _, e) ↦ rw e (All-modify P i (merge remote seen) s.nodes (λ x _. kept x) all)
  | inr (_, e) ↦ rw e (All-append P s.nodes (admit remote seen ∷ []) all (new, tt))
]

-- The size of the node list stays for an entry whose id is recorded and grows by one for one whose
-- id is not.
pub length-update_node :
    (remote : NodeView) (seen : ℕ) (s : Core)
    → ((find_index (has_id remote.id) s.nodes ≢ none)
        × (length (update_node remote seen s).0.nodes ≡ length s.nodes))
      ⊎ ((find_index (has_id remote.id) s.nodes ≡ none)
          × (length (update_node remote seen s).0.nodes ≡ length s.nodes + 1))
length-update_node remote seen s = elim (nodes-update_node remote seen s) [
  | inl (i, e, r) ↦ inl (rw e (λ c. cc), rw r (length-modify i (merge remote seen) s.nodes))
  | inr (e, r) ↦ inr (e, rw r (length-append s.nodes (admit remote seen ∷ [])))
]

merge-admit :
    (remote : NodeView) (seen : ℕ) → merge remote seen (admit remote seen) ≡ admit remote seen
unfolding merge can_replace
merge-admit remote seen = ground arith

-- After update_node a search for the entry's id stops at the node that the returned reference
-- names.
find_index-update_node :
    (remote : NodeView) (seen : ℕ) (s : Core)
    → let r = update_node remote seen s in find_index (has_id remote.id) r.0.nodes ≡ some r.1
find_index-update_node remote seen s = elim (update_node-Updates remote seen s) [
  | inl (i, it, e, at, same, r) ↦ rw r (
      rw (nodes-merge_at i remote seen it s) (
        find_index-modify (has_id remote.id) (merge remote seen) (merge-has_id remote seen) s.nodes
          e))
  | inr (e, r) ↦ rw r (
      rw (nodes-notify (admit remote seen))
        (find_index-append_new (has_id remote.id) s.nodes (admit remote seen) e (ground arith)))
]

-- The node that the reference returned by update_node names has the id of the remote entry; the
-- entry cannot replace it, and merging the entry once more leaves it as it is.
pub get_elem?-update_node :
    (remote : NodeView) (seen : ℕ) (s : Core)
    → let r = update_node remote seen s in
      (n : NodeView) × (get_elem? r.0.nodes r.1 ≡ some n)
      × (n.id ≡ remote.id)
      × (can_replace remote n ≡ false)
      × (merge remote seen n ≡ n)
unfolding can_replace
get_elem?-update_node remote seen s = elim (update_node-Updates remote seen s) [
  | inl (i, it, e, at, same, r) ↦ (
    merge remote seen it,
    rw r (
        rw (nodes-merge_at i remote seen it s)
          (rw (get_elem?-modify_self i (merge remote seen) s.nodes, at) refl)),
    merge-id remote seen it same,
    (merge-newest remote seen it).1,
    merge_idem remote seen it,
  )
  | inr (e, r) ↦ (
    admit remote seen,
    rw r (rw (nodes-notify (admit remote seen)) (get_elem?-append_new s.nodes (admit remote seen))),
    refl,
    (can_replace_lem (admit remote seen) (admit remote seen)).1,
    merge-admit remote seen,
  )
]

merge_at_settled :
    (i : ℕ) (remote : NodeView) (seen : ℕ) (it : NodeView) (s : Core)
    → get_elem? s.nodes i ≡ some it
    → merge remote seen it ≡ it
    → merge_at i remote seen it s ≡ s
unfolding merge_at
merge_at_settled i remote seen it s at same =
    rw (same, changed_self it)
      (rw (modify-get_elem?_same i (merge remote seen) s.nodes at same) refl)

-- An update that would leave its node as it is leaves the whole state as it is.
pub update_node_settled :
    (remote : NodeView) (seen : ℕ) (s : Core) {i : ℕ} {it : NodeView}
    → find_index (has_id remote.id) s.nodes ≡ some i
    → get_elem? s.nodes i ≡ some it
    → merge remote seen it ≡ it
    → update_node remote seen s ≡ (s, i)
unfolding update_node
update_node_settled remote seen s {i} {it} e at same =
    rw (e, update_at) (rw at (rw (merge_at_settled i remote seen it s at same) refl))

-- Hearing the same entry again at the same time changes nothing, raises no further event and
-- returns the same reference.
update_node_idem :
    (remote : NodeView) (seen : ℕ) (s : Core)
    → update_node remote seen (update_node remote seen s).0 ≡ update_node remote seen s
update_node_idem remote seen s =
    let (n, at, _, _, same) = get_elem?-update_node remote seen s in
    update_node_settled remote seen (update_node remote seen s).0
      (find_index-update_node remote seen s) at same
