-- ===== src/Core/Update/Merge.antt =====
-- What update_node leaves in the node list.
use libgossip.Base.{
  ℕ, ◌≡◌, refl, ◌⊎◌, inl, inr, true, false, none, some, [], ◌∷◌, ◌++◌, arith, length, get_elem?,
  modify, find_index, find_index-get_elem?, Option-cases,
}
use libgossip.Core.State.{notify, Core}
use libgossip.Core.Update.{update_at, has_id, admit, merge, changed, merge_at, update_node}
use libgossip.Node.{can_replace, NodeStatus, NodeView}

-- The result is at least as new as the entry and as the node that was there, and is one of the
-- two up to what does not count as new.
pub merge-newest :
    (remote : NodeView) (seen : ℕ) (it : NodeView)
    → (can_replace it (merge remote seen it) ≡ false)
      × (can_replace remote (merge remote seen it) ≡ false)
unfolding merge can_replace
merge-newest remote seen it = ground arith

pub merge_idem :
    (remote : NodeView) (seen : ℕ) (it : NodeView)
    → merge remote seen (merge remote seen it) ≡ merge remote seen it
unfolding merge can_replace
merge_idem remote seen it = ground arith

pub changed_self : (it : NodeView) → changed it it ≡ false
unfolding changed
changed_self it = ground arith

-- The two courses that update_node can take.
abbrev pub Updates : NodeView → ℕ → Core → Core × ℕ → Type 0
Updates remote seen s r =
    ((i : ℕ) × (it : NodeView) × (find_index (has_id remote.id) s.nodes ≡ some i)
      × (get_elem? s.nodes i ≡ some it)
      × (it.id ≡ remote.id)
      × (r ≡ (merge_at i remote seen it s, i)))
    ⊎ ((find_index (has_id remote.id) s.nodes ≡ none)
        × (r ≡ (
          notify (admit remote seen) NodeStatus.unknown
              (record s { nodes = s.nodes ++ admit remote seen ∷ [] }),
          length s.nodes,
        )))

pub update_node-Updates :
    (remote : NodeView) (seen : ℕ) (s : Core) → Updates remote seen s (update_node remote seen s)
unfolding update_node
update_node-Updates remote seen s = elim (Option-cases (find_index (has_id remote.id) s.nodes)) [
  | inl e ↦ inr (e, rw (e, update_at) refl)
  | inr (i, e) ↦
      let (it, at, same) = find_index-get_elem? (has_id remote.id) s.nodes e in
      inl (i, it, e, at, ground arith, rw (e, update_at) (rw at refl))
]

pub merge-has_id :
    (remote : NodeView) (seen : ℕ) (it : NodeView)
    → has_id remote.id it ≡ true
    → has_id remote.id (merge remote seen it) ≡ true
unfolding merge
merge-has_id remote seen it h = ground arith

pub nodes-merge_at :
    (i : ℕ) (remote : NodeView) (seen : ℕ) (it : NodeView) (s : Core)
    → (merge_at i remote seen it s).nodes ≡ modify i (merge remote seen) s.nodes
unfolding merge_at notify
nodes-merge_at i remote seen it s = ground arith

pub merge-id :
    (remote : NodeView) (seen : ℕ) (it : NodeView)
    → it.id ≡ remote.id
    → (merge remote seen it).id ≡ remote.id
unfolding merge
merge-id remote seen it h = ground arith
