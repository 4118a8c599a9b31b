-- ===== src/Core/Handle/Learn.antt =====
-- What the entries of a message do to the state.
use libgossip.Base.{
  ℕ, inl, inr, Option, none, some, List, [], ◌∷◌, find_index, All, All-modify, Bool-cases,
}
use libgossip.Core.Handle.{same_address, rename_at, learn, learn_all}
use libgossip.Core.State.{Core}
use libgossip.Core.State.Frame.{
  Listened-refl, Listened-trans, Listened-nodes, Listened-notify, Listened,
}
use libgossip.Core.Update.{admit, merge, changed, merge_at, update_node}
use libgossip.Core.Update.Laws.{All-update_node}
use libgossip.Core.Update.Merge.{update_node-Updates}
use libgossip.Node.{NodeId, NodeView}

Listened-merge_at :
    (i : ℕ) (remote : NodeView) (seen : ℕ) (it : NodeView) (s : Core)
    → Listened s (merge_at i remote seen it s)
unfolding merge_at
Listened-merge_at i remote seen it s = elim (Bool-cases (changed it (merge remote seen it))) [
  | inl c ↦ rw c (Listened-trans (Listened-nodes s _) (Listened-notify _ _ _))
  | inr c ↦ rw c (Listened-nodes s _)
]

pub Listened-update_node :
    (remote : NodeView) (seen : ℕ) (s : Core) → Listened s (update_node remote seen s).0
Listened-update_node remote seen s = elim (update_node-Updates remote seen s) [
  | inl (i, it, _, _, _, r) ↦ rw r (Listened-merge_at i remote seen it s)
  | inr (_, r) ↦ rw r (Listened-trans (Listened-nodes s _) (Listened-notify _ _ _))
]

Listened-rename_at :
    (i : Option ℕ) (remote : NodeView) (s : Core) → Listened s (rename_at i remote s)
unfolding rename_at
Listened-rename_at none remote s = Listened-refl s
Listened-rename_at (some i) remote s = Listened-nodes s _

pub Listened-learn : (remote : NodeView) (recv : ℕ) (s : Core) → Listened s (learn remote recv s)
unfolding learn
Listened-learn remote recv s =
    Listened-trans (Listened-rename_at _ remote s) (Listened-update_node remote recv _)

-- Learning from entries sends nothing and leaves every member but the node list as it was.
pub Listened-learn_all :
    (entries : List NodeView) (recv : ℕ) (s : Core) → Listened s (learn_all entries recv s)
unfolding learn_all
Listened-learn_all [] recv s = Listened-refl s
Listened-learn_all (r ∷ rs) recv s =
    Listened-trans (Listened-learn r recv s) (Listened-learn_all rs recv (learn r recv s))

-- A property of single nodes that an entry's new node has, and that neither a merge nor another id
-- can take away.
pub record IsStable (P : NodeView → Type 0) : Type 0 where
  pub admitted : (remote : NodeView) (seen : ℕ) → P (admit remote seen)
  pub merged : (remote : NodeView) (seen : ℕ) (it : NodeView) → P it → P (merge remote seen it)
  pub renamed : (id : NodeId) (it : NodeView) → P it → P (record it { id = id })

module _ (P : NodeView → Type 0) (stable : IsStable P) where
  pub All-learn :
      (remote : NodeView) (recv : ℕ) (s : Core) → All P s.nodes → All P (learn remote recv s).nodes
  unfolding learn
  All-learn remote recv s h =
      All-update_node P remote recv _ (stable.admitted remote recv) (stable.merged remote recv)
        (rename (find_index (same_address remote) s.nodes))
    where
      rename : (i : Option ℕ) → All P (rename_at i remote s).nodes
      rename none = h
      rename (some i) = All-modify P i _ s.nodes (λ x _. stable.renamed remote.id x) h

  pub All-learn_all :
      (entries : List NodeView) (recv : ℕ) (s : Core)
      → All P s.nodes
      → All P (learn_all entries recv s).nodes
  unfolding learn_all
  All-learn_all [] recv s h = h
  All-learn_all (r ∷ rs) recv s h = All-learn_all rs recv (learn r recv s) (All-learn r recv s h)
