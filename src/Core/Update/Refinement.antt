-- ===== src/Core/Update/Refinement.antt =====
-- The node list as a table from ids to nodes, and update_node as an update of this table.
-- What a search by id finds in a node list: the first node with the id.
use libgossip.Base.{
  ℕ, zero, suc, ◌≡◌, refl, sym, ap, subst, ◌∙◌, fun_ext, ◌≢◌, inl, inr, Option, none, some, List,
  [], ◌∷◌, ◌++◌, arith, modify, find_index, ltb, if◌then◌else◌, bytes_discrete, Bool-cases,
}
use libgossip.Core.State.{same_id, Core}
use libgossip.Core.State.Frame.{same_id-eq, same_id-ne}
use libgossip.Core.Update.{has_id, known_status, admit, merge, update_node}
use libgossip.Core.Update.Laws.{nodes-update_node}
use libgossip.Core.Update.Merge.{merge-id}
use libgossip.Node.{NodeId, can_replace, NodeStatus, NodeView}

abbrev pub table_of : List NodeView → NodeId → Option NodeView
table_of [] id = none
table_of (n ∷ ns) id = let later = table_of ns id in if has_id id n then some n else later

-- What is known of an id once an entry has been heard.
abbrev pub reading : NodeStatus → NodeStatus
reading NodeStatus.unknown = NodeStatus.joining
reading NodeStatus.joining = NodeStatus.joining
reading NodeStatus.online = NodeStatus.online
reading NodeStatus.suspect = NodeStatus.suspect
reading NodeStatus.failed = NodeStatus.failed
reading (NodeStatus.other c) = NodeStatus.other c

abbrev pub heard_first : NodeView → ℕ → NodeView
heard_first remote seen = record {
  id = remote.id;
  ip = remote.ip;
  port = remote.port;
  config_epoch = remote.config_epoch;
  heartbeat = remote.heartbeat;
  version = remote.version;
  seen_time = seen;
  status = reading remote.status;
  role = remote.role;
  region = remote.region;
  metadata = remote.metadata;
  suspicion_count = remote.suspicion_count;
  last_suspected = remote.last_suspected;
}

-- By the epochs, and for equal epochs by the heartbeats.
abbrev pub heard : NodeView → ℕ → Option NodeView → NodeView
heard remote seen none = heard_first remote seen
heard remote seen (some it) =
    if ltb it.config_epoch remote.config_epoch
    then heard_first remote seen
    else if ltb remote.config_epoch it.config_epoch
    then it
    else if ltb it.heartbeat remote.heartbeat
    then heard_first remote seen
    else if ltb remote.heartbeat it.heartbeat
    then it
    else record it { metadata = remote.metadata }

admit-heard : (remote : NodeView) (seen : ℕ) → admit remote seen ≡ heard remote seen none
admit-heard remote seen =
    ap (λ st. record remote { seen_time = seen; status = st }) (known remote.status)
  where
    known : (st : NodeStatus) → known_status st ≡ reading st
    known NodeStatus.unknown = refl
    known NodeStatus.joining = refl
    known NodeStatus.online = refl
    known NodeStatus.suspect = refl
    known NodeStatus.failed = refl
    known (NodeStatus.other c) = refl

pub merge-heard :
    (remote : NodeView) (seen : ℕ) (it : NodeView)
    → merge remote seen it ≡ heard remote seen (some it)
unfolding merge can_replace
merge-heard remote seen it = rw (admit-heard remote seen) (ground arith)

-- The table that has learnt an entry: only the entry's id is touched.
abbrev pub learn_in : NodeView → ℕ → (NodeId → Option NodeView) → NodeId → Option NodeView
learn_in remote seen table id =
    if same_id remote.id id then some (heard remote seen (table id)) else table id

table_of-none :
    (id : NodeId) (ns : List NodeView) → find_index (has_id id) ns ≡ none → table_of ns id ≡ none
unfolding find_index
table_of-none id [] e = refl
table_of-none id (n ∷ ns) e = elim (Bool-cases (has_id id n)) [
  | inl h ↦ ground arith
  | inr h ↦ ground (arith, table_of-none id ns)
]

table_of-append :
    (id : NodeId) (n : NodeView) (ns : List NodeView)
    → table_of ns n.id ≡ none
    → table_of (ns ++ n ∷ []) id ≡ (if same_id n.id id then some n else table_of ns id)
table_of-append id n [] e = refl
table_of-append id n (m ∷ ns) e = ground (arith, e, table_of-append id n ns)

table_of-modify :
    (id : NodeId) (remote : NodeView) (seen : ℕ) (ns : List NodeView) {i : ℕ}
    → find_index (has_id remote.id) ns ≡ some i
    → table_of (modify i (merge remote seen) ns) id ≡ learn_in remote seen (table_of ns) id
unfolding find_index
table_of-modify id remote seen [] e = absurd (ground (arith, e))
table_of-modify id remote seen (n ∷ ns) {i = zero} e = elim (Bool-cases (has_id remote.id n)) [
  | inl h ↦
      let same : n.id ≡ remote.id = ground (arith, h) in
      ground (arith, merge-id remote seen n same, same, merge-heard remote seen n)
  | inr h ↦ absurd (ground (arith, e, h))
]
table_of-modify id remote seen (n ∷ ns) {i = suc i} e = elim (Bool-cases (has_id remote.id n)) [
  | inl h ↦ absurd (ground (arith, e, h))
  | inr h ↦
      let known : find_index (has_id remote.id) ns ≡ some i = ground (arith, e, h) in
      ground (arith, h, table_of-modify id remote seen ns known)
]

-- Seen as a table from ids to the first node with the id, the node list after update_node is the
-- table before, changed at the entry's id alone. If nothing was known of the id, it holds the entry
-- there, with the given time and with the status unknown read as joining. Otherwise it holds the
-- entry, taken in the same way, if this has the greater epoch, or the same epoch and the greater
-- heartbeat; the known node with the entry's metadata, if epoch and heartbeat are the same; and
-- else the known node as it was.
pub update_node-learn_in :
    (remote : NodeView) (seen : ℕ) (s : Core)
    → table_of (update_node remote seen s).0.nodes ≡ learn_in remote seen (table_of s.nodes)
update_node-learn_in remote seen s = fun_ext (λ id. elim (nodes-update_node remote seen s) [
  | inl (i, known, e) ↦ rw e (table_of-modify id remote seen s.nodes known)
  | inr (new, e) ↦
      let nobody = table_of-none remote.id s.nodes new in
      rw e (
        table_of-append id (admit remote seen) s.nodes nobody ∙ elim (bytes_discrete remote.id id) [
          | yes same ↦ rw (same_id-eq remote.id id same) (
              ap some (admit-heard remote seen)
              ∙ ap (λ o. some (heard remote seen o))
                  (sym (subst (λ j. table_of s.nodes j ≡ none) same nobody)))
          | no other ↦ rw (same_id-ne remote.id id other) refl
        ])
])

-- Entries of two ids change different places of a table.
learn_in-learn_in :
    (a b : NodeView) (at bt : ℕ) (table : NodeId → Option NodeView)
    → a.id ≢ b.id
    → learn_in a at (learn_in b bt table) ≡ learn_in b bt (learn_in a at table)
learn_in-learn_in a b at bt table apart = fun_ext (λ id. elim (bytes_discrete a.id id) [
  | yes is_a ↦
      rw (same_id-eq a.id id is_a, same_id-ne b.id id (λ is_b. apart (is_a ∙ sym is_b))) refl
  | no not_a ↦ rw (same_id-ne a.id id not_a) refl
])

-- Two entries with different ids leave the same table from ids to nodes, whichever of them
-- update_node takes first.
pub update_node_comm :
    (a b : NodeView) (at bt : ℕ) (s : Core)
    → a.id ≢ b.id
    → table_of (update_node a at (update_node b bt s).0).0.nodes
      ≡ table_of (update_node b bt (update_node a at s).0).0.nodes
update_node_comm a b at bt s apart =
    update_node-learn_in a at (update_node b bt s).0
    ∙ ap (learn_in a at) (update_node-learn_in b bt s)
    ∙ learn_in-learn_in a b at bt (table_of s.nodes) apart
    ∙ ap (learn_in b bt) (sym (update_node-learn_in a at s))
    ∙ sym (update_node-learn_in b bt (update_node a at s).0)
