-- ===== src/CInterface/Api/Bounds.antt =====
-- The arrays that C gets are as long as they are said to be, and every text in them is ended.
use libgossip.Base.{
  ℕ, zero, suc, ◌+◌, ◌-◌, ◌≤◌, ◌<◌, ◌≡◌, refl, ap, ◌∙◌, ◌≢◌, ◌⊎◌, inl, inr, Bool, true, false, none,
  some, List, [], ◌∷◌, ◌++◌, map, arith, length, get_elem?, take, length-take, All, ◌==◌, Bytes,
  Bool-cases, if_true, if_false,
}
use libgossip.CInterface.{
  text_size, until_nul, zeros, store_text, to_c_node_id, to_c_node_view, CNodeView,
}
use libgossip.CInterface.Api.{nodes_block, gossip_core_get_nodes}
use libgossip.CInterface.Memory.{malloc, Memory, Wrapper}
use libgossip.CInterface.Text.{length-store_text}
use libgossip.Core.Members.{get_nodes, size}
use libgossip.Ids.{id_size}
use libgossip.Node.{NodeView}

get_elem?-zeros :
    (text : Bytes) (n i : ℕ)
    → length text ≤ i
    → i < length text + n
    → get_elem? (text ++ zeros n) i ≡ some 0
unfolding zeros
get_elem?-zeros [] zero i h k = absurd (omega (arith, k))
get_elem?-zeros [] (suc n) zero h k = refl
get_elem?-zeros [] (suc n) (suc i) h k = get_elem?-zeros [] n i (omega arith) (omega (arith, k))
get_elem?-zeros (c ∷ cs) n zero h k = absurd (omega (arith, h))
get_elem?-zeros (c ∷ cs) n (suc i) h k =
    get_elem?-zeros cs n i (omega (arith, h)) (omega (arith, k))

-- A field of 64 characters, the last of them 0.
abbrev pub IsField : Bytes → Type 0
IsField field = (length field ≡ text_size) × (get_elem? field (text_size - 1) ≡ some 0)

store_text-IsField : (text : Bytes) → IsField (store_text text)
unfolding store_text
store_text-IsField text =
    let kept = take (text_size - 1) (until_nul text) in
    let short = length-take (text_size - 1) (until_nul text) in
    (
      length-store_text text,
      get_elem?-zeros kept (text_size - length kept) (text_size - 1) (omega (arith, short))
          (omega (arith, short)),
    )

abbrev pub IsEnded : CNodeView → Type 0
IsEnded c = IsField c.ip × IsField c.role × IsField c.region × (length c.id ≤ id_size)

to_c_node_view-IsEnded : (n : NodeView) → IsEnded (to_c_node_view n)
unfolding to_c_node_view to_c_node_id
to_c_node_view-IsEnded n = (
  store_text-IsField n.ip,
  store_text-IsField n.role,
  store_text-IsField n.region,
  omega (arith, length-take id_size n.id),
)

All-IsEnded : (ns : List NodeView) → All IsEnded (map to_c_node_view ns)
All-IsEnded [] = tt
All-IsEnded (n ∷ ns) = (to_c_node_view-IsEnded n, All-IsEnded ns)

length-map : (ns : List NodeView) → length (map to_c_node_view ns) ≡ length ns
length-map [] = refl
length-map (n ∷ ns) = ap suc (length-map ns)

pub no_nodes : (ns : List NodeView) → (length ns == 0) ≡ true → ns ≡ []
no_nodes [] h = refl
no_nodes (n ∷ ns) h = absurd (ground (arith, h))

some_nodes : (ns : List NodeView) → (length ns == 0) ≡ false → ns ≢ []
some_nodes [] h e = ground (arith, h)
some_nodes (n ∷ ns) h e = cc

-- gossip_core_get_nodes gives null and the count zero when no node is recorded or malloc refuses,
-- with no block more; else an array of as many nodes as the count says, which is the size of the
-- core, with one block more, in which every text fills its 64 characters and ends in a zero, and no
-- id is longer than sixteen bytes.
pub gossip_core_get_nodes_bounds :
    (grants : ℕ → Bool) (w : Wrapper) (mem : Memory)
    → ((w.core.nodes ≡ []) × (gossip_core_get_nodes grants (some w) mem ≡ some ((none, 0), mem)))
      ⊎ ((w.core.nodes ≢ [])
          × (grants mem.asked ≡ false)
          × ((mem' : Memory) × (gossip_core_get_nodes grants (some w) mem ≡ some ((none, 0), mem'))
              × (mem'.live ≡ mem.live)))
      ⊎ ((w.core.nodes ≢ [])
          × (grants mem.asked ≡ true)
          × (cs : List CNodeView) × (mem' : Memory) × (gossip_core_get_nodes grants (some w) mem
              ≡ some ((some cs, length cs), mem'))
          × (length cs ≡ size w.core)
          × All IsEnded cs
          × (mem'.live ≡ mem.live + 1))
unfolding gossip_core_get_nodes nodes_block malloc get_nodes size
gossip_core_get_nodes_bounds grants w mem = elim (Bool-cases (length w.core.nodes == 0)) [
  | inl few ↦ inl (no_nodes w.core.nodes few, if_true _ _ few)
  | inr many ↦ elim (Bool-cases (grants mem.asked)) [
    | inr refused ↦ inr (
        inl (
          some_nodes w.core.nodes many,
          refused,
          (
            record mem { asked = mem.asked + 1 },
            if_false _ _ many
                ∙ ap (λ r. some (nodes_block (map to_c_node_view w.core.nodes) r))
                    (if_false _ _ refused),
            refl,
          ),
        ))
    | inl granted ↦ inr (
        inr (
          some_nodes w.core.nodes many,
          granted,
          map to_c_node_view w.core.nodes,
          record { asked = mem.asked + 1; live = mem.live + 1 },
          if_false _ _ many
              ∙ ap (λ r. some (nodes_block (map to_c_node_view w.core.nodes) r))
                  (if_true _ _ granted),
          length-map w.core.nodes,
          All-IsEnded w.core.nodes,
          refl,
        ))
  ]
]
