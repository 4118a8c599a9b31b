-- ===== src/Core/State/Peers.antt =====
-- What select_random_peers returns, whatever the shuffle.
use mathlib.Core.List.Perm
use mathlib.Core.List.{Mem, Mem-prop, Perm}
use mathlib.Core.HLevel.{×_prop}
use libgossip.Base.{
  ℕ, zero, suc, min, ◌≡◌, refl, sym, ap, subst, inl, inr, true, Option, some, List, [], ◌∷◌, ◌++◌,
  arith, length, take, keep_if, length-take, All, All-take, if◌then◌else◌, holds, bytes_discrete,
  Bool-cases,
}
use libgossip.Base.Perm.{length-perm, All-perm, All-Mem, All-keep_if_test}
use libgossip.Core.State.{pick, not_excluded, select_random_peers, Core, Env, IsStd}
use libgossip.Node.{NodeId, NodeView}

-- `n` is a node of the list that the call does not exclude.
abbrev pub IsPeer : List NodeView → Option NodeId → NodeView → Type 0
IsPeer nodes exclude n = Mem n nodes × (not_excluded exclude n ≡ true)

IsPeer-prop :
    (nodes : List NodeView) (exclude : Option NodeId) (n : NodeView)
    → IsProp (IsPeer nodes exclude n)
IsPeer-prop nodes exclude n = ×_prop Mem-prop (hlevel)

-- With a standard library as documented, a selection of peers returns as many nodes as it was asked
-- for, or as many as there are candidates if they are fewer, and each is a known node without the
-- excluded id.
pub select_random_peers-IsPeer :
    (env : Env) (k : ℕ) (exclude : Option NodeId) (s : Core)
    → IsStd env
    → (length (select_random_peers env k exclude s)
        ≡ min k (length (keep_if (not_excluded exclude) s.nodes)))
      × All (IsPeer s.nodes exclude) (select_random_peers env k exclude s)
unfolding select_random_peers
select_random_peers-IsPeer env k exclude s std =
    peers (keep_if (not_excluded exclude) s.nodes)
      (All-keep_if_test (λ n. Mem n s.nodes) (not_excluded exclude) s.nodes (All-Mem s.nodes))
  where
    peers :
        (cs : List NodeView)
        → All (IsPeer s.nodes exclude) cs
        → (length (pick env k cs s) ≡ min k (length cs))
          × All (IsPeer s.nodes exclude) (pick env k cs s)
    peers [] h = (omega arith, tt)
    peers (c ∷ cs) h =
        let shuffled = env.shuffle s.draws (c ∷ cs) in
        let same = std.shuffled s.draws (c ∷ cs) in
        (
          omega (arith, length-take (min k (length (c ∷ cs))) shuffled, length-perm same),
          All-take (IsPeer s.nodes exclude) (min k (length (c ∷ cs))) shuffled
              (All-perm (IsPeer s.nodes exclude) (IsPeer-prop s.nodes exclude) shuffled same h),
        )

-- The nodes of a list with another id.
abbrev pub others : NodeId → List NodeView → List NodeView
others id [] = []
others id (n ∷ ns) =
    let later = others id ns in if holds (bytes_discrete n.id id) then later else n ∷ later

-- As many of the nodes with another id as there may be, or all of them if they are fewer, and none
-- more often than the list has it: with the nodes that are left they are a permutation of them all.
abbrev pub IsSample : ℕ → NodeId → List NodeView → List NodeView → Type 0
IsSample k id nodes picked =
    (length picked ≡ min k (length (others id nodes)))
    × ((left : List NodeView) × Perm (picked ++ left) (others id nodes))

keep_if-others :
    (id : NodeId) (ns : List NodeView) → keep_if (not_excluded (some id)) ns ≡ others id ns
unfolding keep_if
keep_if-others id [] = refl
keep_if-others id (n ∷ ns) = ground (arith, keep_if-others id ns)

split_take : (k : ℕ) (xs : List NodeView) → (left : List NodeView) × (take k xs ++ left ≡ xs)
split_take zero xs = (xs, refl)
split_take (suc k) [] = ([], refl)
split_take (suc k) (x ∷ xs) = let (left, e) = split_take k xs in (left, ap (◌∷◌ x) e)

pub select_random_peers-IsSample :
    (env : Env) (k : ℕ) (id : NodeId) (s : Core)
    → IsStd env
    → IsSample k id s.nodes (select_random_peers env k (some id) s)
unfolding select_random_peers
select_random_peers-IsSample env k id s std =
    subst
      (λ cs.
        (length (pick env k (keep_if (not_excluded (some id)) s.nodes) s) ≡ min k (length cs))
        × ((left : List NodeView) × Perm
              (pick env k (keep_if (not_excluded (some id)) s.nodes) s ++ left) cs))
      (keep_if-others id s.nodes) (sample (keep_if (not_excluded (some id)) s.nodes))
  where
    sample :
        (cs : List NodeView)
        → (length (pick env k cs s) ≡ min k (length cs))
          × ((left : List NodeView) × Perm (pick env k cs s ++ left) cs)
    sample [] = (omega arith, ([], Perm.refl []))
    sample (c ∷ cs) =
        let shuffled = env.shuffle s.draws (c ∷ cs) in
        let same = std.shuffled s.draws (c ∷ cs) in
        let (left, e) = split_take (min k (length (c ∷ cs))) shuffled in
        (
          omega (arith, length-take (min k (length (c ∷ cs))) shuffled, length-perm same),
          (left, subst (λ xs. Perm xs (c ∷ cs)) (sym e) same),
        )

All-others :
    (P : NodeView → Type 0) (id : NodeId) (ns : List NodeView) → All P ns → All P (others id ns)
All-others P id [] h = tt
All-others P id (n ∷ ns) h = elim (Bool-cases (holds (bytes_discrete n.id id))) [
  | inl t ↦ rw t (All-others P id ns h.1)
  | inr f ↦ rw f (h.0, All-others P id ns h.1)
]

All-first : (P : NodeView → Type 0) (xs ys : List NodeView) → All P (xs ++ ys) → All P xs
All-first P [] ys h = tt
All-first P (x ∷ xs) ys h = (h.0, All-first P xs ys h.1)

-- What holds of every node holds of a sample.
pub All-IsSample :
    (P : NodeView → Type 0) (k : ℕ) (id : NodeId) (nodes picked : List NodeView)
    → ((n : NodeView) → IsProp (P n))
    → IsSample k id nodes picked
    → All P nodes
    → All P picked
All-IsSample P k id nodes picked prop (_, (left, same)) h =
    All-first P picked left (All-perm P prop (picked ++ left) same (All-others P id nodes h))
