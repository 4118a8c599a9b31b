-- ===== src/CInterface/Api/Metadata.antt =====
-- gossip_core_update_self_metadata: the arrays of C as metadata of this node.
use mathlib.Core.Option
use libgossip.Base.{
  ℕ, zero, suc, ◌≡◌, sym, ap, subst, ◌∙◌, inl, inr, Option, none, some, List, [], ◌∷◌, arith,
  if◌then◌else◌, holds, Bytes, bytes_discrete, Option-cases,
}
use libgossip.Base.Map.{Dictionary, insert, lookup, lookup-insert}
use libgossip.Base.Map.Sorted.{IsSorted, insert-IsSorted, lookup-Below}
use libgossip.CInterface.Api.{with_wrapper, collect_pairs, gossip_core_update_self_metadata}
use libgossip.CInterface.Memory.{Wrapper}
use libgossip.Core.Members.{update_self_metadata}
use libgossip.Core.Members.Metadata.{IsMap, first_of_two, update_self_metadata_lem}
use libgossip.Core.State.{inc64, Env}

sorted-IsMap : (m : Dictionary) → IsSorted m → IsMap m
sorted-IsMap [] h = tt
sorted-IsMap ((k, v) ∷ m) h = (lookup-Below k m h.0, sorted-IsMap m h.1)

-- The value that the last pair with the key gives, or else `old`; a pair with a null pointer does
-- not count.
pub last_value : Bytes → ℕ → List (Option Bytes) → List (Option Bytes) → Option Bytes → Option Bytes
last_value j (suc n) (some k ∷ keys) (some v ∷ values) old =
    last_value j n keys values (if holds (bytes_discrete j k) then some v else old)
last_value j (suc n) (key ∷ keys) (value ∷ values) old = last_value j n keys values old
last_value j _ _ _ old = old

collected :
    (n : ℕ) (keys values : List (Option Bytes)) (m m' : Dictionary)
    → collect_pairs n keys values m ≡ some m'
    → IsSorted m
    → IsSorted m' × ((j : Bytes) → lookup j m' ≡ last_value j n keys values (lookup j m))
unfolding collect_pairs last_value
collected zero keys values m m' e h =
    let same : m ≡ m' = cc in (subst IsSorted same h, λ j. ap (lookup j) (sym same))
collected (suc n) [] values m m' e h = absurd (ground (arith, e))
collected (suc n) (key ∷ keys) [] m m' e h = absurd (ground (arith, e))
collected (suc n) (some k ∷ keys) (some v ∷ values) m m' e h =
    let (sorted, found) = collected n keys values (insert k v m) m' e (insert-IsSorted k v m h) in
    (
      sorted,
      λ j.
          found j ∙ ap (λ (o : Option Bytes). last_value j n keys values o) (lookup-insert k j v m),
    )
collected (suc n) (some k ∷ keys) (none ∷ values) m m' e h = collected n keys values m m' e h
collected (suc n) (none ∷ keys) (some v ∷ values) m m' e h = collected n keys values m m' e h
collected (suc n) (none ∷ keys) (none ∷ values) m m' e h = collected n keys values m m' e h

updated :
    (env : Env) (md : Dictionary) (w w' : Wrapper)
    → Option.map (λ (d : Dictionary). with_wrapper (update_self_metadata env d) (some w)) (some md)
      ≡ some (some w')
    → w' ≡ record w { core = update_self_metadata env md w.core }
updated env md w w' e = cc

-- When gossip_core_update_self_metadata returns for a count that is not zero, each key has the
-- value of its last pair without a null pointer, or its former value if there is no such pair, and
-- the node's heartbeat and version are incremented.
gossip_core_update_self_metadata_lem :
    (env : Env) (w : Wrapper) (keys values : List (Option Bytes)) (n : ℕ) {w' : Wrapper}
    → gossip_core_update_self_metadata env (some w) (some keys) (some values) (suc n)
      ≡ some (some w')
    → ((j : Bytes)
        → lookup j w'.core.self.metadata
          ≡ first_of_two (last_value j (suc n) keys values none) (lookup j w.core.self.metadata))
      × (w'.core.self.heartbeat ≡ inc64 w.core.self.heartbeat)
      × (w'.core.self.version ≡ inc64 w.core.self.version)
unfolding gossip_core_update_self_metadata lookup
gossip_core_update_self_metadata_lem env w keys values n {w'} e =
    let over = λ (o : Option Dictionary).
      Option.map (λ (d : Dictionary). with_wrapper (update_self_metadata env d) (some w)) o in
    elim (Option-cases (collect_pairs (suc n) keys values [])) [
      | inl short ↦ absurd (ground (arith, sym (ap over short) ∙ e))
      | inr (m, got) ↦
          let (sorted, found) = collected (suc n) keys values [] m got tt in
          let made = updated env m w w' (sym (ap over got) ∙ e) in
          let laws = update_self_metadata_lem env m w.core (sorted-IsMap m sorted) in
          (
            λ j.
                ap (λ (x : Wrapper). lookup j x.core.self.metadata) made
                ∙ laws.0 j
                ∙ ap (λ (o : Option Bytes). first_of_two o (lookup j w.core.self.metadata))
                    (found j),
            ap (λ (x : Wrapper). x.core.self.heartbeat) made ∙ laws.2,
            ap (λ (x : Wrapper). x.core.self.version) made ∙ laws.3,
          )
    ]
