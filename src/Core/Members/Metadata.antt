-- ===== src/Core/Members/Metadata.antt =====
-- update_self_metadata, and whether other nodes take the update over.
use mathlib.Core.Option.{get_or}
use libgossip.Base.{
  ℕ, ◌+◌, ◌≤◌, ◌<◌, ◌≡◌, refl, sym, ap, subst, ◌∙◌, true, false, Option, none, some, [], ◌∷◌, arith,
  if◌then◌else◌, holds, Bytes, bytes_discrete,
}
use libgossip.Base.Map.{Dictionary, insert, lookup, lookup-insert}
use libgossip.Core.Members.{config_epoch_key, set_entry, set_entries, update_self_metadata}
use libgossip.Core.State.{u64_mod, inc64, Core, Env}
use libgossip.Core.State.Frame.{same_id-eq, same_id-ne}
use libgossip.Core.Update.{merge}
use libgossip.Node.{can_replace, NodeView}

-- No key occurs twice, as in a std::map.
abbrev pub IsMap : Dictionary → Type 0
IsMap [] = Unit
IsMap ((k, v) ∷ m) = (lookup k m ≡ none) × IsMap m

-- The value of a key in the first map, or else in the second.
abbrev pub first_of_two : Option Bytes → Option Bytes → Option Bytes
first_of_two (some v) old = some v
first_of_two none old = old

metadata-set_entry :
    (env : Env) (k v : Bytes) (self : NodeView)
    → (set_entry env k v self).metadata ≡ insert k v self.metadata
unfolding set_entry
metadata-set_entry env k v self = ground arith

lookup-set_entry :
    (env : Env) (k j v : Bytes) (self : NodeView)
    → lookup j (set_entry env k v self).metadata
      ≡ (if holds (bytes_discrete j k) then some v else lookup j self.metadata)
lookup-set_entry env k j v self =
    rw (metadata-set_entry env k v self) (lookup-insert k j v self.metadata)

lookup-set_entries :
    (env : Env) (md : Dictionary) (self : NodeView) (j : Bytes)
    → IsMap md
    → lookup j (set_entries env md self).metadata
      ≡ first_of_two (lookup j md) (lookup j self.metadata)
unfolding set_entries lookup
lookup-set_entries env [] self j h = refl
lookup-set_entries env ((k, v) ∷ md) self j h =
    lookup-set_entries env md (set_entry env k v self) j h.1
    ∙ ground (arith, lookup-set_entry env k j v self, h.0)

-- Everything else about this node stays: its identity, its address and its own counters.
abbrev pub SameNode : NodeView → NodeView → Type 0
SameNode a b = b ≡ record a { metadata = b.metadata; config_epoch = b.config_epoch }

set_entry-SameNode :
    (env : Env) (k v : Bytes) (self : NodeView) → SameNode self (set_entry env k v self)
unfolding set_entry
set_entry-SameNode env k v self = ground arith

pub set_entries-SameNode :
    (env : Env) (md : Dictionary) (self : NodeView) → SameNode self (set_entries env md self)
unfolding set_entries
set_entries-SameNode env [] self = refl
set_entries-SameNode env ((k, v) ∷ md) self =
    ground
      (arith, set_entries-SameNode env md (set_entry env k v self), set_entry-SameNode env k v self)

epoch-set_entry :
    (env : Env) (k v : Bytes) (self : NodeView)
    → (set_entry env k v self).config_epoch ≡ (
        if holds (bytes_discrete k config_epoch_key)
        then get_or (env.stoull v) self.config_epoch
        else self.config_epoch)
unfolding set_entry
epoch-set_entry env k v self = ground arith

asked_number : Env → Option Bytes → ℕ → ℕ
asked_number env none old = old
asked_number env (some v) old = get_or (env.stoull v) old

-- The epoch that new metadata asks for: the number under the key "config_epoch", if there is one
-- that std::stoull reads.
unfoldable pub asked_epoch : Env → Dictionary → ℕ → ℕ
unfolding asked_number
asked_epoch env md old = asked_number env (lookup config_epoch_key md) old

epoch-set_entries :
    (env : Env) (md : Dictionary) (self : NodeView)
    → IsMap md
    → (set_entries env md self).config_epoch ≡ asked_epoch env md self.config_epoch
unfolding set_entries lookup asked_epoch
epoch-set_entries env [] self h = refl
epoch-set_entries env ((k, v) ∷ md) self h =
    epoch-set_entries env md (set_entry env k v self) h.1
    ∙ elim (bytes_discrete k config_epoch_key) [
      | yes e ↦
          let absent : lookup config_epoch_key md ≡ none = subst (λ z. lookup z md ≡ none) e h.0 in
          rw
            (
              epoch-set_entry env k v self,
              same_id-eq k config_epoch_key e,
              same_id-eq config_epoch_key k (sym e),
            )
            (rw absent refl)
      | no e ↦ rw (
        epoch-set_entry env k v self,
        same_id-ne k config_epoch_key e,
        same_id-ne config_epoch_key k (λ f. e (sym f)),
      )
    ]

-- After an update of its metadata by a map without repeated keys this node has the new value of
-- every key that was given and the old value of every other, the epoch that the key "config_epoch"
-- asks for, and one more heartbeat and version; its id, address and status stay.
pub update_self_metadata_lem :
    (env : Env) (md : Dictionary) (s : Core)
    → IsMap md
    → let self' = (update_self_metadata env md s).self in
      ((j : Bytes)
        → lookup j self'.metadata ≡ first_of_two (lookup j md) (lookup j s.self.metadata))
      × (self'.config_epoch ≡ asked_epoch env md s.self.config_epoch)
      × (self'.heartbeat ≡ inc64 s.self.heartbeat)
      × (self'.version ≡ inc64 s.self.version)
      × (self'.id ≡ s.self.id)
      × (self'.ip ≡ s.self.ip)
      × (self'.port ≡ s.self.port)
      × (self'.status ≡ s.self.status)
unfolding update_self_metadata
update_self_metadata_lem env md s h =
    let same = set_entries-SameNode env md s.self in
    (
      λ j. lookup-set_entries env md s.self j h,
      epoch-set_entries env md s.self h,
      ap (λ n. inc64 n.heartbeat) same,
      ap (λ n. inc64 n.version) same,
      ap (λ n. n.id) same,
      ap (λ n. n.ip) same,
      ap (λ n. n.port) same,
      ap (λ n. n.status) same,
    )

-- After an update of its metadata by a map without repeated keys that does not lower the epoch, and
-- unless the heartbeat wraps around, the new state of this node can replace the previous one.
pub update_self_metadata_spreads :
    (env : Env) (md : Dictionary) (s : Core)
    → IsMap md
    → s.self.config_epoch ≤ asked_epoch env md s.self.config_epoch
    → s.self.heartbeat + 1 < u64_mod
    → can_replace (update_self_metadata env md s).self s.self ≡ true
unfolding can_replace
update_self_metadata_spreads env md s h up small =
    let facts = update_self_metadata_lem env md s h in ground (arith, facts.1, facts.2)

-- After an update of its metadata by a map without repeated keys that lowers the epoch, the new
-- state of this node cannot replace the previous one, and merging it there leaves the old record as
-- it is.
pub update_self_metadata_stuck :
    (env : Env) (md : Dictionary) (s : Core) (seen : ℕ)
    → IsMap md
    → asked_epoch env md s.self.config_epoch < s.self.config_epoch
    → (can_replace (update_self_metadata env md s).self s.self ≡ false)
      × (merge (update_self_metadata env md s).self seen s.self ≡ s.self)
unfolding can_replace merge
update_self_metadata_stuck env md s seen h down =
    let facts = update_self_metadata_lem env md s h in
    (ground (arith, facts.1), ground (arith, facts.1))
